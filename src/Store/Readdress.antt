-- ===== src/Store/Readdress.antt =====
-- internal/store/admin.go: `UpdatePeerAddress` with its checks. The addresses are parsed already; a
-- missing or blank text is `none`. An address of the other family lies outside every network.
use mathlib.Core.Path.{subst}
use go_wireguard_mesh.Common.{
  Bool, Option, any, if◌then◌else◌, is_some, nat_eq, none, not, some, ℕ, ◌&&◌, ◌||◌, ◌≡◌,
  Option-cases, ap, arith, inl, inr, refl,
}
use go_wireguard_mesh.Store.{
  Db, Peer, Result, address_in_use, err, invalid, not_found, ok, peer_by_id, same_address,
  save_peer, Result-cases, ok-injective,
}
use go_wireguard_mesh.Store.Address.{Prefix, contains}
use go_wireguard_mesh.Store.Enroll.{Settings}
use go_wireguard_mesh.Store.Peers.{is_active}

-- `validateOverlayAddr`, where the address is required.
unfoldable pub validate_overlay_addr : Option ℕ → Prefix → Result ℕ
validate_overlay_addr none p = err invalid
validate_overlay_addr (some a) p =
    if not (contains p a) then err invalid else if nat_eq a p.addr then err invalid else ok a

-- The IPv6 address as it is to be stored: required with the overlay, and refused without it.
unfoldable pub validate_addr6 : Settings → Option ℕ → Result (Option ℕ)
unfolding validate_overlay_addr
validate_addr6 st a = elim st.network6 [
  | none ↦ if is_some a then err invalid else ok none
  | some p ↦ elim (validate_overlay_addr a p) [ err e ↦ err e | ok b ↦ ok (some b) ]
]

-- `ensurePeerAddressFree` for the two columns: whether another peer holds the address.
abbrev pub in_use : ℕ → ℕ → Db → Bool
in_use i a db = any (λ q. nat_eq q.assigned_ip a && not (nat_eq q.id i)) db.peers

abbrev pub in_use6 : ℕ → Option ℕ → Db → Bool
in_use6 i a db = any (λ q. same_address a q.assigned_ip6 && not (nat_eq q.id i)) db.peers

abbrev pub readdress : ℕ → Option ℕ → Peer → Peer
readdress a b p = record p { assigned_ip = a; assigned_ip6 = b }

abbrev pub answer_row : Peer → Result Db → Result (Db × Peer)
answer_row p (err e) = err e
answer_row p (ok d) = ok (d, p)

-- The part of `UpdatePeerAddress` in the transaction.
unfoldable pub write_address : ℕ → ℕ → Option ℕ → Db → Result (Db × Peer)
unfolding save_peer
write_address i a b db =
    if in_use i a db || in_use6 i b db then err address_in_use else elim (peer_by_id i db) [
      | none ↦ err not_found
      | some p ↦
          if is_active p
          then answer_row (readdress a b p) (save_peer (readdress a b p) db)
          else err not_found
    ]

-- `UpdatePeerAddress`.
unfoldable pub update_peer_address : Settings → ℕ → Option ℕ → Option ℕ → Db → Result (Db × Peer)
unfolding validate_overlay_addr validate_addr6 write_address
update_peer_address st i a b db = elim (validate_overlay_addr a st.network) [
  | err e ↦ err e
  | ok ip ↦ elim (validate_addr6 st b) [ err e ↦ err e | ok ip6 ↦ write_address i ip ip6 db ]
]

answer_row_inv :
    (p q : Peer) (r : Result Db) (d : Db) → answer_row p r ≡ ok (d, q) → (r ≡ ok d) × (p ≡ q)
answer_row_inv p q (err x) d h = cc
answer_row_inv p q (ok c) d h =
    let e : (c, p) ≡ (d, q) = ok-injective (c, p) (d, q) h in (ap (λ x. ok x.0) e, ap (λ x. x.1) e)

-- What a successful update writes over the row `p`.
abbrev pub IsReaddressed : Db → Db → Peer → Peer → Type 0
IsReaddressed db d p q =
    (save_peer q db ≡ ok d)
    × (q.id ≡ p.id)
    × (q.setup_key_id ≡ p.setup_key_id)
    × (q.exit_node ≡ p.exit_node)
    × (q.revoked_at ≡ p.revoked_at)

write_address_inv :
    (i a : ℕ) (b : Option ℕ) (db d : Db) (q : Peer)
    → write_address i a b db ≡ ok (d, q)
    → (p : Peer) × (peer_by_id i db ≡ some p) × IsReaddressed db d p q
unfolding write_address
write_address_inv i a b db d q h = elim (Option-cases (peer_by_id i db)) [
  | inl e ↦ absurd (ground arith)
  | inr (p, e) ↦
      let r : Peer = readdress a b p in
      let k : answer_row r (save_peer r db) ≡ ok (d, q) = ground arith in
      let v = answer_row_inv r q (save_peer r db) d k in
      (p, e, subst (IsReaddressed db d p) v.1 (v.0, refl, refl, refl, refl))
]

pub update_peer_address_inv :
    (st : Settings) (i : ℕ) (a b : Option ℕ) (db d : Db) (q : Peer)
    → update_peer_address st i a b db ≡ ok (d, q)
    → (p : Peer) × (peer_by_id i db ≡ some p) × IsReaddressed db d p q
unfolding update_peer_address
update_peer_address_inv st i a b db d q h =
    elim (Result-cases (validate_overlay_addr a st.network)) [
      | inr (x, e) ↦ absurd (ground arith)
      | inl (ip, e) ↦ elim (Result-cases (validate_addr6 st b)) [
        | inr (x, f) ↦ absurd (ground arith)
        | inl (ip6, f) ↦ write_address_inv i ip ip6 db d q (ground arith)
      ]
    ]
