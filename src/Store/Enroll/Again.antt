-- ===== src/Store/Enroll/Again.antt =====
-- What a successful `Enroll` wrote, taken apart.
use mathlib.Core.Path.{subst}
use go_wireguard_mesh.Common.{
  Bool, Option-cases, String, ap, arith, false, inl, inr, refl, true, ℕ, ◌≡◌, Option, none, sym,
  ◌∙◌, is_some, not, some, ◌&&◌,
}
use go_wireguard_mesh.Store.{
  Db, Peer, Result, Result-cases, err, insert_peer, next_id, ok, ok-injective, peer_ids, save_peer,
  coalesce,
}
use go_wireguard_mesh.Store.Address.{allocate_addr}
use go_wireguard_mesh.Store.Enroll.{
  Enrolled, Request, Settings, addresses, admit, allocate_ip6, backfill, check_key, enrolled,
  finish, new_peer, re_enroll, refreshed, addresses6,
}

pub finish_inv :
    (st : Settings) (p : Peer) (created : Bool) (r : Result Db) (d : Db) (e : Enrolled)
    → finish st p created r ≡ ok (d, e)
    → (r ≡ ok d) × (p ≡ e.peer) × (created ≡ e.created)
finish_inv st p created (err x) d e h = cc
finish_inv st p created (ok c) d e h =
    let q : (c, enrolled st p created c) ≡ (d, e) =
      ok-injective (c, enrolled st p created c) (d, e) h in
    (ap (λ x. ok x.0) q, ap (λ x. x.1.peer) q, ap (λ x. x.1.created) q)

-- Whether an IPv6 address is missing that the overlay has.
abbrev pub is_missing : Settings → Option ℕ → Bool
is_missing st ip6 = is_some st.network6 && not (is_some ip6)

ip6_given :
    (st : Settings) (db : Db) (ip6 : Option ℕ)
    → allocate_ip6 st db ≡ ok ip6
    → is_missing st ip6 ≡ false
ip6_given st db ip6 h = elim (Option-cases st.network6) [
  | inl e ↦ ground arith
  | inr (p, e) ↦ elim (Result-cases (allocate_addr p (addresses6 db.peers))) [
    | inl (a, f) ↦ ground arith
    | inr (x, f) ↦ ground arith
  ]
]

backfill_given :
    (st : Settings) (p : Peer) (db : Db) (ip6 : Option ℕ)
    → backfill st p db ≡ ok ip6
    → is_missing st (coalesce ip6 p.assigned_ip6) ≡ false
backfill_given st p db none h = ground (arith, ip6_given st db none)
backfill_given st p db (some a) h = ground arith

-- What a new enrollment inserts.
abbrev pub IsAdmitted : Settings → Request → Db → ℕ → Db → Peer → Type 0
IsAdmitted st r db key_id d p =
    (insert_peer p db ≡ ok d)
    × (p.id ≡ next_id (peer_ids db.peers))
    × (p.setup_key_id ≡ key_id)
    × (p.public_key ≡ r.public_key)
    × (is_missing st p.assigned_ip6 ≡ false)
    × (p.exit_node ≡ none)

pub admit_ok :
    (st : Settings) (r : Request) (token : String) (now key_id : ℕ) (db : Db) (ip : ℕ)
    (ip6 : Option ℕ)
    → allocate_addr st.network (addresses db.peers) ≡ ok ip
    → allocate_ip6 st db ≡ ok ip6
    → let p = new_peer r token now (next_id (peer_ids db.peers)) ip ip6 key_id in
      admit st r token now key_id db ≡ finish st p true (insert_peer p db)
unfolding admit
admit_ok st r token now key_id db ip ip6 a b = ground arith

pub admit_inv :
    (st : Settings) (r : Request) (token : String) (now key_id : ℕ) (db d : Db) (e : Enrolled)
    → admit st r token now key_id db ≡ ok (d, e)
    → IsAdmitted st r db key_id d e.peer × (true ≡ e.created)
unfolding admit
admit_inv st r token now key_id db d e h =
    elim (Result-cases (allocate_addr st.network (addresses db.peers))) [
      | inr (x, a) ↦ absurd (ground arith)
      | inl (ip, a) ↦ elim (Result-cases (allocate_ip6 st db)) [
        | inr (x, b) ↦ absurd (ground arith)
        | inl (ip6, b) ↦
            let p : Peer = new_peer r token now (next_id (peer_ids db.peers)) ip ip6 key_id in
            let g : finish st p true (insert_peer p db) ≡ ok (d, e) =
              sym (admit_ok st r token now key_id db ip ip6 a b) ∙ h in
            let f = finish_inv st p true (insert_peer p db) d e g in
            (
              subst (IsAdmitted st r db key_id d) f.1
                  (f.0, refl, refl, refl, ip6_given st db ip6 b, refl),
              f.2,
            )
      ]
    ]

-- What a repeated enrollment writes over the row `p`.
abbrev pub IsRefreshed : Settings → Request → Db → Peer → Db → Peer → Type 0
IsRefreshed st r db p d q =
    (save_peer q db ≡ ok d)
    × (q.id ≡ p.id)
    × (q.setup_key_id ≡ p.setup_key_id)
    × (q.public_key ≡ p.public_key)
    × (is_missing st q.assigned_ip6 ≡ false)
    × (check_key r.setup_key p db ≡ none)
    × (q.exit_node ≡ p.exit_node)
    × (is_some q.revoked_at ≡ is_some p.revoked_at)

pub re_enroll_ok :
    (st : Settings) (r : Request) (token : String) (now : ℕ) (p : Peer) (db : Db) (ip6 : Option ℕ)
    → check_key r.setup_key p db ≡ none
    → backfill st p db ≡ ok ip6
    → let q = refreshed r token now ip6 p in
      re_enroll st r token now p db ≡ finish st q false (save_peer q db)
unfolding re_enroll
re_enroll_ok st r token now p db ip6 a b = ground arith

pub re_enroll_inv :
    (st : Settings) (r : Request) (token : String) (now : ℕ) (p : Peer) (db d : Db) (e : Enrolled)
    → re_enroll st r token now p db ≡ ok (d, e)
    → IsRefreshed st r db p d e.peer × (false ≡ e.created)
unfolding re_enroll
re_enroll_inv st r token now p db d e h = elim (Option-cases (check_key r.setup_key p db)) [
  | inr (x, a) ↦ absurd (ground arith)
  | inl a ↦ elim (Result-cases (backfill st p db)) [
    | inr (x, b) ↦ absurd (ground arith)
    | inl (ip6, b) ↦
        let q : Peer = refreshed r token now ip6 p in
        let g : finish st q false (save_peer q db) ≡ ok (d, e) =
          sym (re_enroll_ok st r token now p db ip6 a b) ∙ h in
        let f = finish_inv st q false (save_peer q db) d e g in
        (
          subst (IsRefreshed st r db p d) f.1
              (f.0, refl, refl, refl, backfill_given st p db ip6 b, a, refl, refl),
          f.2,
        )
  ]
]
