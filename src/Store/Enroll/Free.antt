-- ===== src/Store/Enroll/Free.antt =====
-- The rows that `Enroll` writes clash with no other row, and what the allocation of addresses fails
-- with.
use mathlib.Core.Path.{subst}
use go_wireguard_mesh.Common.{
  ==_comm, Bool, List, Option, Option-cases, [], any, arith, false, find, inl, inr, nat_key, none,
  refl, some, text_key, ℕ, ◌==◌, ◌∷◌, ◌≡◌, ◌⊎◌,
}
use go_wireguard_mesh.Store.{
  Db, Error, Peer, Reason, Result, Result-cases, clash, err, no_free_address, ok, unauthorized,
}
use go_wireguard_mesh.Store.Address.{Prefix, allocate_addr, is_used}
use go_wireguard_mesh.Store.Address.Lowest.{allocate_addr_iff}
use go_wireguard_mesh.Store.Enroll.{Settings, addresses, addresses6, allocate_ip6}
use go_wireguard_mesh.Store.Rows.{other_clash}

-- The errors that are meant for the agent.
abbrev pub IsRefusal : Error → Type 0
IsRefusal e = (e ≡ no_free_address) ⊎ ((x : Reason) × (e ≡ unauthorized x))

abbrev pub taken6 : Option ℕ → List Peer → Bool
taken6 none ps = false
taken6 (some a) ps = is_used (addresses6 ps) a

pub err-injective : {A : Type 0} (x y : Error) → ◌≡◌ {A = Result A} (err x) (err y) → x ≡ y
err-injective x y h = cc

pub address_error :
    (p : Prefix) (used : List ℕ) (e : Error) → allocate_addr p used ≡ err e → IsRefusal e
unfolding allocate_addr
address_error p used e h = inl (ground arith)

pub address_free :
    (p : Prefix) (used : List ℕ) (ip : ℕ) → allocate_addr p used ≡ ok ip → is_used used ip ≡ false
address_free p used ip h = ((allocate_addr_iff p used ip).0 h).1

pub ip6_error : (st : Settings) (db : Db) (e : Error) → allocate_ip6 st db ≡ err e → IsRefusal e
ip6_error st db e h = elim (Option-cases st.network6) [
  | inl n ↦ absurd (ground arith)
  | inr (p, n) ↦ elim (Result-cases (allocate_addr p (addresses6 db.peers))) [
    | inl (a, k) ↦ absurd (ground arith)
    | inr (x, k) ↦
        let q : x ≡ e = ground arith in
        subst IsRefusal q (address_error p (addresses6 db.peers) x k)
  ]
]

pub ip6_free :
    (st : Settings) (db : Db) (ip6 : Option ℕ)
    → allocate_ip6 st db ≡ ok ip6
    → taken6 ip6 db.peers ≡ false
ip6_free st db none h = refl
ip6_free st db (some a) h = elim (Option-cases st.network6) [
  | inl n ↦ absurd (ground arith)
  | inr (p, n) ↦ elim (Result-cases (allocate_addr p (addresses6 db.peers))) [
    | inl (b, k) ↦
        let q : b ≡ a = ground arith in
        subst (λ (x : ℕ). is_used (addresses6 db.peers) x ≡ false) q
          (address_free p (addresses6 db.peers) b k)
    | inr (x, k) ↦ absurd (ground arith)
  ]
]

-- A row with an unknown key and unused addresses.
pub no_clash :
    (p : Peer) (ps : List Peer)
    → find (λ q. q.public_key == p.public_key) ps ≡ none
    → is_used (addresses ps) p.assigned_ip ≡ false
    → taken6 p.assigned_ip6 ps ≡ false
    → any (clash p) ps ≡ false
no_clash p [] k a b = refl
no_clash p (q ∷ qs) k a b = ground (arith, ==_comm p.public_key q.public_key, no_clash p qs)

-- A new version of a row with an unused IPv6 address.
pub readdressed :
    (p q : Peer) (ps : List Peer)
    → q.id ≡ p.id
    → q.public_key ≡ p.public_key
    → q.assigned_ip ≡ p.assigned_ip
    → taken6 q.assigned_ip6 ps ≡ false
    → any (other_clash p) ps ≡ false
    → any (other_clash q) ps ≡ false
readdressed p q [] i k a t h = refl
readdressed p q (r ∷ rs) i k a t h = ground (arith, readdressed p q rs i k a, i, k, a)
