-- ===== src/Store/Uses.antt =====
-- How many peers a setup key let in, and how that number moves with the writes to `peers`.
use go_wireguard_mesh.Common.{
  All, Bool, List, [], any, ap, arith, false, find, if◌then◌else◌, inl, inr, nat_eq, refl, some,
  true, ℕ, ◌++◌, ◌+◌, ◌<◌, ◌∙◌, ◌∷◌, ◌≡◌, ◌≤◌, ◌⊎◌,
}
use go_wireguard_mesh.Store.{Peer, replace_peer}
use go_wireguard_mesh.Store.Peers.{delete_peer}
use go_wireguard_mesh.Store.Rows.{AllDiffer, collide}

abbrev pub In : {A : Type 0} → A → List A → Type 0
In a [] = ⊥
In a (b ∷ bs) = (a ≡ b) ⊎ In a bs

pub find-In : {A : Type 0} (f : A → Bool) (a : A) (xs : List A) → find f xs ≡ some a → In a xs
find-In f a [] e = cc
find-In f a (x ∷ xs) e = ground (arith, find-In f a xs)

pub find_test {ℓ} :
    {A : Type ℓ} (f : A → Bool) (a : A) (xs : List A) → find f xs ≡ some a → f a ≡ true
find_test f a [] e = cc
find_test f a (x ∷ xs) e = ground (arith, find_test f a xs)

-- The number of rows that the key with this id let in.
abbrev pub let_in : ℕ → List Peer → ℕ
let_in i [] = 0
let_in i (p ∷ ps) = (if nat_eq p.setup_key_id i then 1 else 0) + let_in i ps

pub let_in-append :
    (i : ℕ) (p : Peer) (ps : List Peer)
    → let_in i (ps ++ p ∷ []) ≡ let_in i ps + (if nat_eq p.setup_key_id i then 1 else 0)
let_in-append i p [] = omega arith
let_in-append i p (q ∷ qs) = omega (arith, let_in-append i p qs)

replace_absent :
    (p : Peer) (qs : List Peer) → any (λ q. nat_eq p.id q.id) qs ≡ false → replace_peer p qs ≡ qs
replace_absent p [] h = refl
replace_absent p (q ∷ qs) h = ground (arith, replace_absent p qs)

pub In-differs :
    (p q : Peer) (qs : List Peer) → In p qs → any (collide q) qs ≡ false → nat_eq q.id p.id ≡ false
In-differs p q [] m h = absurd m
In-differs p q (r ∷ rs) (inl e) h = ground arith
In-differs p q (r ∷ rs) (inr m) h = ground (arith, In-differs p q rs m)

absent :
    (p q : Peer) (qs : List Peer)
    → p.id ≡ q.id
    → any (collide q) qs ≡ false
    → any (λ r. nat_eq p.id r.id) qs ≡ false
absent p q [] e h = refl
absent p q (r ∷ rs) e h = ground (arith, absent p q rs)

-- A new version of a row of the table, under the same key, changes no number.
pub let_in-replace :
    (i : ℕ) (p q : Peer) (ps : List Peer)
    → In p ps
    → AllDiffer ps
    → q.id ≡ p.id
    → q.setup_key_id ≡ p.setup_key_id
    → let_in i (replace_peer q ps) ≡ let_in i ps
let_in-replace i p q [] m w e k = absurd m
let_in-replace i p q (r ∷ rs) (inl m) w e k =
    let f : q.id ≡ r.id = e ∙ ap (λ x. x.id) m in
    let g : q.setup_key_id ≡ r.setup_key_id = k ∙ ap (λ x. x.setup_key_id) m in
    let a : replace_peer q rs ≡ rs = replace_absent q rs (absent q r rs f w.0) in
    ground (arith, a, f, g)
let_in-replace i p q (r ∷ rs) (inr m) w e k =
    ground (arith, In-differs p r rs m w.0, let_in-replace i p q rs m w.1 e k)

pub let_in-delete : (i j : ℕ) (ps : List Peer) → let_in i (delete_peer j ps) ≤ let_in i ps
let_in-delete i j [] = omega arith
let_in-delete i j (p ∷ ps) = ground (arith, let_in-delete i j ps)

-- Every row names a setup key of the table: its id is lower than the next one.
abbrev pub IsOwned : ℕ → Peer → Type 0
IsOwned n p = p.setup_key_id < n

pub let_in_fresh : (n : ℕ) (ps : List Peer) → All (IsOwned n) ps → let_in n ps ≡ 0
let_in_fresh n [] h = refl
let_in_fresh n (p ∷ ps) h = ground (arith, let_in_fresh n ps h.1, h.0)

pub replace-IsOwned :
    (n : ℕ) (q : Peer) (ps : List Peer)
    → q.setup_key_id < n
    → All (IsOwned n) ps
    → All (IsOwned n) (replace_peer q ps)
replace-IsOwned n q [] k h = tt
replace-IsOwned n q (p ∷ ps) k h = ground (arith, replace-IsOwned n q ps k h.1, h.0)

pub delete-IsOwned :
    (n j : ℕ) (ps : List Peer) → All (IsOwned n) ps → All (IsOwned n) (delete_peer j ps)
delete-IsOwned n j [] h = tt
delete-IsOwned n j (p ∷ ps) h = ground (arith, delete-IsOwned n j ps h.1, h.0)

pub owned-In :
    (n : ℕ) (p : Peer) (ps : List Peer) → In p ps → All (IsOwned n) ps → p.setup_key_id < n
owned-In n p [] m h = absurd m
owned-In n p (q ∷ qs) (inl e) h = rw e (h.0)
owned-In n p (q ∷ qs) (inr m) h = owned-In n p qs m h.1
