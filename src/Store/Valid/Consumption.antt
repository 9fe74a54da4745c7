-- ===== src/Store/Valid/Consumption.antt =====
-- The consumption of a setup key makes room for one peer under it, and for no other.
use mathlib.Core.Path.{subst}
use go_wireguard_mesh.Common.{
  ==_iff, All, Bool-cases, List, String, [], any, arith, false, find, if◌then◌else◌, inl, inr,
  nat_eq, nat_key, or_else, refl, some, text_key, true, ℕ, ◌+◌, ◌==◌, ◌∷◌, ◌≡◌, ◌≤◌,
}
use go_wireguard_mesh.Store.{Peer, SetupKey}
use go_wireguard_mesh.Store.SetupKeys.{consume, consumed, is_usable}
use go_wireguard_mesh.Store.Uses.{let_in}
use go_wireguard_mesh.Store.Valid.{IsWithin, KeysDiffer, key_clash}

-- As `IsWithin`, when one more peer is let in under the key with the id `i`.
abbrev pub IsRoomy : ℕ → List Peer → SetupKey → Type 0
IsRoomy i ps k =
    (let_in k.id ps + (if nat_eq i k.id then 1 else 0) ≤ k.uses_consumed)
    × (k.uses_consumed ≤ or_else k.max_uses k.uses_consumed)

pub not_usable :
    (key : String) (now : ℕ) (j : SetupKey) (js : List SetupKey)
    → (j.key == key) ≡ true
    → any (key_clash j) js ≡ false
    → any (is_usable key now) js ≡ false
not_usable key now j [] e h = refl
not_usable key now j (k ∷ ks) e h =
    ground (arith, ==_iff j.key key, ==_iff k.key key, ==_iff j.key k.key, not_usable key now j ks)

find_differs :
    (key : String) (j k : SetupKey) (js : List SetupKey)
    → find (λ x. x.key == key) js ≡ some k
    → any (key_clash j) js ≡ false
    → nat_eq k.id j.id ≡ false
find_differs key j k [] e h = cc
find_differs key j k (x ∷ xs) e h = ground (arith, find_differs key j k xs)

step_within :
    (key : String) (now i : ℕ) (ps : List Peer) (k : SetupKey)
    → nat_eq i k.id ≡ false
    → IsWithin ps k
    → IsRoomy i ps (if is_usable key now k then consumed k else k)
step_within key now i ps k ne h = ground (arith, h.0, h.1)

step-IsRoomy :
    (key : String) (now : ℕ) (ps : List Peer) (k : SetupKey)
    → is_usable key now k ≡ true
    → IsWithin ps k
    → IsRoomy k.id ps (consumed k)
step-IsRoomy key now ps k u h = ground (arith, h.0, h.1)

consume_others :
    (key : String) (now : ℕ) (ps : List Peer) (j : SetupKey) (ks : List SetupKey)
    → any (key_clash j) ks ≡ false
    → All (IsWithin ps) ks
    → All (IsRoomy j.id ps) (consume key now ks)
consume_others key now ps j [] h w = tt
consume_others key now ps j (k ∷ ks) h w = (
  step_within key now j.id ps k (ground arith) w.0,
  consume_others key now ps j ks (ground arith) w.1,
)

pub consume-IsRoomy :
    (key : String) (now : ℕ) (ps : List Peer) (k : SetupKey) (ks : List SetupKey)
    → find (λ x. x.key == key) ks ≡ some k
    → any (is_usable key now) ks ≡ true
    → KeysDiffer ks
    → All (IsWithin ps) ks
    → All (IsRoomy k.id ps) (consume key now ks)
consume-IsRoomy key now ps k [] e u d w = cc
consume-IsRoomy key now ps k (j ∷ js) e u d w = elim (Bool-cases (j.key == key)) [
  | inl t ↦
      let q : j ≡ k = ground arith in
      let v : is_usable key now j ≡ true = ground (arith, not_usable key now j js t d.0) in
      let head : IsRoomy j.id ps (if is_usable key now j then consumed j else j) =
        rw v (step-IsRoomy key now ps j v w.0) in
      subst (λ (x : SetupKey). All (IsRoomy x.id ps) (consume key now (j ∷ js))) q
        (head, consume_others key now ps j js d.0 w.1)
  | inr f ↦
      let found : find (λ x. x.key == key) js ≡ some k = ground arith in
      (
        step_within key now k.id ps j (find_differs key j k js found d.0) w.0,
        consume-IsRoomy key now ps k js found (ground arith) d.1 w.1,
      )
]
