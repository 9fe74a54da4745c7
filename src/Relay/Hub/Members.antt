-- ===== src/Relay/Hub/Members.antt =====
-- The members of one pair: how many there are, and who is the other one.
use go_wireguard_mesh.Common.{
  ==_iff, Bool-cases, IsUnique, String, [], arith, delete, inl, inr, insert, is_some, length,
  lookup, lookup-delete, nat_key, none, some, text_key, true, ℕ, ◌+◌, ◌==◌, ◌∷◌, ◌≡◌, ◌≢◌, ◌≤◌,
}
use go_wireguard_mesh.Relay.Hub.{Members, first_other, last_other}

pub length-insert_new :
    (k : String) (c : ℕ) (ms : Members)
    → lookup k ms ≡ none
    → length (insert k c ms) ≡ length ms + 1
unfolding lookup insert
length-insert_new k c [] h = omega arith
length-insert_new k c ((j, d) ∷ ms) h = ground (arith, length-insert_new k c ms)

pub length-insert_old :
    (k : String) (c : ℕ) (ms : Members) {d : ℕ}
    → lookup k ms ≡ some d
    → length (insert k c ms) ≡ length ms
unfolding lookup insert
length-insert_old k c [] h = cc
length-insert_old k c ((j, d) ∷ ms) {d = x} h = ground (arith, length-insert_old k c ms {d = x})

pub length-delete-le : (k : String) (ms : Members) → length (delete k ms) ≤ length ms
unfolding delete
length-delete-le k [] = omega arith
length-delete-le k ((j, d) ∷ ms) = ground (arith, length-delete-le k ms)

delete-none : (j k : String) (ms : Members) → lookup j ms ≡ none → lookup j (delete k ms) ≡ none
delete-none j k ms h = ground (arith, lookup-delete k j ms)

pub delete-IsUnique : (k : String) (ms : Members) → IsUnique ms → IsUnique (delete k ms)
unfolding delete
delete-IsUnique k [] h = tt
delete-IsUnique k ((j, d) ∷ ms) h = ground (arith, delete-IsUnique k ms h.1, delete-none j k ms h.0)

-- A connection is found as the other member only under another key.
pub first_other_sound :
    (m : String) (ms : Members) (c : ℕ)
    → IsUnique ms
    → first_other m ms ≡ some c
    → (id : String) × (id ≢ m) × (lookup id ms ≡ some c)
unfolding first_other lookup
first_other_sound m [] c u h = absurd (ground arith)
first_other_sound m ((j, d) ∷ ms) c u h = elim (Bool-cases (j == m)) [
  | inl e ↦
      let (id, ne, l) = first_other_sound m ms c u.1 (rw e at h) in
      (id, ne, ground (arith, ==_iff j id))
  | inr e ↦ (j, ground (arith, ==_iff j m), ground (arith, ==_iff j j))
]

-- In a pair of at most two, the other member is found exactly where there is one.
pub first_other_complete :
    (m id : String) (ms : Members) (c : ℕ)
    → IsUnique ms
    → length ms ≤ 2
    → is_some (lookup m ms) ≡ true
    → id ≢ m
    → lookup id ms ≡ some c
    → (first_other m ms ≡ some c) × (last_other m ms ≡ some c)
unfolding first_other last_other lookup
first_other_complete m id [] c u n a ne h = absurd (ground arith)
first_other_complete m id ((j, d) ∷ []) c u n a ne h =
    ground (arith, ==_iff j m, ==_iff j id, ==_iff id m)
first_other_complete m id ((j, d) ∷ (k, f) ∷ []) c u n a ne h =
    ground (arith, ==_iff j m, ==_iff j id, ==_iff id m, ==_iff k m, ==_iff k id, ==_iff k j)
first_other_complete m id ((j, d) ∷ (k, f) ∷ x ∷ ms) c u n a ne h = absurd (omega arith)
