-- ===== src/Common/Sorting.antt =====
-- Byte strings as lists of numbers, their order, and sorting: Go's `sort.Strings`.
use Prim.Native.Nat.{ℕ, ◌+◌}
use mathlib.Core.Path.{◌≡◌, refl, subst}
use mathlib.Core.Bool.{Bool, true, false, ◌&&◌, ◌||◌}
use mathlib.Core.Logic.{◌↔◌}
use mathlib.Core.List.{List, [], ◌∷◌}
use native.Mathlib.Omega.{arith}
use go_wireguard_mesh.Common.Tests.{if◌then◌else◌, ltb, nat_eq}
use go_wireguard_mesh.Common.Keys.{Key, nat_key, ◌==◌, text_key}

abbrev pub Bytes : Type 0
Bytes = List ℕ

abbrev pub bytes_eq : Bytes → Bytes → Bool
bytes_eq [] [] = true
bytes_eq [] (b ∷ ys) = false
bytes_eq (a ∷ xs) [] = false
bytes_eq (a ∷ xs) (b ∷ ys) = nat_eq a b && bytes_eq xs ys

pub bytes_eq_refl : (xs : Bytes) → bytes_eq xs xs ≡ true
bytes_eq_refl [] = refl
bytes_eq_refl (a ∷ xs) = ground (arith, bytes_eq_refl xs)

pub bytes_eq_sound : (xs ys : Bytes) → bytes_eq xs ys ≡ true → xs ≡ ys
bytes_eq_sound [] [] h = refl
bytes_eq_sound [] (b ∷ ys) h = cc
bytes_eq_sound (a ∷ xs) [] h = cc
bytes_eq_sound (a ∷ xs) (b ∷ ys) h = ground (arith, bytes_eq_sound xs ys)

pub bytes_eq_iff : (xs ys : Bytes) → (bytes_eq xs ys ≡ true) ↔ (xs ≡ ys)
bytes_eq_iff xs ys =
    (bytes_eq_sound xs ys, λ e. subst (λ (x : Bytes). bytes_eq xs x ≡ true) e (bytes_eq_refl xs))

instance abbrev pub bytes_key : Key Bytes
bytes_key = record { same = bytes_eq; same_iff = bytes_eq_iff }

-- `a <= b` on strings.
abbrev pub at_most : Bytes → Bytes → Bool
at_most [] ys = true
at_most (a ∷ xs) [] = false
at_most (a ∷ xs) (b ∷ ys) = ltb a b || (nat_eq a b && at_most xs ys)

pub at_most_total : (xs ys : Bytes) → at_most xs ys ≡ false → at_most ys xs ≡ true
at_most_total [] ys h = cc
at_most_total (a ∷ xs) [] h = refl
at_most_total (a ∷ xs) (b ∷ ys) h = ground (arith, at_most_total xs ys)

pub at_most_antisymm : (xs ys : Bytes) → at_most xs ys ≡ true → at_most ys xs ≡ true → xs ≡ ys
at_most_antisymm [] [] h k = refl
at_most_antisymm [] (b ∷ ys) h k = cc
at_most_antisymm (a ∷ xs) [] h k = cc
at_most_antisymm (a ∷ xs) (b ∷ ys) h k = ground (arith, at_most_antisymm xs ys)

pub at_most_trans :
    (xs ys zs : Bytes) → at_most xs ys ≡ true → at_most ys zs ≡ true → at_most xs zs ≡ true
at_most_trans [] ys zs h k = refl
at_most_trans (a ∷ xs) [] zs h k = cc
at_most_trans (a ∷ xs) (b ∷ ys) [] h k = cc
at_most_trans (a ∷ xs) (b ∷ ys) (c ∷ zs) h k = ground (arith, at_most_trans xs ys zs)

-- One step of an insertion sort.
abbrev pub place : Bytes → List Bytes → List Bytes
place s [] = s ∷ []
place s (t ∷ ts) = if at_most s t then s ∷ t ∷ ts else t ∷ place s ts

abbrev pub sort : List Bytes → List Bytes
sort [] = []
sort (s ∷ ss) = place s (sort ss)

place_comm_nil : (s t : Bytes) → place s (t ∷ []) ≡ place t (s ∷ [])
place_comm_nil s t = ground (arith, at_most_total s t, at_most_antisymm s t)

place_comm_cons :
    (s t u : Bytes) (us : List Bytes)
    → place s (place t us) ≡ place t (place s us)
    → place s (place t (u ∷ us)) ≡ place t (place s (u ∷ us))
place_comm_cons s t u us h =
    ground
      (arith, at_most_total s t, at_most_antisymm s t, at_most_trans s t u, at_most_trans t s u)

pub place_comm : (s t : Bytes) (us : List Bytes) → place s (place t us) ≡ place t (place s us)
place_comm s t [] = place_comm_nil s t
place_comm s t (u ∷ us) = place_comm_cons s t u us (place_comm s t us)

module _ {A : Type 0} ⦃e : Key A⦄ where
  -- How often an item stands in a list.
  abbrev pub count : A → List A → ℕ
  count a [] = 0
  count a (x ∷ xs) = (if x == a then 1 else 0) + count a xs

count-place : (s t : Bytes) (ts : List Bytes) → count s (place t ts) ≡ count s (t ∷ ts)
count-place s t [] = refl
count-place s t (u ∷ us) = ground (arith, count-place s t us)

pub count-sort : (s : Bytes) (ts : List Bytes) → count s (sort ts) ≡ count s ts
count-sort s [] = refl
count-sort s (t ∷ ts) = ground (arith, count-place s t (sort ts), count-sort s ts)
