-- ===== src/Common/Maps.antt =====
-- A Go map as an association list: `m[k]`, `m[k] = v` and `delete(m, k)`.
use mathlib.Core.Bool.{Bool}
use mathlib.Core.Path.{◌≡◌, refl, sym, subst}
use mathlib.Core.Logic.{inl, inr}
use mathlib.Core.List.{List, [], ◌∷◌}
use mathlib.Core.Option.{Option, none, some}
use native.Mathlib.Omega.{arith}
use go_wireguard_mesh.Common.Tests.{Bool-cases, if◌then◌else◌}
use go_wireguard_mesh.Common.Lists.{All, keep}
use go_wireguard_mesh.Common.Keys.{Key, ◌==◌, nat_key, text_key}

abbrev pub Dict : Type 0 → Type 0 → Type 0
Dict K V = List (K × V)

module _ {K : Type 0} ⦃e : Key K⦄ {V : Type 0} where
  -- Removes every entry of `k`, so that no invariant is needed for `k` to be gone.
  unfoldable pub delete : K → Dict K V → Dict K V
  delete k [] = []
  delete k ((key, val) ∷ rest) = if key == k then delete k rest else (key, val) ∷ delete k rest

  -- `m[k] = v`.
  unfoldable pub insert : K → V → Dict K V → Dict K V
  insert k v [] = (k, v) ∷ []
  insert k v ((key, val) ∷ rest) = if key == k then (k, v) ∷ rest else (key, val) ∷ insert k v rest

  -- `v, ok := m[k]`.
  unfoldable pub lookup : K → Dict K V → Option V
  lookup k [] = none
  lookup k ((key, val) ∷ rest) = if key == k then some val else lookup k rest

  pub lookup-delete :
      (k j : K) (m : Dict K V) → lookup j (delete k m) ≡ (if k == j then none else lookup j m)
  unfolding lookup delete
  lookup-delete k j [] = ground arith
  lookup-delete k j ((key, val) ∷ rest) =
      ground (arith, e.same_iff key j, e.same_iff key k, e.same_iff k j, lookup-delete k j rest)

  pub lookup-insert :
      (k j : K) (v : V) (m : Dict K V)
      → lookup j (insert k v m) ≡ (if k == j then some v else lookup j m)
  unfolding lookup insert
  lookup-insert k j v [] = refl
  lookup-insert k j v ((key, val) ∷ rest) =
      ground (arith, e.same_iff key j, e.same_iff key k, e.same_iff k j, lookup-insert k j v rest)

module _ {K : Type 0} ⦃e : Key K⦄ {V : Type 0} where
  -- No key has two entries, as in a Go map.
  abbrev pub IsUnique : Dict K V → Type 0
  IsUnique [] = Unit
  IsUnique ((k, v) ∷ m) = (lookup k m ≡ none) × IsUnique m

  pub insert-IsUnique : (k : K) (v : V) (m : Dict K V) → IsUnique m → IsUnique (insert k v m)
  unfolding lookup insert
  insert-IsUnique k v [] h = (refl, tt)
  insert-IsUnique k v ((j, w) ∷ m) h =
      ground
        (arith, e.same_iff j k, e.same_iff k j, insert-IsUnique k v m h.1, lookup-insert k j v m)

  lookup-keep-none :
      (f : K × V → Bool) (k : K) (m : Dict K V) → lookup k m ≡ none → lookup k (keep f m) ≡ none
  unfolding lookup
  lookup-keep-none f k [] h = refl
  lookup-keep-none f k ((j, w) ∷ m) h = ground (arith, lookup-keep-none f k m)

  pub keep-IsUnique : (f : K × V → Bool) (m : Dict K V) → IsUnique m → IsUnique (keep f m)
  keep-IsUnique f [] h = tt
  keep-IsUnique f ((j, w) ∷ m) h = ground (arith, keep-IsUnique f m h.1, lookup-keep-none f j m h.0)

  -- Keeping the entries whose value passes a test.
  pub lookup-keep :
      (f : V → Bool) (k : K) (m : Dict K V)
      → IsUnique m
      → lookup k (keep (λ x. f x.1) m)
        ≡ elim (lookup k m) [ none ↦ none | some v ↦ if f v then some v else none ]
  unfolding lookup
  lookup-keep f k [] h = refl
  lookup-keep f k ((j, w) ∷ m) h =
      ground (arith, e.same_iff j k, lookup-keep f k m h.1, lookup-keep-none (λ x. f x.1) j m h.0)

module _ {K : Type 0} ⦃e : Key K⦄ {V : Type 0} (P : K × V → Type 0) where
  pub insert-All : (k : K) (v : V) (m : Dict K V) → P (k, v) → All P m → All P (insert k v m)
  unfolding insert
  insert-All k v [] p h = (p, tt)
  insert-All k v ((j, w) ∷ m) p h = elim (Bool-cases (j == k)) [
    | inl c ↦
        subst (λ (b : Bool). All P (if b then (k, v) ∷ m else (j, w) ∷ insert k v m)) (sym c)
          (p, h.1)
    | inr c ↦
        subst (λ (b : Bool). All P (if b then (k, v) ∷ m else (j, w) ∷ insert k v m)) (sym c)
          (h.0, insert-All k v m p h.1)
  ]

  pub All-lookup : (k : K) (v : V) (m : Dict K V) → All P m → lookup k m ≡ some v → P (k, v)
  unfolding lookup
  All-lookup k v [] h c = cc
  All-lookup k v ((j, w) ∷ m) h c = elim (Bool-cases (j == k)) [
    | inl t ↦
        subst (λ (x : V). P (k, x)) (ground arith)
          (subst (λ (x : K). P (x, w)) ((e.same_iff j k).0 t) h.0)
    | inr f ↦ All-lookup k v m h.1 (ground arith)
  ]
