-- ===== src/Store/Dns/Collect.antt =====
-- Collecting again what was collected.
use mathlib.Core.Path.{subst}
use go_wireguard_mesh.Common.{
  All, All-append, Bytes, List, Option, Option-cases, [], any, ap, append_assoc, arith, bytes_eq,
  false, if_intro, inl, inr, refl, some, ◌++◌, ◌||◌, ◌∙◌, ◌∷◌, ◌≡◌, bytes_eq_iff, sym, append_nil,
}
use go_wireguard_mesh.Store.{Result, Result-cases, ok, ok-injective}
use go_wireguard_mesh.Store.Dns.{collect, once}

abbrev pub AllOnce : List Bytes → Type 0
AllOnce [] = Unit
AllOnce (x ∷ xs) = (any (λ y. bytes_eq y x) xs ≡ false) × AllOnce xs

pub bytes_eq_comm : (a b : Bytes) → bytes_eq a b ≡ bytes_eq b a
bytes_eq_comm a b = ground (arith, bytes_eq_iff a b, bytes_eq_iff b a)

held-append :
    (x y : Bytes) (xs : List Bytes)
    → any (λ z. bytes_eq z x) (xs ++ y ∷ []) ≡ any (λ z. bytes_eq z x) xs || bytes_eq y x
held-append x y [] = ground arith
held-append x y (z ∷ zs) = ground (arith, held-append x y zs)

append-AllOnce :
    (x : Bytes) (xs : List Bytes)
    → AllOnce xs
    → any (λ y. bytes_eq y x) xs ≡ false
    → AllOnce (xs ++ x ∷ [])
append-AllOnce x [] h n = (refl, tt)
append-AllOnce x (y ∷ ys) h n = (
  ground (arith, held-append y x ys, bytes_eq_comm x y, h.0),
  append-AllOnce x ys h.1 (ground arith),
)

once-AllOnce : (x : Bytes) (xs : List Bytes) → AllOnce xs → AllOnce (once x xs)
once-AllOnce x xs h =
    if_intro AllOnce (any (λ y. bytes_eq y x) xs) xs (xs ++ x ∷ []) (λ e. h)
      (λ e. append-AllOnce x xs h e)

module _ (f : Bytes → Result (Option Bytes)) where
  -- Texts that are collected as they are.
  abbrev pub AllFixed : List Bytes → Type 0
  AllFixed xs = All (λ x. f x ≡ ok (some x)) xs

  once-AllFixed :
      (x : Bytes) (xs : List Bytes) → f x ≡ ok (some x) → AllFixed xs → AllFixed (once x xs)
  once-AllFixed x xs e h =
      if_intro AllFixed (any (λ y. bytes_eq y x) xs) xs (xs ++ x ∷ []) (λ k. h)
        (λ k. All-append (λ y. f y ≡ ok (some y)) xs (x ∷ []) h (e, tt))

  module _ (stable : (x y : Bytes) → f x ≡ ok (some y) → f y ≡ ok (some y)) where
    -- What is collected is stable and stands there once.
    pub collected :
        (xs out ys : List Bytes)
        → AllFixed out
        → AllOnce out
        → collect f out xs ≡ ok ys
        → AllFixed ys × AllOnce ys
    collected [] out ys h o e =
        let g : out ≡ ys = ok-injective out ys e in (subst AllFixed g h, subst AllOnce g o)
    collected (x ∷ xs) out ys h o e = elim (Result-cases (f x)) [
      | inr (r, k) ↦ absurd (ground arith)
      | inl (r, k) ↦ elim (Option-cases r) [
        | inl n ↦ collected xs out ys h o (ground arith)
        | inr (y, n) ↦
            collected xs (once y out) ys
              (once-AllFixed y out (stable x y (k ∙ ap (λ (z : Option Bytes). ok z) n)) h)
              (once-AllOnce y out o) (ground arith)
      ]
    ]

  -- None of the texts is among the collected ones.
  abbrev AllNew : List Bytes → List Bytes → Type 0
  AllNew out xs = All (λ x. any (λ y. bytes_eq y x) out ≡ false) xs

  new_append :
      (x : Bytes) (out xs : List Bytes)
      → AllNew out xs
      → any (λ y. bytes_eq y x) xs ≡ false
      → AllNew (out ++ x ∷ []) xs
  new_append x out [] h n = tt
  new_append x out (y ∷ ys) h n = (
    ground (arith, held-append y x out, bytes_eq_comm x y, h.0),
    new_append x out ys h.1 (ground arith),
  )

  collect_again :
      (xs out : List Bytes)
      → AllFixed xs
      → AllOnce xs
      → AllNew out xs
      → collect f out xs ≡ ok (out ++ xs)
  collect_again [] out h o n = ap (λ (ys : List Bytes). ok ys) (sym (append_nil out))
  collect_again (x ∷ xs) out h o n = ground (
    arith,
    h.0,
    n.0,
    collect_again xs (out ++ x ∷ []) h.1 o.1 (new_append x out xs n.1 o.0),
    append_assoc out (x ∷ []) xs,
  )

  new_nil : (xs : List Bytes) → AllNew [] xs
  new_nil [] = tt
  new_nil (x ∷ xs) = (refl, new_nil xs)

  pub collect_fixed : (xs : List Bytes) → AllFixed xs → AllOnce xs → collect f [] xs ≡ ok xs
  collect_fixed xs h o = collect_again xs [] h o (new_nil xs)
