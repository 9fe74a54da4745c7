-- ===== src/Store/Dns/Domain.antt =====
-- A valid domain is normal already.
use go_wireguard_mesh.Common.{
  Bool, Bool-cases, Bytes, List, [], any, arith, false, if_intro, inl, inr, map, nat_eq, not, refl,
  true, ℕ, ◌++◌, ◌||◌, ◌∷◌, ◌≡◌,
}
use go_wireguard_mesh.Store.Dns.{
  Characters, dot, is_label_char, label_ok, labels_from, normalize_domain, trim_dot, trim_left,
  trim_right, validate_domain,
}

-- What Go knows of the characters of domain names: a lower-case letter, a digit, a hyphen or a dot
-- is its own lower case and is no space.
abbrev pub KnowsNames : Characters → Type 0
KnowsNames ch =
    (c : ℕ) → is_label_char c || nat_eq c dot ≡ true → (ch.lower c ≡ c) × (ch.is_space c ≡ false)

-- Every character is one of a domain name.
abbrev pub has_names : Bytes → Bool
has_names s = not (any (λ c. not (is_label_char c || nat_eq c dot)) s)

abbrev all_ok : List Bytes → Bool
all_ok ls = not (any (λ l. not (label_ok l)) ls)

chars_append :
    (l : Bytes) (c : ℕ)
    → any (λ x. not (is_label_char x)) (l ++ c ∷ [])
      ≡ any (λ x. not (is_label_char x)) l || not (is_label_char c)
chars_append [] c = ground arith
chars_append (x ∷ xs) c = ground (arith, chars_append xs c)

-- In a label that is behind `l`, a character that is refused stays so.
bad_label :
    (l s : Bytes) → any (λ x. not (is_label_char x)) l ≡ true → all_ok (labels_from l s) ≡ false
bad_label l [] h = ground arith
bad_label l (c ∷ cs) h =
    if_intro (λ (ls : List Bytes). all_ok ls ≡ false) (nat_eq c dot) (l ∷ labels_from [] cs)
      (labels_from (l ++ c ∷ []) cs) (λ e. ground arith)
      (λ e. bad_label (l ++ c ∷ []) cs (ground (arith, chars_append l c)))

valid_names : (l s : Bytes) → all_ok (labels_from l s) ≡ true → has_names s ≡ true
valid_names l [] h = refl
valid_names l (c ∷ cs) h = elim (Bool-cases (nat_eq c dot)) [
  | inl e ↦ ground (arith, valid_names [] cs)
  | inr e ↦ elim (Bool-cases (is_label_char c)) [
    | inl k ↦ ground (arith, valid_names (l ++ c ∷ []) cs)
    | inr k ↦ ground (arith, bad_label (l ++ c ∷ []) cs, chars_append l c)
  ]
]

-- A valid text does not end with a dot.
valid_trim : (l s : Bytes) → all_ok (labels_from l s) ≡ true → trim_dot s ≡ s
valid_trim l [] h = refl
valid_trim l (c ∷ []) h = elim (Bool-cases (nat_eq c dot)) [
  | inl e ↦ absurd (ground arith)
  | inr e ↦ ground arith
]
valid_trim l (c ∷ d ∷ ds) h = elim (Bool-cases (nat_eq c dot)) [
  | inl e ↦ ground (arith, valid_trim [] (d ∷ ds))
  | inr e ↦ ground (arith, valid_trim (l ++ c ∷ []) (d ∷ ds))
]

module _ (ch : Characters) (knows : KnowsNames ch) where
  lower_names : (s : Bytes) → has_names s ≡ true → map ch.lower s ≡ s
  lower_names [] h = refl
  lower_names (c ∷ cs) h = ground (arith, knows c, lower_names cs)

  left_names : (s : Bytes) → has_names s ≡ true → trim_left ch s ≡ s
  left_names [] h = refl
  left_names (c ∷ cs) h = ground (arith, knows c)

  right_names : (s : Bytes) → has_names s ≡ true → trim_right ch s ≡ s
  right_names [] h = refl
  right_names (c ∷ cs) h = ground (arith, knows c, right_names cs)

  -- A valid domain is its own normal form.
  pub normalize_valid : (d : Bytes) → validate_domain d ≡ true → normalize_domain ch d ≡ d
  unfolding normalize_domain validate_domain
  normalize_valid d h =
      let v : all_ok (labels_from [] d) ≡ true = ground arith in
      let n = valid_names [] d v in
      ground (arith, lower_names d n, left_names d n, right_names d n, valid_trim [] d v)
