-- ===== src/Agent/Sync/Networks.antt =====
-- The comparison of allowed networks.
use mathlib.Core.Path.{subst}
use go_wireguard_mesh.Common.{
  ==_refl, All, Bool, Bool-cases, Bytes, Key, List, [], arith, at_most, bytes_eq_iff, bytes_eq_refl,
  bytes_key, count, count-sort, if◌then◌else◌, inl, inr, length, nat_key, place, place_comm, refl,
  sort, suc, sym, text_key, true, ◌++◌, ◌==◌, ◌↔◌, ◌∷◌, ◌≡◌, ◌≢◌, ◌≤◌,
}
use go_wireguard_mesh.Agent.Sync.{join_texts, texts, same_allowed_ips}

-- The text holds no comma.
abbrev pub IsPlain : Bytes → Type 0
IsPlain [] = Unit
IsPlain (b ∷ bs) = (b ≢ 44) × IsPlain bs

join_texts_cons :
    (s t : Bytes) (ts : List Bytes) → join_texts (s ∷ t ∷ ts) ≡ s ++ 44 ∷ join_texts (t ∷ ts)
join_texts_cons s t ts = refl

-- Up to a comma that neither text holds, equal texts are equal part by part.
split_injective :
    (s t x y : Bytes) → IsPlain s → IsPlain t → s ++ 44 ∷ x ≡ t ++ 44 ∷ y → (s ≡ t) × (x ≡ y)
split_injective [] [] x y h k e = (refl, cc)
split_injective [] (b ∷ t) x y h k e = ground arith
split_injective (a ∷ s) [] x y h k e = ground arith
split_injective (a ∷ s) (b ∷ t) x y h k e = ground (arith, split_injective s t x y h.1 k.1)

join_texts-injective :
    (ss ts : List Bytes)
    → All IsPlain ss
    → All IsPlain ts
    → length ss ≡ length ts
    → join_texts ss ≡ join_texts ts
    → ss ≡ ts
join_texts-injective [] [] h k l e = refl
join_texts-injective [] (t ∷ ts) h k l e = ground arith
join_texts-injective (s ∷ ss) [] h k l e = ground arith
join_texts-injective (s ∷ []) (t ∷ []) h k l e = cc
join_texts-injective (s ∷ []) (t ∷ u ∷ ts) h k l e = ground arith
join_texts-injective (s ∷ r ∷ ss) (t ∷ []) h k l e = ground arith
join_texts-injective (s ∷ r ∷ ss) (t ∷ u ∷ ts) h k l e = ground (
  arith,
  split_injective s t (join_texts (r ∷ ss)) (join_texts (u ∷ ts)) h.0 k.0 e,
  join_texts-injective (r ∷ ss) (u ∷ ts) h.1 k.1,
)

place-IsPlain :
    (s : Bytes) (ss : List Bytes) → IsPlain s → All IsPlain ss → All IsPlain (place s ss)
place-IsPlain s [] h k = (h, tt)
place-IsPlain s (t ∷ ts) h k = elim (Bool-cases (at_most s t)) [
  | inl e ↦
      subst (λ (b : Bool). All IsPlain (if b then s ∷ t ∷ ts else t ∷ place s ts)) (sym e) (h, k)
  | inr e ↦
      subst (λ (b : Bool). All IsPlain (if b then s ∷ t ∷ ts else t ∷ place s ts)) (sym e)
        (k.0, place-IsPlain s ts h k.1)
]

length-place : (s : Bytes) (ss : List Bytes) → length (place s ss) ≡ suc (length ss)
length-place s [] = refl
length-place s (t ∷ ts) = ground (arith, length-place s ts)

length-sort : (ss : List Bytes) → length (sort ss) ≡ length ss
length-sort [] = refl
length-sort (s ∷ ss) = ground (arith, length-place s (sort ss), length-sort ss)

sort-IsPlain : (ss : List Bytes) → All IsPlain ss → All IsPlain (sort ss)
sort-IsPlain [] h = tt
sort-IsPlain (s ∷ ss) h = place-IsPlain s (sort ss) h.0 (sort-IsPlain ss h.1)

module _ {N : Type 0} ⦃e : Key N⦄ where
  -- The same networks, each as often, in whatever order.
  abbrev pub SameItems : List N → List N → Type 0
  SameItems ms ns = (n : N) → count n ms ≡ count n ns

  -- The list without the first occurrence.
  erase : N → List N → List N
  erase n [] = []
  erase n (m ∷ ms) = if m == n then ms else m ∷ erase n ms

  count-erase : (n m : N) (ns : List N) → 1 ≤ count n ns → count m (n ∷ erase n ns) ≡ count m ns
  unfolding erase
  count-erase n m [] h = omega arith
  count-erase n m (x ∷ xs) h =
      ground (arith, e.same_iff x n, e.same_iff x m, e.same_iff n m, count-erase n m xs)

  length-erase : (n : N) (ns : List N) → 1 ≤ count n ns → suc (length (erase n ns)) ≡ length ns
  unfolding erase
  length-erase n [] h = omega arith
  length-erase n (x ∷ xs) h = ground (arith, length-erase n xs)

  module _ (text : N → Bytes) (plain : (n : N) → IsPlain (text n)) where
    texts-IsPlain : (ns : List N) → All IsPlain (texts text ns)
    texts-IsPlain [] = tt
    texts-IsPlain (n ∷ ns) = (plain n, texts-IsPlain ns)

    length-texts : (ns : List N) → length (texts text ns) ≡ length ns
    length-texts [] = refl
    length-texts (n ∷ ns) = ground (arith, length-texts ns)

    sort-erase :
        (n : N) (ns : List N)
        → 1 ≤ count n ns
        → sort (texts text (n ∷ erase n ns)) ≡ sort (texts text ns)
    unfolding erase
    sort-erase n [] h = ground arith
    sort-erase n (x ∷ xs) h = ground (
      arith,
      e.same_iff x n,
      place_comm (text n) (text x) (sort (texts text (erase n xs))),
      sort-erase n xs,
    )

    erase-SameItems : (m : N) (ms ns : List N) → SameItems (m ∷ ms) ns → SameItems ms (erase m ns)
    erase-SameItems m ms ns h n = ground (arith, h m, h n, ==_refl m, count-erase m n ns)

    SameItems-sort :
        (ms ns : List N)
        → SameItems ms ns
        → (length ms ≡ length ns) × (sort (texts text ms) ≡ sort (texts text ns))
    SameItems-sort [] [] h = (refl, refl)
    SameItems-sort [] (n ∷ ns) h = ground (arith, h n, ==_refl n)
    SameItems-sort (m ∷ ms) ns h = ground (
      arith,
      h m,
      ==_refl m,
      SameItems-sort ms (erase m ns) (erase-SameItems m ms ns h),
      length-erase m ns,
      sort-erase m ns,
    )

    module _ (text_injective : (m n : N) → text m ≡ text n → m ≡ n) where
      count-texts : (n : N) (ns : List N) → count (text n) (texts text ns) ≡ count n ns
      count-texts n [] = refl
      count-texts n (x ∷ xs) = ground (
        arith,
        e.same_iff x n,
        text_injective x n,
        bytes_eq_iff (text x) (text n),
        count-texts n xs,
      )

      sort-SameItems :
          (ms ns : List N) → sort (texts text ms) ≡ sort (texts text ns) → SameItems ms ns
      sort-SameItems ms ns h n = ground (
        arith,
        count-texts n ms,
        count-texts n ns,
        count-sort (text n) (texts text ms),
        count-sort (text n) (texts text ns),
      )

      sorted_texts :
          (ms ns : List N)
          → length ms ≡ length ns
          → join_texts (sort (texts text ms)) ≡ join_texts (sort (texts text ns))
          → sort (texts text ms) ≡ sort (texts text ns)
      sorted_texts ms ns l =
          join_texts-injective (sort (texts text ms)) (sort (texts text ns))
            (sort-IsPlain (texts text ms) (texts-IsPlain ms))
            (sort-IsPlain (texts text ns) (texts-IsPlain ns))
            (ground (
              arith,
              length-sort (texts text ms),
              length-sort (texts text ns),
              length-texts ms,
              length-texts ns,
            ))

      -- Where the texts of the networks hold no comma and tell the networks apart,
      -- `sameAllowedIPs` says whether the two lists hold the same networks, each as often, in
      -- whatever order.
      pub same_allowed_ips_iff :
          (ms ns : List N) → (same_allowed_ips text ms ns ≡ true) ↔ SameItems ms ns
      unfolding same_allowed_ips
      same_allowed_ips_iff ms ns = (
        λ h. sort-SameItems ms ns (
            sorted_texts ms ns (ground arith) (
              ground (
                arith,
                bytes_eq_iff (join_texts (sort (texts text ms)))
                    (join_texts (sort (texts text ns))),
              ))),
        λ h.
            ground
              (arith, SameItems-sort ms ns h, bytes_eq_refl (join_texts (sort (texts text ns)))),
      )
