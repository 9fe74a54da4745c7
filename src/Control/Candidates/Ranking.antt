-- ===== src/Control/Candidates/Ranking.antt =====
-- The lists of candidates are short, in the order of their priority, and name no endpoint twice.
use mathlib.Core.Path.{subst}
use go_wireguard_mesh.Common.{
  ==_comm, All, All-append, All-imp, Bool, Bool-cases, List, String, [], any, arith, bytes_key,
  false, if◌then◌else◌, inl, inr, leb, length, nat_key, not, refl, suc, sym, text_key, true, zero,
  ℕ, ◌++◌, ◌==◌, ◌||◌, ◌∙◌, ◌∷◌, ◌≡◌, ◌≤◌,
}
use go_wireguard_mesh.Control.Candidates.{
  Candidate, add, add_all, max_endpoint_candidates, rank, ranked, sort_candidates, take,
}

abbrev pub Descends : List Candidate → Type 0
Descends [] = Unit
Descends (c ∷ cs) = All (λ d. d.priority ≤ c.priority) cs × Descends cs

abbrev pub named : String → List Candidate → Bool
named e cs = any (λ d. d.endpoint == e) cs

abbrev pub AllNamedOnce : List Candidate → Type 0
AllNamedOnce [] = Unit
AllNamedOnce (c ∷ cs) = (named c.endpoint cs ≡ false) × AllNamedOnce cs

named-append :
    (e : String) (cs : List Candidate) (c : Candidate)
    → named e (cs ++ c ∷ []) ≡ named e cs || (c.endpoint == e)
named-append e [] c = ground arith
named-append e (d ∷ ds) c = ground (arith, named-append e ds c)

pub append-AllNamedOnce :
    (cs : List Candidate) (c : Candidate)
    → AllNamedOnce cs
    → named c.endpoint cs ≡ false
    → AllNamedOnce (cs ++ c ∷ [])
append-AllNamedOnce [] c h n = (refl, tt)
append-AllNamedOnce (d ∷ ds) c h n = (
  ground (arith, named-append d.endpoint ds c, ==_comm c.endpoint d.endpoint, h.0),
  append-AllNamedOnce ds c h.1 (ground arith),
)

add-AllNamedOnce :
    (c : Candidate) (out : List Candidate) → AllNamedOnce out → AllNamedOnce (add c out)
add-AllNamedOnce c out h = elim (Bool-cases ((c.endpoint == "") || named c.endpoint out)) [
  | inl e ↦ subst (λ (b : Bool). AllNamedOnce (if b then out else out ++ c ∷ [])) (sym e) h
  | inr e ↦
      subst (λ (b : Bool). AllNamedOnce (if b then out else out ++ c ∷ [])) (sym e)
        (append-AllNamedOnce out c h (ground arith))
]

pub add_all-AllNamedOnce :
    (cs out : List Candidate) → AllNamedOnce out → AllNamedOnce (add_all cs out)
add_all-AllNamedOnce [] out h = h
add_all-AllNamedOnce (c ∷ cs) out h = add_all-AllNamedOnce cs (add c out) (add-AllNamedOnce c out h)

pub named-rank :
    (e : String) (c : Candidate) (cs : List Candidate)
    → named e (rank c cs) ≡ (c.endpoint == e) || named e cs
named-rank e c [] = refl
named-rank e c (d ∷ ds) = ground (arith, named-rank e c ds)

rank-AllNamedOnce :
    (c : Candidate) (cs : List Candidate)
    → named c.endpoint cs ≡ false
    → AllNamedOnce cs
    → AllNamedOnce (rank c cs)
rank-AllNamedOnce c [] n h = (refl, tt)
rank-AllNamedOnce c (d ∷ ds) n h = elim (Bool-cases (leb d.priority c.priority)) [
  | inl e ↦
      subst (λ (b : Bool). AllNamedOnce (if b then c ∷ d ∷ ds else d ∷ rank c ds)) (sym e) (n, h)
  | inr e ↦
      subst (λ (b : Bool). AllNamedOnce (if b then c ∷ d ∷ ds else d ∷ rank c ds)) (sym e)
        (
          ground (arith, named-rank d.endpoint c ds, ==_comm c.endpoint d.endpoint, h.0),
          rank-AllNamedOnce c ds (ground arith) h.1,
        )
]

named-ranked : (e : String) (cs : List Candidate) → named e (ranked cs) ≡ named e cs
named-ranked e [] = refl
named-ranked e (c ∷ cs) = ground (arith, named-rank e c (ranked cs), named-ranked e cs)

ranked-AllNamedOnce : (cs : List Candidate) → AllNamedOnce cs → AllNamedOnce (ranked cs)
ranked-AllNamedOnce [] h = tt
ranked-AllNamedOnce (c ∷ cs) h =
    rank-AllNamedOnce c (ranked cs) (named-ranked c.endpoint cs ∙ h.0) (ranked-AllNamedOnce cs h.1)

module _ (P : Candidate → Type 0) where
  rank-All : (c : Candidate) (cs : List Candidate) → P c → All P cs → All P (rank c cs)
  rank-All c [] p h = (p, tt)
  rank-All c (d ∷ ds) p h = elim (Bool-cases (leb d.priority c.priority)) [
    | inl e ↦ subst (λ (b : Bool). All P (if b then c ∷ d ∷ ds else d ∷ rank c ds)) (sym e) (p, h)
    | inr e ↦
        subst (λ (b : Bool). All P (if b then c ∷ d ∷ ds else d ∷ rank c ds)) (sym e)
          (h.0, rank-All c ds p h.1)
  ]

  pub ranked-All : (cs : List Candidate) → All P cs → All P (ranked cs)
  ranked-All [] h = tt
  ranked-All (c ∷ cs) h = rank-All c (ranked cs) h.0 (ranked-All cs h.1)

  take-All : (n : ℕ) (cs : List Candidate) → All P cs → All P (take n cs)
  take-All zero cs h = tt
  take-All (suc n) [] h = tt
  take-All (suc n) (c ∷ cs) h = (h.0, take-All n cs h.1)

  pub sort_candidates-All : (cs : List Candidate) → All P cs → All P (sort_candidates cs)
  unfolding sort_candidates
  sort_candidates-All cs h = take-All max_endpoint_candidates (ranked cs) (ranked-All cs h)

  add-All :
      (c : Candidate) (out : List Candidate)
      → (not (c.endpoint == "") ≡ true → P c)
      → All P out
      → All P (add c out)
  add-All c out p h = elim (Bool-cases ((c.endpoint == "") || named c.endpoint out)) [
    | inl e ↦ subst (λ (b : Bool). All P (if b then out else out ++ c ∷ [])) (sym e) h
    | inr e ↦
        subst (λ (b : Bool). All P (if b then out else out ++ c ∷ [])) (sym e)
          (All-append P out (c ∷ []) h (p (ground arith), tt))
  ]

  pub add_all-All :
      (cs out : List Candidate)
      → All (λ c. not (c.endpoint == "") ≡ true → P c) cs
      → All P out
      → All P (add_all cs out)
  add_all-All [] out p h = h
  add_all-All (c ∷ cs) out p h = add_all-All cs (add c out) p.1 (add-All c out p.0 h)

rank-Descends : (c : Candidate) (cs : List Candidate) → Descends cs → Descends (rank c cs)
rank-Descends c [] h = (tt, tt)
rank-Descends c (d ∷ ds) h = elim (Bool-cases (leb d.priority c.priority)) [
  | inl e ↦
      subst (λ (b : Bool). Descends (if b then c ∷ d ∷ ds else d ∷ rank c ds)) (sym e)
        (
          (
            ground arith,
            All-imp (λ (x : Candidate). x.priority ≤ d.priority)
                (λ (x : Candidate). x.priority ≤ c.priority) ds (λ x l. ground arith) h.0,
          ),
          h,
        )
  | inr e ↦
      subst (λ (b : Bool). Descends (if b then c ∷ d ∷ ds else d ∷ rank c ds)) (sym e)
        (rank-All (λ x. x.priority ≤ d.priority) c ds (ground arith) h.0, rank-Descends c ds h.1)
]

pub ranked-Descends : (cs : List Candidate) → Descends (ranked cs)
ranked-Descends [] = tt
ranked-Descends (c ∷ cs) = rank-Descends c (ranked cs) (ranked-Descends cs)

take-Descends : (n : ℕ) (cs : List Candidate) → Descends cs → Descends (take n cs)
take-Descends zero cs h = tt
take-Descends (suc n) [] h = tt
take-Descends (suc n) (c ∷ cs) h =
    (take-All (λ d. d.priority ≤ c.priority) n cs h.0, take-Descends n cs h.1)

named-take :
    (e : String) (n : ℕ) (cs : List Candidate) → named e cs ≡ false → named e (take n cs) ≡ false
named-take e zero cs h = refl
named-take e (suc n) [] h = refl
named-take e (suc n) (c ∷ cs) h = ground (arith, named-take e n cs)

take-AllNamedOnce : (n : ℕ) (cs : List Candidate) → AllNamedOnce cs → AllNamedOnce (take n cs)
take-AllNamedOnce zero cs h = tt
take-AllNamedOnce (suc n) [] h = tt
take-AllNamedOnce (suc n) (c ∷ cs) h = (named-take c.endpoint n cs h.0, take-AllNamedOnce n cs h.1)

length-take : (n : ℕ) (cs : List Candidate) → length (take n cs) ≤ n
length-take zero cs = omega arith
length-take (suc n) [] = omega arith
length-take (suc n) (c ∷ cs) = omega (arith, length-take n cs)

-- A list that an agent may be given: at most six candidates, none without an endpoint, none twice,
-- those of a higher priority first.
abbrev pub IsOffered : List Candidate → Type 0
IsOffered cs =
    (length cs ≤ 6) × AllNamedOnce cs × Descends cs × All (λ c. not (c.endpoint == "") ≡ true) cs

pub sort_candidates-IsOffered :
    (cs : List Candidate)
    → AllNamedOnce cs
    → All (λ c. not (c.endpoint == "") ≡ true) cs
    → IsOffered (sort_candidates cs)
unfolding sort_candidates
sort_candidates-IsOffered cs h p = (
  length-take 6 (ranked cs),
  take-AllNamedOnce 6 (ranked cs) (ranked-AllNamedOnce cs h),
  take-Descends 6 (ranked cs) (ranked-Descends cs),
  sort_candidates-All (λ c. not (c.endpoint == "") ≡ true) cs p,
)
