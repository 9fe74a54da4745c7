-- ===== src/Control/Candidates/Pinned.antt =====
-- An endpoint that an operator pinned stands first.
use go_wireguard_mesh.Common.{
  ==_iff, All, Bool, Bool-cases, List, String, [], any, arith, bytes_key, false, if_intro, inl, inr,
  leb, ltb, nat_key, not, refl, text_key, true, ℕ, ◌&&◌, ◌++◌, ◌==◌, ◌||◌, ◌∷◌, ◌≡◌, ◌≤◌,
  All-append, Option, none, some, ◌∙◌,
}
use go_wireguard_mesh.Control.Candidates.{
  AgentCandidate, Candidate, add, add_all, cand, of_type, rank, ranked, take, Net, PeerRow,
  agent_candidates, endpoint_candidates, lan_endpoint, local_offers, offers_apart, same_nat,
  same_v4_subnet, sort_candidates, when_some,
}
use go_wireguard_mesh.Control.Candidates.Ranking.{
  Descends, named, add_all-All, ranked-All, ranked-Descends,
}

abbrev is_top : Candidate → Bool
is_top c = leb 140 c.priority

top-append : (cs ds : List Candidate) → any is_top (cs ++ ds) ≡ any is_top cs || any is_top ds
top-append [] ds = refl
top-append (c ∷ cs) ds = ground (arith, top-append cs ds)

top-add :
    (c : Candidate) (out : List Candidate) → any is_top out ≡ true → any is_top (add c out) ≡ true
top-add c out h =
    if_intro (λ (xs : List Candidate). any is_top xs ≡ true)
      ((c.endpoint == "") || named c.endpoint out) out (out ++ c ∷ []) (λ e. h)
      (λ e. ground (arith, top-append out (c ∷ [])))

top-add_all : (cs out : List Candidate) → any is_top out ≡ true → any is_top (add_all cs out) ≡ true
top-add_all [] out h = h
top-add_all (c ∷ cs) out h = top-add_all cs (add c out) (top-add c out h)

add_all-append : (cs ds out : List Candidate) → add_all (cs ++ ds) out ≡ add_all ds (add_all cs out)
add_all-append [] ds out = refl
add_all-append (c ∷ cs) ds out = add_all-append cs ds (add c out)

-- A list of pinned endpoints.
abbrev AllPinned : List Candidate → Type 0
AllPinned out = All (λ c. c.priority ≡ 140) out

named_top :
    (e : String) (out : List Candidate) → AllPinned out → named e out ≡ true → any is_top out ≡ true
named_top e [] p h = h
named_top e (c ∷ cs) p h = ground (arith, p.0)

pinned_added :
    (e : String) (out : List Candidate)
    → AllPinned out
    → (e == "") ≡ false
    → any is_top (add (cand e "pinned" 140) out) ≡ true
pinned_added e out p h =
    if_intro (λ (xs : List Candidate). any is_top xs ≡ true) ((e == "") || named e out) out
      (out ++ cand e "pinned" 140 ∷ []) (λ k. named_top e out p (ground arith))
      (λ k. ground (arith, top-append out (cand e "pinned" 140 ∷ [])))

-- Some pinned endpoint is reported.
abbrev pub has_pinned : List AgentCandidate → Bool
has_pinned cs = any (λ c. (c.type == "pinned") && not (c.endpoint == "")) cs

pinned_top :
    (cs : List AgentCandidate) (out : List Candidate)
    → AllPinned out
    → has_pinned cs ≡ true
    → any is_top (add_all (of_type "pinned" 140 cs) out) ≡ true
pinned_top [] out p h = absurd (ground arith)
pinned_top (c ∷ cs) out p h = elim (Bool-cases (c.type == "pinned")) [
  | inr e ↦ ground (arith, pinned_top cs out p)
  | inl e ↦ elim (Bool-cases (c.endpoint == "")) [
    | inl f ↦ ground (arith, pinned_top cs out p)
    | inr f ↦ ground (
      arith,
      top-add_all (of_type "pinned" 140 cs) (add (cand c.endpoint "pinned" 140) out)
          (pinned_added c.endpoint out p f),
    )
  ]
]

top-rank :
    (c : Candidate) (cs : List Candidate) → any is_top (rank c cs) ≡ is_top c || any is_top cs
top-rank c [] = refl
top-rank c (d ∷ ds) = ground (arith, top-rank c ds)

top-ranked : (cs : List Candidate) → any is_top (ranked cs) ≡ any is_top cs
top-ranked [] = refl
top-ranked (c ∷ cs) = ground (arith, top-rank c (ranked cs), top-ranked cs)

below_top :
    (n : ℕ) (cs : List Candidate) → All (λ d. d.priority ≤ n) cs → any is_top cs ≡ true → 140 ≤ n
below_top n [] h t = absurd (ground arith)
below_top n (c ∷ cs) h t = ground (arith, h.0, below_top n cs h.1)

-- Only a pinned endpoint has the highest priority.
abbrev IsHonest : Candidate → Type 0
IsHonest c = ltb c.priority 140 || (c.type == "pinned") ≡ true

-- The list begins with a pinned endpoint.
abbrev pub PinnedFirst : List Candidate → Type 0
PinnedFirst [] = ⊥
PinnedFirst (c ∷ cs) = c.type ≡ "pinned"

top_first :
    (cs : List Candidate)
    → Descends cs
    → any is_top cs ≡ true
    → All IsHonest cs
    → PinnedFirst (take 6 cs)
top_first [] d t h = absurd (ground arith)
top_first (c ∷ cs) d t h = ground (arith, below_top c.priority cs d.0, h.0, ==_iff c.type "pinned")

module _ (net : Net) where
  abbrev AllHonest : List Candidate → Type 0
  AllHonest cs = All (λ c. not (c.endpoint == "") ≡ true → IsHonest c) cs

  honest_append : (xs ys : List Candidate) → AllHonest xs → AllHonest ys → AllHonest (xs ++ ys)
  honest_append = All-append (λ c. not (c.endpoint == "") ≡ true → IsHonest c)

  of_type-AllHonest :
      (type : String) (n : ℕ) (cs : List AgentCandidate)
      → ltb n 140 || (type == "pinned") ≡ true
      → AllHonest (of_type type n cs)
  of_type-AllHonest type n [] h = tt
  of_type-AllHonest type n (c ∷ cs) h =
      if_intro AllHonest (c.type == type) (cand c.endpoint type n ∷ of_type type n cs)
        (of_type type n cs) (λ e. (λ k. h, of_type-AllHonest type n cs h))
        (λ e. of_type-AllHonest type n cs h)

  local-AllHonest : (mine cs : List AgentCandidate) → AllHonest (local_offers net mine cs)
  local-AllHonest mine [] = tt
  local-AllHonest mine (c ∷ cs) =
      honest_append _ (local_offers net mine cs)
        (if_intro AllHonest (c.type == "host6") _ _ (λ h. (λ k. refl, tt))
          (λ h.
            if_intro AllHonest (c.type == "host") _ _
              (λ h.
                if_intro AllHonest (same_v4_subnet net mine c.endpoint) _ _ (λ h. (λ k. refl, tt))
                  (λ h. tt))
              (λ h. tt)))
        (local-AllHonest mine cs)

  lan-AllHonest : (o : Option String) → AllHonest (when_some o "lan" 80)
  lan-AllHonest none = tt
  lan-AllHonest (some e) = (λ k. refl, tt)

  apart-AllHonest : (self p : PeerRow) → AllHonest (offers_apart net self p)
  apart-AllHonest self p =
      let r = agent_candidates net p in
      let m = local_offers net (agent_candidates net self) r in
      let l = when_some (lan_endpoint net p) "lan" 80 in
      honest_append (of_type "pinned" 140 r) _ (of_type-AllHonest "pinned" 140 r refl) (
        honest_append (of_type "stun6" 130 r) _ (of_type-AllHonest "stun6" 130 r refl) (
          honest_append (of_type "upnp" 120 r) (cand p.public_endpoint "stun" 90 ∷ (m ++ l))
            (of_type-AllHonest "upnp" 120 r refl)
            (
              λ k. refl,
              honest_append m l (local-AllHonest (agent_candidates net self) r)
                  (lan-AllHonest (lan_endpoint net p)),
            )))

  -- The offers behind the pinned ones.
  abbrev tail_offers : PeerRow → PeerRow → List Candidate
  tail_offers self p =
      let r = agent_candidates net p in
      of_type "stun6" 130 r
      ++ (of_type "upnp" 120 r
          ++ (cand p.public_endpoint "stun" 90
              ∷ (local_offers net (agent_candidates net self) r
                  ++ when_some (lan_endpoint net p) "lan" 80)))

  -- Where two peers are not behind the same NAT, and the one reported an endpoint that its operator
  -- pinned among its first eight candidates, a pinned endpoint is the first that the other is given.
  pub endpoint_candidates-PinnedFirst :
      (self p : PeerRow)
      → same_nat net self p ≡ false
      → has_pinned (agent_candidates net p) ≡ true
      → PinnedFirst (endpoint_candidates net self p)
  unfolding endpoint_candidates sort_candidates
  endpoint_candidates-PinnedFirst self p n h =
      let r = agent_candidates net p in
      let a = offers_apart net self p in
      let t : any is_top (add_all a []) ≡ true = ground (
        arith,
        add_all-append (of_type "pinned" 140 r) (tail_offers self p) [],
        top-add_all (tail_offers self p) (add_all (of_type "pinned" 140 r) [])
            (pinned_top r [] tt h),
      ) in
      rw n (
        top_first (ranked (add_all a [])) (ranked-Descends (add_all a []))
          (top-ranked (add_all a []) ∙ t)
          (ranked-All IsHonest (add_all a [])
            (add_all-All IsHonest a [] (apart-AllHonest self p) tt)))
