-- ===== src/Control/Candidates/Offers.antt =====
-- What `endpointCandidates` and `pairCandidates` give an agent.
use go_wireguard_mesh.Common.{
  All, Bool, List, Option, String, [], bytes_key, if◌then◌else◌, nat_key, none, not, some, text_key,
  true, ◌==◌, ◌||◌, ◌∷◌, ◌≡◌, All-append, arith, if_intro, ◌++◌,
}
use go_wireguard_mesh.Control.Candidates.{
  Candidate, Net, PeerRow, Source, add_all, endpoint_candidates, offers, sort_candidates, cand,
  same_nat,
}
use go_wireguard_mesh.Control.Candidates.Live.{with_live, pair_candidates}
use go_wireguard_mesh.Control.Candidates.Ranking.{
  AllNamedOnce, IsOffered, add_all-All, add_all-AllNamedOnce, named, sort_candidates-IsOffered,
  append-AllNamedOnce,
}

module _ (net : Net) where
  candidates_added :
      (cs : List Candidate)
      → AllNamedOnce (add_all cs []) × All (λ c. not (c.endpoint == "") ≡ true) (add_all cs [])
  candidates_added cs = (
    add_all-AllNamedOnce cs [] tt,
    add_all-All (λ c. not (c.endpoint == "") ≡ true) cs [] (itself cs) tt,
  )
    where
      itself :
          (cs : List Candidate)
          → All (λ c. not (c.endpoint == "") ≡ true → not (c.endpoint == "") ≡ true) cs
      itself [] = tt
      itself (c ∷ cs) = (λ h. h, itself cs)

  endpoint_candidates-IsOffered : (self p : PeerRow) → IsOffered (endpoint_candidates net self p)
  unfolding endpoint_candidates
  endpoint_candidates-IsOffered self p =
      let a = candidates_added (offers net self p) in
      sort_candidates-IsOffered (add_all (offers net self p) []) a.0 a.1

  -- The observed source has a text.
  abbrev pub HasText : Option Source → Type 0
  HasText none = Unit
  HasText (some s) = not (s.text == "") ≡ true

  module _ (after : String → String → Bool) where
    live-IsOffered :
        (self p : PeerRow) (s : Option Source) (cs : List Candidate)
        → HasText s
        → IsOffered cs
        → IsOffered (with_live net after self p s cs)
    live-IsOffered self p none cs t h = h
    live-IsOffered self p (some s) cs t h =
        let c = cand s.text "relay" (if same_nat net self p then 83 else 95) in
        if_intro IsOffered (s.loopback || named s.text cs) cs (sort_candidates (cs ++ c ∷ []))
          (λ e. h)
          (λ e.
            sort_candidates-IsOffered (cs ++ c ∷ []) (append-AllNamedOnce cs c h.1 (ground arith)) (
              All-append (λ (x : Candidate). not (x.endpoint == "") ≡ true) cs (c ∷ []) h.3
                (t, tt)))

    -- The leg that the peer's packets come in on.
    abbrev pub leg : Option (Option Source × Option Source) → PeerRow → PeerRow → Option Source
    leg none self p = none
    leg (some o) self p = if after p.public_key self.public_key then o.1 else o.0

    -- Whatever the peers report and whatever the relay observes, as long as an observed source has
    -- a text: an agent is given at most six candidates for a peer, none without an endpoint, none
    -- twice, and those of a higher priority first.
    pub pair_candidates-IsOffered :
        (o : Option (Option Source × Option Source)) (self p : PeerRow)
        → HasText (leg o self p)
        → IsOffered (pair_candidates net after o self p)
    unfolding pair_candidates
    pair_candidates-IsOffered none self p t = endpoint_candidates-IsOffered self p
    pair_candidates-IsOffered (some o) self p t =
        live-IsOffered self p (if after p.public_key self.public_key then o.1 else o.0)
          (endpoint_candidates net self p) t (endpoint_candidates-IsOffered self p)
