-- ===== src/Control/Candidates/Live.antt =====
-- cmd/server/main.go: `pairCandidates`, which adds the mapping that the relay observes. `after a b`
-- is Go's `a > b` on strings.
use go_wireguard_mesh.Common.{
  Bool, List, Option, String, [], any, bytes_key, if◌then◌else◌, nat_key, none, some, text_key, ℕ,
  ◌++◌, ◌==◌, ◌||◌, ◌∷◌,
}
use go_wireguard_mesh.Control.Candidates.{
  Candidate, Net, PeerRow, Source, cand, endpoint_candidates, same_nat, sort_candidates,
}

module _ (net : Net) (after : String → String → Bool) where
  abbrev live_priority : PeerRow → PeerRow → ℕ
  live_priority self p = if same_nat net self p then 83 else 95

  abbrev pub with_live : PeerRow → PeerRow → Option Source → List Candidate → List Candidate
  with_live self p none out = out
  with_live self p (some src) out =
      if src.loopback || any (λ c. c.endpoint == src.text) out
      then out
      else sort_candidates (out ++ cand src.text "relay" (live_priority self p) ∷ [])

  -- `pairCandidates`; `observed` is the answer of the relay for the pair, and `none` where there is
  -- no relay or no such pair.
  unfoldable pub pair_candidates :
      Option (Option Source × Option Source) → PeerRow → PeerRow → List Candidate
  unfolding endpoint_candidates sort_candidates
  pair_candidates none self p = endpoint_candidates net self p
  pair_candidates (some o) self p =
      with_live self p (if after p.public_key self.public_key then o.1 else o.0)
        (endpoint_candidates net self p)
