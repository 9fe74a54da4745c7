-- ===== src/Control/Candidates/Hosts.antt =====
-- Which private addresses `endpointCandidates` offers, and what stands first.
use go_wireguard_mesh.Common.{All, List, bytes_key, nat_key, not, text_key, true, ◌==◌, ◌||◌, ◌≡◌}
use go_wireguard_mesh.Control.Candidates.{Candidate, Net, PeerRow, agent_candidates, same_v4_subnet}

module _ (net : Net) where
  -- A private address is offered only on a wire that the sides may share.
  abbrev pub IsNear : PeerRow → Candidate → Type 0
  IsNear self c =
      not (c.type == "host") || same_v4_subnet net (agent_candidates net self) c.endpoint ≡ true

  -- What `add` is called with, where it adds.
  abbrev AllNear : PeerRow → List Candidate → Type 0
  AllNear self cs = All (λ c. not (c.endpoint == "") ≡ true → IsNear self c) cs
