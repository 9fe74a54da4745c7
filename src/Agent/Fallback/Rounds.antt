-- ===== src/Agent/Fallback/Rounds.antt =====
-- The consistency of every peer's entries over rounds of `checkHandshakes` and retries.
use go_wireguard_mesh.Common.{Bool, List, some, ℕ}
use go_wireguard_mesh.Agent.Path.{Endpoint}
use go_wireguard_mesh.Agent.Probe.{check_direct_probe, maybe_retry_direct}
use go_wireguard_mesh.Agent.Fallback.{DevicePeer, Reporter, check_handshakes, set_path}
use go_wireguard_mesh.Agent.Fallback.Consistency.{IsConsistent}

-- Every peer's entries are consistent.
abbrev pub AllConsistent : Reporter → Type 0
AllConsistent r = (k : ℕ) → IsConsistent (r.paths k)

-- The operations of the reporter on its paths, on one peer's or on all.
pub data Step : Reporter → Reporter → Type 0 where
  handshakes : (now : ℕ) (ds : List DevicePeer) (r : Reporter) → Step r (check_handshakes now ds r)
  probes :
      (now : ℕ) (d : DevicePeer) (r : Reporter)
      → Step r (record r {
        paths =
            set_path d.key (check_direct_probe d.net.accepts d.peer now (r.paths d.key)).0 r.paths;
      })
  retries :
      (off : Bool) (now : ℕ) (candidates : List Endpoint) (epoch : ℕ) (d : DevicePeer)
      (r : Reporter)
      → Step r (record r {
        paths =
            set_path d.key
              (maybe_retry_direct d.net.accepts off now candidates epoch (r.paths d.key)).0
              r.paths;
      })
  hears :
      (now key : ℕ) (r : Reporter)
      → Step r (record r {
        paths = set_path key (record (r.paths key) { last_inbound = some now }) r.paths;
      })

pub data Reach (s : Reporter) : Reporter → Type 0 where
  here : Reach s s
  next : {t u : Reporter} → Reach s t → Step t u → Reach s u
