-- ===== src/Store/Telemetry/Ledger.antt =====
-- The byte counts of the links over any reports.
use go_wireguard_mesh.Common.{
  Bool, List, String, [], if◌then◌else◌, nat_eq, ℕ, ◌&&◌, ◌+◌, ◌∷◌, Bool-cases, arith, inl, inr,
  ◌≡◌,
}
use go_wireguard_mesh.Store.{Peer, Result-cases, ok}
use go_wireguard_mesh.Store.Telemetry.{Report, Tables, has_peer}
use go_wireguard_mesh.Store.Telemetry.Apply.{
  apply_report, peer_ids_by_public_key, report_body, update_peer,
}
use go_wireguard_mesh.Store.Telemetry.Totals.{rx_for, tx_for, apply_counters_totals, rx_at, tx_at}
use go_wireguard_mesh.Store.Telemetry.Known.{report_body_ok, update_peer-has_peer}
use go_wireguard_mesh.Store.Telemetry.Reports.{counters_unknown, report-Stages}

-- A report as it arrives: when, from whom, from which address.
pub record Sent : Type 0 where
  pub now : ℕ
  pub now_text : String
  pub reporter : ℕ
  pub observed : String
  pub report : Report

-- Reports one after another, those that fail included.
abbrev pub run : List Sent → Tables → Tables
run [] t = t
run (s ∷ ss) t = run ss (apply_report s.now s.now_text s.reporter s.observed s.report t).0

abbrev pub counts : ℕ → ℕ → List Peer → Bool
counts i a ps = nat_eq i a && has_peer i ps

-- What the reports of the peer `a` say was received from the peer `b`.
abbrev pub rx_sent : List Peer → ℕ → ℕ → List Sent → ℕ
rx_sent ps a b [] = 0
rx_sent ps a b (s ∷ ss) =
    (if counts s.reporter a ps
      then rx_for (peer_ids_by_public_key [] ps) b s.report.counters
      else 0)
    + rx_sent ps a b ss

-- What the reports of the peer `a` say was sent to the peer `b`.
abbrev pub tx_sent : List Peer → ℕ → ℕ → List Sent → ℕ
tx_sent ps a b [] = 0
tx_sent ps a b (s ∷ ss) =
    (if counts s.reporter a ps
      then tx_for (peer_ids_by_public_key [] ps) b s.report.counters
      else 0)
    + tx_sent ps a b ss

-- The peers of `qs` have the ids and the keys of those of `ps`.
abbrev SamePeers : List Peer → List Peer → Type 0
SamePeers ps qs =
    ((i : ℕ) → has_peer i qs ≡ has_peer i ps)
    × (peer_ids_by_public_key [] qs ≡ peer_ids_by_public_key [] ps)

module _ (now i : ℕ) (now_text observed : String) (r : Report) (t : Tables) where
  abbrev gain_rx : ℕ → ℕ → ℕ
  gain_rx a b =
      if counts i a t.db.peers
      then rx_for (peer_ids_by_public_key [] t.db.peers) b r.counters
      else 0

  abbrev gain_tx : ℕ → ℕ → ℕ
  gain_tx a b =
      if counts i a t.db.peers
      then tx_for (peer_ids_by_public_key [] t.db.peers) b r.counters
      else 0

  stage_totals :
      (a b : ℕ) (w : Tables)
      → report_body now now_text i observed r t ≡ ok w
      → (rx_at (a, b) w.links ≡ rx_at (a, b) t.links + gain_rx a b)
        × (tx_at (a, b) w.links ≡ tx_at (a, b) t.links + gain_tx a b)
  unfolding update_peer
  stage_totals a b w e =
      let s = report-Stages now i now_text observed r t w e in
      elim (Bool-cases (has_peer i t.db.peers)) [
        | inl h ↦ ground (
          arith,
          s.ids_eq,
          s.links_eq,
          apply_counters_totals now i s.ids r.counters (update_peer now i observed r t) s.counted a
              b s.counted_eq,
        )
        | inr h ↦ ground (
          arith,
          s.links_eq,
          update_peer-has_peer now i i observed r t,
          counters_unknown now i s.ids r.counters (update_peer now i observed r t) s.counted,
          s.counted_eq,
        )
      ]

  pub apply_report_totals :
      (a b : ℕ)
      → (rx_at (a, b) (apply_report now now_text i observed r t).0.links
          ≡ rx_at (a, b) t.links + gain_rx a b)
        × (tx_at (a, b) (apply_report now now_text i observed r t).0.links
            ≡ tx_at (a, b) t.links + gain_tx a b)
  unfolding apply_report
  apply_report_totals a b = elim (Result-cases (report_body now now_text i observed r t)) [
    | inl (w, e) ↦ ground (arith, stage_totals a b w e)
    | inr (x, e) ↦ elim (Bool-cases (has_peer i t.db.peers)) [
      | inl h ↦ ground (arith, (report_body_ok now i now_text observed r t h).1)
      | inr h ↦ ground arith
    ]
  ]
