-- ===== src/Store/Telemetry/Repeat.antt =====
-- A report repeated.
use mathlib.Core.Path.{subst}
use go_wireguard_mesh.Common.{
  Dict, String, [], ap, sym, ℕ, ◌∙◌, ◌≡◌, IsUnique, List, arith, bytes_key, lookup, nat_key,
  text_key,
}
use go_wireguard_mesh.Store.{Db, ok, Result, err}
use go_wireguard_mesh.Store.Telemetry.{PathRow, Report, Tables, PathState, pair_key}
use go_wireguard_mesh.Store.Telemetry.Apply.{
  current_path_states, peer_ids_by_public_key, report_body, apply_report, settle_report,
}
use go_wireguard_mesh.Store.Telemetry.Reports.{report-Stages}
use go_wireguard_mesh.Store.Telemetry.Events.{
  HasStates, IsOnce, state_at, written, HasStates-ext, current_path_states_lem, paths-IsUnique,
  quiet,
}
use go_wireguard_mesh.Store.Telemetry.Known.{update_peer-ids}

module _ (now i : ℕ) (now_text observed : String) (r : Report) (t w : Tables)
    (e : report_body now now_text i observed r t ≡ ok w) where
  report_ids : peer_ids_by_public_key [] w.db.peers ≡ peer_ids_by_public_key [] t.db.peers
  report_ids =
      ap (λ (d : Db). peer_ids_by_public_key [] d.peers)
        (report-Stages now i now_text observed r t w e).db_eq
      ∙ update_peer-ids now i observed r t

  -- The paths that a report stores are those that it names.
  report_states :
      IsOnce (peer_ids_by_public_key [] t.db.peers) r.path_states
      → HasStates
          (peer_ids_by_public_key [] t.db.peers)
          (λ j. state_at (i, j) w.paths)
          r.path_states
  report_states o =
      let s = report-Stages now i now_text observed r t w e in
      subst
        (λ (m : Dict (ℕ × ℕ) PathRow).
          HasStates (peer_ids_by_public_key [] t.db.peers) (λ j. state_at (i, j) m) r.path_states)
        (sym s.paths_eq)
        (subst
          (λ (m : Dict String ℕ). HasStates m (λ j. state_at (i, j) s.pathed.paths) r.path_states)
          s.ids_eq
          (written now i s.ids (current_path_states i [] s.counted.paths) r.path_states s.counted
            s.pathed (subst (λ (m : Dict String ℕ). IsOnce m r.path_states) (sym s.ids_eq) o)
            s.pathed_eq))

  report-IsUnique : IsUnique t.paths → IsUnique w.paths
  report-IsUnique u =
      let s = report-Stages now i now_text observed r t w e in
      subst (λ (m : Dict (ℕ × ℕ) PathRow). IsUnique m) (sym s.paths_eq)
        (paths-IsUnique now i s.ids (current_path_states i [] s.counted.paths) r.path_states
          s.counted s.pathed
          (subst (λ (m : Dict (ℕ × ℕ) PathRow). IsUnique m) (sym s.counted_paths) u) s.pathed_eq)

  -- Stored states that a report gives again log no event.
  report_quiet :
      IsUnique t.paths
      → HasStates
          (peer_ids_by_public_key [] t.db.peers)
          (λ j. state_at (i, j) t.paths)
          r.path_states
      → w.events ≡ t.events
  report_quiet u h =
      let s = report-Stages now i now_text observed r t w e in
      s.events_eq
      ∙ quiet now i s.ids (current_path_states i [] s.counted.paths) r.path_states s.counted
          s.pathed
          (subst
            (λ (m : Dict (ℕ × ℕ) PathRow).
              HasStates s.ids (λ j. lookup j (current_path_states i [] m)) r.path_states)
            (sym s.counted_paths)
            (subst
              (λ (m : Dict String ℕ).
                HasStates m (λ j. lookup j (current_path_states i [] t.paths)) r.path_states)
              (sym s.ids_eq)
              (HasStates-ext (peer_ids_by_public_key [] t.db.peers) (λ j. state_at (i, j) t.paths)
                (λ j. lookup j (current_path_states i [] t.paths)) r.path_states
                (λ j. sym (current_path_states_lem i j t.paths u)) h)))
          s.pathed_eq
      ∙ s.counted_events

settled_ok : (t w : Tables) (o : Result Tables) → settle_report t o ≡ (w, ok tt) → o ≡ ok w
settled_ok t w (ok u) h = ground arith
settled_ok t w (err e) h = ground arith

-- Two reports of a peer with the same path states, of which no two are of the same remote peer,
-- where both succeed and no link has two rows: the second one logs no connection event, whatever
-- else it brings.
pub apply_report_again :
    (now later i : ℕ) (now_text later_text observed other : String) (r q : Report) (t w x : Tables)
    → q.path_states ≡ r.path_states
    → IsUnique t.paths
    → IsOnce (peer_ids_by_public_key [] t.db.peers) r.path_states
    → apply_report now now_text i observed r t ≡ (w, ok tt)
    → apply_report later later_text i other q w ≡ (x, ok tt)
    → x.events ≡ w.events
unfolding apply_report
apply_report_again now later i now_text later_text observed other r q t w x p u o a b =
    let e = settled_ok t w (report_body now now_text i observed r t) a in
    let f = settled_ok w x (report_body later later_text i other q w) b in
    report_quiet later i later_text other q w x f
      (report-IsUnique now i now_text observed r t w e u)
      (subst
        (λ (ps : List PathState).
          HasStates (peer_ids_by_public_key [] w.db.peers) (λ j. state_at (i, j) w.paths) ps)
        (sym p)
        (subst (λ (m : Dict String ℕ). HasStates m (λ j. state_at (i, j) w.paths) r.path_states)
          (sym (report_ids now i now_text observed r t w e))
          (report_states now i now_text observed r t w e o)))
