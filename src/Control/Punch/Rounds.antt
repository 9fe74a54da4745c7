-- ===== src/Control/Punch/Rounds.antt =====
-- What any sequence of reports does to the punch epochs.
use go_wireguard_mesh.Common.{
  List, String, [], arith, false, if◌then◌else◌, nat_key, text_key, ℕ, ◌&&◌, ◌++◌, ◌+◌, ◌==◌, ◌∷◌,
  ◌≡◌,
}
use go_wireguard_mesh.Control.Punch.{
  Epochs, PathReport, coordinate_path, coordinate_punches, epoch_of, is_direct,
}
use go_wireguard_mesh.Control.Punch.Budget.{bump_entry, reset_entry}

-- Reports one after another, each with the time at which it is handled.
unfoldable pub run_reports : List (ℕ × List PathReport) → Epochs → Epochs × List String
run_reports [] m = (m, [])
run_reports ((now, ks) ∷ rs) m =
    let (n, signalled) = coordinate_punches now ks m in
    let (r, rest) = run_reports rs n in (r, signalled ++ rest)

-- How often a pair was signalled.
abbrev pub times : String → List String → ℕ
times pair [] = 0
times pair (p ∷ ps) = (if p == pair then 1 else 0) + times pair ps

-- No report says that the pair's path is direct.
abbrev pub IsRelayed : String → PathReport → Type 0
IsRelayed pair k = (k.pair == pair) && k.visible && is_direct k.decision.state ≡ false

times-append :
    (pair : String) (xs ys : List String) → times pair (xs ++ ys) ≡ times pair xs + times pair ys
times-append pair [] ys = omega arith
times-append pair (x ∷ xs) ys = ground (arith, times-append pair xs ys)

path_epoch :
    (pair : String) (now : ℕ) (k : PathReport) (m : Epochs)
    → (epoch_of pair (coordinate_path now k m).0).epoch
      ≡ (epoch_of pair m).epoch + (if (coordinate_path now k m).1 && (k.pair == pair) then 1 else 0)
unfolding coordinate_path
path_epoch pair now k m = ground (arith, bump_entry k.pair pair now m, reset_entry k.pair pair m)

paths_epoch :
    (pair : String) (now : ℕ) (ks : List PathReport) (m : Epochs)
    → (epoch_of pair (coordinate_punches now ks m).0).epoch
      ≡ (epoch_of pair m).epoch + times pair (coordinate_punches now ks m).1
unfolding coordinate_punches
paths_epoch pair now [] m = omega arith
paths_epoch pair now (k ∷ ks) m =
    ground (arith, path_epoch pair now k m, paths_epoch pair now ks (coordinate_path now k m).0)

-- Over any reports, the punch epoch of a pair grows by one for each signal that is sent to the
-- pair's other peer and by nothing else, whatever else the reports say of it: no epoch is handed
-- out twice, and none without a signal.
pub run_epoch :
    (pair : String) (rs : List (ℕ × List PathReport)) (m : Epochs)
    → (epoch_of pair (run_reports rs m).0).epoch
      ≡ (epoch_of pair m).epoch + times pair (run_reports rs m).1
unfolding run_reports
run_epoch pair [] m = omega arith
run_epoch pair ((now, ks) ∷ rs) m = ground (
  arith,
  paths_epoch pair now ks m,
  run_epoch pair rs (coordinate_punches now ks m).0,
  times-append pair (coordinate_punches now ks m).1
      (run_reports rs (coordinate_punches now ks m).0).1,
)
