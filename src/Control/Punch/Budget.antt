-- ===== src/Control/Punch/Budget.antt =====
-- What one bump and one reset do to a pair's epoch.
use go_wireguard_mesh.Common.{
  ==_iff, Option-cases, String, arith, false, if◌then◌else◌, inl, inr, insert, lookup,
  lookup-insert, nat_key, none, some, text_key, true, ℕ, ◌&&◌, ◌+◌, ◌<◌, ◌==◌, ◌↔◌, ◌≡◌, ◌≤◌, min,
  suc, zero,
}
use go_wireguard_mesh.Control.Punch.{
  Epoch, Epochs, bump_punch_epoch, bumped, cooldown, epoch_of, is_cooling, reset_punch_attempts,
}

pub epoch_of-insert :
    (pair other : String) (x : Epoch) (m : Epochs)
    → epoch_of other (insert pair x m) ≡ (if pair == other then x else epoch_of other m)
epoch_of-insert pair other x m = ground (arith, lookup-insert pair other x m)

-- The time from which on a pair with this entry is not resting.
abbrev pub ready_at : Epoch → ℕ
ready_at cur = elim cur.bumped_at [ none ↦ 0 | some at ↦ at + cooldown cur.attempts ]

cooldown_pos : (n : ℕ) → 0 < cooldown n
cooldown_pos zero = ground arith
cooldown_pos (suc zero) = ground arith
cooldown_pos (suc (suc n)) = let e : min (suc (suc n)) 2 ≡ 2 = ground arith in rw e (ground arith)

ready : (now : ℕ) (cur : Epoch) → (is_cooling now cur ≡ false) ↔ (ready_at cur ≤ now)
ready now cur = ground (arith, cooldown_pos cur.attempts)

-- A bump moves the pair's epoch exactly when fewer than three attempts were made since the last
-- reset and the cooldown after the last one, of 4 minutes after the first and 8 after the second,
-- is over.
pub bump_iff :
    (pair : String) (now : ℕ) (m : Epochs)
    → ((bump_punch_epoch pair now m).1 ≡ true)
      ↔ ((epoch_of pair m).attempts < 3) × (ready_at (epoch_of pair m) ≤ now)
unfolding bump_punch_epoch
bump_iff pair now m = ground (arith, ready now (epoch_of pair m))

-- What a bump leaves of any pair.
pub bump_entry :
    (pair other : String) (now : ℕ) (m : Epochs)
    → epoch_of other (bump_punch_epoch pair now m).0 ≡ (
        if (bump_punch_epoch pair now m).1 && (pair == other)
        then bumped now (epoch_of other m)
        else epoch_of other m)
unfolding bump_punch_epoch
bump_entry pair other now m =
    ground (arith, ==_iff pair other, epoch_of-insert pair other (bumped now (epoch_of pair m)) m)

abbrev cleared : Epoch → Epoch
cleared cur = record cur { attempts = 0; bumped_at = none }

pub reset_entry :
    (pair other : String) (m : Epochs)
    → ((epoch_of other (reset_punch_attempts pair m)).epoch ≡ (epoch_of other m).epoch)
      × ((epoch_of other (reset_punch_attempts pair m)).attempts
          ≡ (if pair == other then 0 else (epoch_of other m).attempts))
unfolding reset_punch_attempts
reset_entry pair other m = elim (Option-cases (lookup pair m)) [
  | inl e ↦ ground (arith, ==_iff pair other)
  | inr (cur, e) ↦ ground (arith, ==_iff pair other, lookup-insert pair other (cleared cur) m)
]
