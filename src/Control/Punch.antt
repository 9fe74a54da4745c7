-- ===== src/Control/Punch.antt =====
-- cmd/server/report.go: the coordination of hole punches (`coordinatePunches` and what it calls).
-- Times and durations are in seconds. The pair of the reporter and a path's peer is named by
-- `pair`, the identifier that `relayPairID` derives. The database's answers about a path's peer
-- (visible, online, candidates, NAT type) stand in the record of the path. The signal that follows
-- a bump is a notification: it is recorded by the key of the peer that it goes to.
pub mod Budget
pub mod Rounds
use go_wireguard_mesh.Common.{
  Bool, Dict, List, Option, String, [], false, if◌then◌else◌, insert, leb, lookup, ltb, min, nat_eq,
  nat_key, none, not, or_else, some, text_key, true, ℕ, ◌&&◌, ◌*◌, ◌+◌, ◌-◌, ◌^◌, ◌∷◌,
}

pub data State : Type 0 where
  direct : State
  quic_relay : State
  ws_relay : State
  udp_relay : State
  probing_direct : State
  other_state : State

pub data NatType : Type 0 where
  easy : NatType
  hard : NatType
  static : NatType
  unknown : NatType

-- `punchDecision`.
pub record Decision : Type 0 where
  pub state : State
  pub remote_online : Bool
  pub self_candidates : ℕ
  pub remote_candidates : ℕ
  pub self_nat : NatType
  pub remote_nat : NatType

-- `punchEpoch`.
pub record Epoch : Type 0 where
  pub epoch : ℕ
  pub attempts : ℕ
  pub bumped_at : Option ℕ

abbrev pub Epochs : Type 0
Epochs = Dict String Epoch

abbrev pub max_punch_attempts : ℕ
max_punch_attempts = 3

abbrev pub punch_cooldown : ℕ
punch_cooldown = 120

abbrev pub is_relay : State → Bool
is_relay quic_relay = true
is_relay ws_relay = true
is_relay udp_relay = true
is_relay _ = false

abbrev pub is_hard : NatType → Bool
is_hard hard = true
is_hard _ = false

-- `shouldBumpPunchEpoch`.
unfoldable pub should_bump_punch_epoch : Decision → Bool
should_bump_punch_epoch d =
    if not (is_relay d.state)
    then false
    else if is_hard d.self_nat && is_hard d.remote_nat
    then false
    else d.remote_online && ltb 0 d.self_candidates && ltb 0 d.remote_candidates

-- `s.punchEpochs[pairID]`, the zero value for a pair without an entry.
abbrev pub epoch_of : String → Epochs → Epoch
epoch_of pair m = or_else (lookup pair m) (record { epoch = 0; attempts = 0; bumped_at = none })

-- `punchCooldown << min(attempts, 2)`.
abbrev pub cooldown : ℕ → ℕ
cooldown attempts = punch_cooldown * 2 ^ min attempts 2

abbrev pub is_cooling : ℕ → Epoch → Bool
is_cooling now cur = elim cur.bumped_at [
  | none ↦ false
  | some at ↦ ltb (now - at) (cooldown cur.attempts)
]

abbrev pub bumped : ℕ → Epoch → Epoch
bumped now cur = record { epoch = cur.epoch + 1; attempts = cur.attempts + 1; bumped_at = some now }

-- `bumpPunchEpoch`: the new map, and whether the epoch moved.
unfoldable pub bump_punch_epoch : String → ℕ → Epochs → Epochs × Bool
bump_punch_epoch pair now m =
    if leb max_punch_attempts (epoch_of pair m).attempts
    then (m, false)
    else if is_cooling now (epoch_of pair m)
    then (m, false)
    else (insert pair (bumped now (epoch_of pair m)) m, true)

-- `resetPunchAttempts`.
unfoldable pub reset_punch_attempts : String → Epochs → Epochs
reset_punch_attempts pair m = elim (lookup pair m) [
  | none ↦ m
  | some cur ↦
      if nat_eq cur.attempts 0
      then m
      else insert pair (record cur { attempts = 0; bumped_at = none }) m
]

-- A reported path, and what the server knows about its peer.
pub record PathReport : Type 0 where
  pub pair : String
  pub visible : Bool
  pub decision : Decision

abbrev pub is_direct : State → Bool
is_direct direct = true
is_direct _ = false

-- The body of the loop over the reported paths: the new map, and whether the remote is signalled.
unfoldable pub coordinate_path : ℕ → PathReport → Epochs → Epochs × Bool
unfolding should_bump_punch_epoch bump_punch_epoch reset_punch_attempts
coordinate_path now k m =
    if not k.visible
    then (m, false)
    else if is_direct k.decision.state
    then (reset_punch_attempts k.pair m, false)
    else if should_bump_punch_epoch k.decision
    then bump_punch_epoch k.pair now m
    else (m, false)

-- `coordinatePunches`: the new map, and the pairs whose remote is signalled.
unfoldable pub coordinate_punches : ℕ → List PathReport → Epochs → Epochs × List String
unfolding coordinate_path
coordinate_punches now [] m = (m, [])
coordinate_punches now (k ∷ ks) m =
    let (n, signalled) = coordinate_path now k m in
    let (r, rest) = coordinate_punches now ks n in (r, if signalled then k.pair ∷ rest else rest)
