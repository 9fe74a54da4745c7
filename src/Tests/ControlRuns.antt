-- ===== src/Tests/ControlRuns.antt =====
-- Runs of cmd/server/report.go and of the derivations from public keys.
use go_wireguard_mesh.Control.ClientIp.{Trust, client_ip, client_ip_forged}
use go_wireguard_mesh.Control.Signal.{
  Client, Hub, Message, handle_signal_message, new_signal_hub, register,
}
use go_wireguard_mesh.Control.Signal.Delivery.{handle_signal_message_lem, Outcome}
use go_wireguard_mesh.Common.{
  List, Option, String, [], arith, get_elem?, if◌then◌else◌, insert, lookup, nat_eq, nat_key, none,
  refl, some, text_key, true, ℕ, ◌++◌, ◌+◌, ◌<◌, ◌↔◌, ◌∷◌, ◌≡◌, ◌≢◌, ◌≤◌, ◌⊎◌, Bool, Bytes,
  bytes_eq, bytes_key, false,
}
use go_wireguard_mesh.Control.PairKey.{both_sides_agree, derive_pair_key, own_port, relay_pair_id}
use go_wireguard_mesh.Control.Punch.{
  Epochs, PathReport, bump_punch_epoch, coordinate_punches, easy, epoch_of, hard, ws_relay,
}
use go_wireguard_mesh.Control.Punch.Budget.{bump_iff, ready_at}
use go_wireguard_mesh.Control.Punch.Rounds.{run_epoch, run_reports, times}

abbrev key_a : List ℕ
key_a = 97 ∷ 49 ∷ []

abbrev key_b : List ℕ
key_b = 98 ∷ 49 ∷ []

a_not_b : key_a ≢ key_b
a_not_b = ground arith

-- A digest that tells the two orders apart.
abbrev digest : List ℕ → String
digest ks = elim (get_elem? ks 0) [ none ↦ "" | some n ↦ if nat_eq n 97 then "a" else "b" ]

abbrev derive : List ℕ → List ℕ → Option (List ℕ)
derive master info = some (master ++ info)

both_sides_agree_example :
    (relay_pair_id digest key_a key_b ≡ relay_pair_id digest key_b key_a)
    × (derive_pair_key derive (119 ∷ []) (1 ∷ []) key_a key_b
        ≡ derive_pair_key derive (119 ∷ []) (1 ∷ []) key_b key_a)
    × ((own_port key_a key_b (7, 8) ≡ 7) × (own_port key_b key_a (7, 8) ≡ 8)
        ⊎ (own_port key_a key_b (7, 8) ≡ 8) × (own_port key_b key_a (7, 8) ≡ 7))
both_sides_agree_example =
    both_sides_agree digest derive (119 ∷ []) (1 ∷ []) key_a key_b (7, 8) a_not_b

abbrev relayed : PathReport
relayed = record {
  pair = "ab";
  visible = true;
  decision = record {
    state = ws_relay;
    remote_online = true;
    self_candidates = 1;
    remote_candidates = 2;
    self_nat = hard;
    remote_nat = easy;
  };
}

-- Reports of a relayed path after 0, 100, 300, 800 and 5000 seconds: the second one comes during
-- the cooldown and the last one after the third attempt.
abbrev reports : List (ℕ × List PathReport)
reports =
    (0, relayed ∷ [])
    ∷ (100, relayed ∷ [])
    ∷ (300, relayed ∷ [])
    ∷ (800, relayed ∷ [])
    ∷ (5_000, relayed ∷ [])
    ∷ []

three_signals : (run_reports reports []).1 ≡ "ab" ∷ "ab" ∷ "ab" ∷ []
unfolding run_reports coordinate_punches lookup insert
three_signals = refl

run_epoch_run :
    (epoch_of "ab" (run_reports reports []).0).epoch
    ≡ (epoch_of "ab" []).epoch + times "ab" (run_reports reports []).1
run_epoch_run = run_epoch "ab" reports []

abbrev once : Epochs
once = (bump_punch_epoch "ab" 100 []).0

bump_iff_run :
    ((bump_punch_epoch "ab" 400 once).1 ≡ true)
    ↔ ((epoch_of "ab" once).attempts < 3) × (ready_at (epoch_of "ab" once) ≤ 400)
bump_iff_run = bump_iff "ab" 400 once

-- A connected peer "b", to which "a" writes under the name "c".
abbrev signal_hub : Hub
signal_hub = register (record { public_key = "b"; conn = 7 }) new_signal_hub

abbrev forged : Message
forged = record { kind = "offer"; sender = "c"; target = "b"; payload = "" }

abbrev all_write : ℕ → Bool
all_write conn = true

abbrev from_a : Client
from_a = record { public_key = "a"; conn = 3 }

handle_signal_message_lem_example :
    Outcome all_write from_a
      ("b" ∷ [])
      forged
      signal_hub
      (handle_signal_message all_write from_a (some ("b" ∷ [])) (some forged) signal_hub)
handle_signal_message_lem_example =
    handle_signal_message_lem all_write from_a ("b" ∷ []) forged signal_hub refl

own_key :
    (handle_signal_message all_write from_a (some ("b" ∷ [])) (some forged) signal_hub).0.sent
    ≡ (7, record forged { sender = "a" }) ∷ []
unfolding handle_signal_message register new_signal_hub lookup insert
own_key = refl

-- A proxy is named by its text, and every text is an address.
abbrev behind_proxy : Trust Bytes
behind_proxy = record {
  trust_proxy = false;
  trusted_proxies = (49 ∷ []) ∷ [];
  split_host = λ r. some r;
  contains = bytes_eq;
  is_address = λ h. true;
  trim_space = λ t. t;
}

client_ip_forged_example : client_ip behind_proxy (49 ∷ []) (57 ∷ 44 ∷ 56 ∷ 44 ∷ 55 ∷ []) ≡ 55 ∷ []
client_ip_forged_example =
    client_ip_forged behind_proxy (49 ∷ []) (49 ∷ []) (57 ∷ 44 ∷ 56 ∷ []) (55 ∷ []) refl refl
