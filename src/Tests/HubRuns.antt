-- ===== src/Tests/HubRuns.antt =====
-- Runs of internal/relay/wshub.go.
use go_wireguard_mesh.Common.{
  ==_iff, String, [], arith, insert, lookup, nat_key, none, refl, some, text_key, ◌↔◌, ◌∷◌, ◌≡◌,
  ◌≢◌, List, Option, ℕ,
}
use go_wireguard_mesh.Relay.Hub.{
  Hub, join, joined, last_other, leave, member_count, members_of, new_hub, pair_full, relay_frame,
}
use go_wireguard_mesh.Relay.Hub.Sessions.{IsValid, Reach, Reach-IsValid, here, joins, next}
use go_wireguard_mesh.Relay.Hub.Frames.{
  join_connects, join_full_iff, leave_current, leave_stale, relay_frame_other,
}

a_not_b : ◌≢◌ {A = String} "a" "b"
a_not_b = ground (arith, ==_iff {A = String} "a" "b")

abbrev alone : Hub
alone = (join "p" "a" 1 new_hub).0

abbrev both : Hub
both = (join "p" "b" 2 alone).0

both_joined : (join "p" "b" 2 alone).1 ≡ joined (some 1)
unfolding join new_hub lookup insert last_other
both_joined = refl

both_reached : Reach new_hub both
both_reached = next (next here (joins "p" "a" 1 new_hub)) (joins "p" "b" 2 alone)

both-IsValid : IsValid both
both-IsValid = Reach-IsValid both_reached

alone-IsValid : IsValid alone
alone-IsValid = Reach-IsValid (next here (joins "p" "a" 1 new_hub))

Reach-IsValid_example : IsValid both
Reach-IsValid_example = Reach-IsValid both_reached

join_full_iff_run :
    ((join "p" "c" 3 both).1 ≡ pair_full)
    ↔ (member_count "p" both ≡ 2) × (lookup "c" (members_of "p" both) ≡ none)
join_full_iff_run = join_full_iff "p" "c" 3 both both-IsValid

join_connects_example :
    (◌≡◌ {A = Option ℕ} (some 1) (some 1))
    × (relay_frame "p" "b" (7 ∷ []) both ≡ some (1, 7 ∷ []))
    × (relay_frame "p" "a" (7 ∷ []) both ≡ some (2, 7 ∷ []))
unfolding new_hub join lookup insert
join_connects_example =
    join_connects "p" "a" "b" 1 2 (7 ∷ []) alone {other = some 1} alone-IsValid a_not_b refl
      both_joined

relay_frame_other_run :
    (◌≡◌ {A = List ℕ} (7 ∷ []) (7 ∷ []))
    × ((id : String) × (id ≢ "b") × (lookup id (members_of "p" both) ≡ some 1))
relay_frame_other_run =
    relay_frame_other "p" "b" (7 ∷ []) both {c = 1} {sent = 7 ∷ []} both-IsValid
      join_connects_example.1

-- Member `a` has reconnected as connection 5 before the handler of connection 1 leaves.
abbrev again : Hub
again = (join "p" "a" 5 both).0

again-IsValid : IsValid again
again-IsValid = Reach-IsValid (next both_reached (joins "p" "a" 5 both))

again_closes : again.closed ≡ 1 ∷ []
unfolding join new_hub lookup insert last_other
again_closes = refl

leave_stale_run : lookup "p" (leave "p" "a" 1 again).pairs ≡ lookup "p" again.pairs
unfolding join new_hub lookup insert
leave_stale_run = leave_stale "p" "a" 1 5 again again-IsValid refl (omega arith) "p"

leave_current_example : lookup "a" (members_of "p" (leave "p" "a" 5 again)) ≡ none
unfolding join new_hub lookup insert
leave_current_example = leave_current "p" "a" 5 again again-IsValid refl
