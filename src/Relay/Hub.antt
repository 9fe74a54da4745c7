-- ===== src/Relay/Hub.antt =====
-- internal/relay/wshub.go: the hub that cross-forwards frames between the two members of a pair.
-- A connection is named by a number, its identity; the hub only compares connections, closes them
-- and writes to them. Every method runs under the hub's mutex, so it is one step.
pub mod Members
pub mod Sessions
pub mod Frames
use go_wireguard_mesh.Common.{
  Bool, Dict, List, Option, String, [], delete, false, if◌then◌else◌, insert, is_some, leb, length,
  lookup, nat_eq, nat_key, none, not, or_else, some, text_key, true, ℕ, ◌&&◌, ◌==◌, ◌∷◌,
}

-- The members of a pair, by public key.
abbrev pub Members : Type 0
Members = Dict String ℕ

-- `closed` are the connections that the hub has closed, the last one first.
pub record Hub : Type 0 where
  pub pairs : Dict String Members
  pub closed : List ℕ

pub data JoinResult : Type 0 where
  joined : Option ℕ → JoinResult
  pair_full : JoinResult

-- `NewWSHub`.
unfoldable pub new_hub : Hub
new_hub = record { pairs = []; closed = [] }

-- The loop over the members that ends with the last one who is not `member` (in `join`).
unfoldable pub last_other : String → Members → Option ℕ
last_other member [] = none
last_other member ((id, c) ∷ ms) = elim (last_other member ms) [
  | some d ↦ some d
  | none ↦ if id == member then none else some c
]

-- The loop over the members that returns the first one who is not `member` (in `peer`).
unfoldable pub first_other : String → Members → Option ℕ
first_other member [] = none
first_other member ((id, c) ∷ ms) = if id == member then first_other member ms else some c

-- `h.pairs[pairID]`, or the members of a pair that is made on the spot.
abbrev pub members_of : String → Hub → Members
members_of pair h = or_else (lookup pair h.pairs) []

-- The connection that the same member left behind is closed.
abbrev pub evict : Option ℕ → List ℕ → List ℕ
evict none closed = closed
evict (some old) closed = old ∷ closed

-- `join`.
unfoldable pub join : String → String → ℕ → Hub → Hub × JoinResult
join pair member conn h =
    let ms = members_of pair h in
    if not (is_some (lookup member ms)) && leb 2 (length ms) then (h, pair_full) else (
      record h {
        pairs = insert pair (insert member conn ms) h.pairs;
        closed = evict (lookup member ms) h.closed;
      },
      joined (last_other member (insert member conn ms)),
    )

abbrev pub is_empty : Members → Bool
is_empty [] = true
is_empty (m ∷ ms) = false

-- Whether the member's entry is still this connection.
abbrev pub is_current : Option ℕ → ℕ → Bool
is_current none conn = false
is_current (some c) conn = nat_eq c conn

-- The members after the guarded removal in `leave`.
abbrev pub without : String → ℕ → Members → Members
without member conn ms = if is_current (lookup member ms) conn then delete member ms else ms

-- `leave`.
unfoldable pub leave : String → String → ℕ → Hub → Hub
leave pair member conn h = elim (lookup pair h.pairs) [
  | none ↦ h
  | some ms ↦
      if is_empty (without member conn ms)
      then record h { pairs = delete pair h.pairs }
      else record h { pairs = insert pair (without member conn ms) h.pairs }
]

-- `MemberCount`.
unfoldable pub member_count : String → Hub → ℕ
member_count pair h = elim (lookup pair h.pairs) [ none ↦ 0 | some ms ↦ length ms ]

-- `peer`: the current other member.
unfoldable pub peer : String → String → Hub → Option ℕ
peer pair member h = elim (lookup pair h.pairs) [ none ↦ none | some ms ↦ first_other member ms ]

-- A frame that was read in the loop of `Serve`: the connection that it is written to, if any.
-- A failed write is ignored, so it changes nothing here.
unfoldable pub relay_frame : String → String → List ℕ → Hub → Option (ℕ × List ℕ)
unfolding peer
relay_frame pair member frame h = elim (peer pair member h) [
  | none ↦ none
  | some c ↦ some (c, frame)
]

-- `Serve`, apart from the frames in between: a refused join serves nothing, and the deferred
-- `leave` runs only after a join that succeeded.
unfoldable pub serve_start : String → String → ℕ → Hub → Hub × Bool
unfolding join
serve_start pair member conn h =
    let (h', r) = join pair member conn h in
    (h', elim r [ joined other ↦ true | pair_full ↦ false ])
