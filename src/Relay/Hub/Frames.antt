-- ===== src/Relay/Hub/Frames.antt =====
-- Who may join a pair, and where its frames go.
use go_wireguard_mesh.Common.{
  ==_refl, Bool-cases, List, Option, Option-cases, String, ap, arith, false, inl, inr, insert,
  lookup, lookup-insert, nat_key, none, some, text_key, true, ℕ, ◌↔◌, ◌≡◌, ◌≢◌, ==_iff, sym, ◌∙◌,
  [], delete, length, lookup-delete, ◌∷◌, ◌≤◌,
}
use go_wireguard_mesh.Relay.Hub.{
  Hub, Members, join, joined, last_other, member_count, members_of, pair_full, relay_frame,
  first_other, leave, is_empty, without,
}
use go_wireguard_mesh.Relay.Hub.Members.{first_other_complete, first_other_sound}
use go_wireguard_mesh.Relay.Hub.Sessions.{
  IsValid, is_refused, join_admitted, join_refused, IsSeated, join-IsValid, leave_absent,
  leave_present,
}

full_pair :
    (pair member : String) (h : Hub)
    → IsValid h
    → is_refused member (members_of pair h) ≡ true
    → (member_count pair h ≡ 2) × (lookup member (members_of pair h) ≡ none)
unfolding member_count
full_pair pair member h v e = elim (Option-cases (lookup pair h.pairs)) [
  | inl n ↦ absurd (ground arith)
  | inr (ms, n) ↦ ground (arith, (v pair ms n).2)
]

not_full :
    (pair member : String) (h : Hub)
    → member_count pair h ≡ 2
    → lookup member (members_of pair h) ≡ none
    → is_refused member (members_of pair h) ≡ false
    → ⊥
unfolding member_count
not_full pair member h n l e = ground arith

-- A join is refused exactly when the pair already has two members and the one who joins is neither
-- of them.
pub join_full_iff :
    (pair member : String) (conn : ℕ) (h : Hub)
    → IsValid h
    → ((join pair member conn h).1 ≡ pair_full)
      ↔ (member_count pair h ≡ 2) × (lookup member (members_of pair h) ≡ none)
join_full_iff pair member conn h v = elim (Bool-cases (is_refused member (members_of pair h))) [
  | inl e ↦
      (λ _. full_pair pair member h v e, λ _. ap (λ r. r.1) (join_refused pair member conn h e))
  | inr e ↦ (
    λ f. absurd (ground (arith, join_admitted pair member conn h e)),
    λ f. absurd (not_full pair member h f.0 f.1 e),
  )
]

-- A refused join changes nothing: no connection is closed and no member replaced.
pub join_full :
    (pair member : String) (conn : ℕ) (h : Hub)
    → (join pair member conn h).1 ≡ pair_full
    → (join pair member conn h).0 ≡ h
unfolding join
join_full pair member conn h e = ground arith

-- The pair's members after a join, and the connections closed.
abbrev seated : String → String → ℕ → Hub → Members
seated pair member conn h = insert member conn (members_of pair h)

after_join :
    (pair member : String) (conn : ℕ) (h : Hub) {other : Option ℕ}
    → (join pair member conn h).1 ≡ joined other
    → (lookup pair (join pair member conn h).0.pairs ≡ some (seated pair member conn h))
      × (other ≡ last_other member (seated pair member conn h))
after_join pair member conn h e = elim (Bool-cases (is_refused member (members_of pair h))) [
  | inl r ↦ absurd (ground (arith, join_refused pair member conn h r))
  | inr r ↦ rw (join_admitted pair member conn h r) (
    ground (arith, ==_refl pair, lookup-insert pair pair (seated pair member conn h) h.pairs),
    ground (arith, join_admitted pair member conn h r),
  )
]

relay_present :
    (pair m : String) (h : Hub) (frame : List ℕ) {ms : Members}
    → lookup pair h.pairs ≡ some ms
    → relay_frame pair m frame h
      ≡ elim (first_other m ms) [ none ↦ none | some c ↦ some (c, frame) ]
unfolding relay_frame
relay_present pair m h frame e = ground arith

relay_absent :
    (pair m : String) (h : Hub) (frame : List ℕ)
    → lookup pair h.pairs ≡ none
    → relay_frame pair m frame h ≡ none
unfolding relay_frame
relay_absent pair m h frame e = ground arith

relay_to :
    (pair m : String) (h : Hub) (frame : List ℕ) {ms : Members} {c : ℕ}
    → lookup pair h.pairs ≡ some ms
    → first_other m ms ≡ some c
    → relay_frame pair m frame h ≡ some (c, frame)
relay_to pair m h frame e f = ground (arith, relay_present pair m h frame e)

-- When a member joins a pair in which another member waits, its frames go to that member's
-- connection from then on, and that member's frames go to the new connection.
pub join_connects :
    (pair a b : String) (ca cb : ℕ) (frame : List ℕ) (h : Hub) {other : Option ℕ}
    → IsValid h
    → a ≢ b
    → lookup a (members_of pair h) ≡ some ca
    → (join pair b cb h).1 ≡ joined other
    → (other ≡ some ca)
      × (relay_frame pair b frame (join pair b cb h).0 ≡ some (ca, frame))
      × (relay_frame pair a frame (join pair b cb h).0 ≡ some (cb, frame))
join_connects pair a b ca cb frame h v ne la e =
    let ms = seated pair b cb h in
    let (at, oth) = after_join pair b cb h e in
    let seat : IsSeated ms = join-IsValid pair b cb h v pair ms at in
    let lb : lookup b ms ≡ some cb =
      ground (arith, ==_refl b, lookup-insert b b cb (members_of pair h)) in
    let la' : lookup a ms ≡ some ca =
      ground (arith, ==_iff b a, lookup-insert b a cb (members_of pair h)) in
    let to_a : (first_other b ms ≡ some ca) × (last_other b ms ≡ some ca) =
      first_other_complete b a ms ca seat.0 seat.2 (rw lb) ne la' in
    let to_b : (first_other a ms ≡ some cb) × (last_other a ms ≡ some cb) =
      first_other_complete a b ms cb seat.0 seat.2 (rw la') (λ q. ne (sym q)) lb in
    (
      oth ∙ to_a.1,
      relay_to pair b (join pair b cb h).0 frame at to_a.0,
      relay_to pair a (join pair b cb h).0 frame at to_b.0,
    )

-- A frame never comes back to the member who sent it: it goes to a connection that another member
-- of the pair has, and a pair without another member drops it.
pub relay_frame_other :
    (pair member : String) (frame : List ℕ) (h : Hub) {c : ℕ} {sent : List ℕ}
    → IsValid h
    → relay_frame pair member frame h ≡ some (c, sent)
    → (sent ≡ frame) × ((id : String) × (id ≢ member) × (lookup id (members_of pair h) ≡ some c))
relay_frame_other pair member frame h {c} v e = elim (Option-cases (lookup pair h.pairs)) [
  | inl n ↦ absurd (ground (arith, relay_absent pair member h frame n))
  | inr (ms, n) ↦ (
    ground (arith, relay_present pair member h frame n),
    rw n (
        first_other_sound member ms c (v pair ms n).0
          (ground (arith, relay_present pair member h frame n))),
  )
]

unseated : (ms : Members) → 1 ≤ length ms → is_empty ms ≡ true → ⊥
unseated [] n e = omega arith
unseated (m ∷ ms) n e = cc

-- The deferred `leave` of a connection that the same member has replaced by a reconnect changes
-- nothing, so it cannot end the new session.
pub leave_stale :
    (pair member : String) (old new : ℕ) (h : Hub)
    → IsValid h
    → lookup member (members_of pair h) ≡ some new
    → old ≢ new
    → (q : String) → lookup q (leave pair member old h).pairs ≡ lookup q h.pairs
leave_stale pair member old new h v l ne q = elim (Option-cases (lookup pair h.pairs)) [
  | inl n ↦ rw (leave_absent pair member old h n)
  | inr (ms, n) ↦
      let same : without member old ms ≡ ms = ground arith in
      rw (leave_present pair member old h n) (
        rw same (elim (Bool-cases (is_empty ms)) [
          | inl gone ↦ absurd (unseated ms (v pair ms n).1 gone)
          | inr some_left ↦
              rw some_left (ground (arith, ==_iff pair q, lookup-insert pair q ms h.pairs))
        ]))
]

-- After the `leave` of the connection that a member still has, the member is gone from the pair.
pub leave_current :
    (pair member : String) (conn : ℕ) (h : Hub)
    → IsValid h
    → lookup member (members_of pair h) ≡ some conn
    → lookup member (members_of pair (leave pair member conn h)) ≡ none
leave_current pair member conn h v l = elim (Option-cases (lookup pair h.pairs)) [
  | inl n ↦ absurd (unfold lookup in ground arith)
  | inr (ms, n) ↦
      let gone : without member conn ms ≡ delete member ms = ground arith in
      rw (leave_present pair member conn h n) (
        rw gone (elim (Bool-cases (is_empty (delete member ms))) [
          | inl e ↦
              rw e (unfold lookup in ground (arith, ==_refl pair, lookup-delete pair pair h.pairs))
          | inr e ↦ rw e (
              ground (
                arith,
                ==_refl pair,
                ==_refl member,
                lookup-insert pair pair (delete member ms) h.pairs,
                lookup-delete member member ms,
              ))
        ]))
]
