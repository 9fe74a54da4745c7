-- ===== src/Relay/Hub/Sessions.antt =====
-- The hub over any sequence of joins and leaves.
use mathlib.Core.Path.{subst}
use go_wireguard_mesh.Common.{
  IsUnique, Option-cases, String, [], arith, false, inl, inr, insert, insert-IsUnique, is_some, leb,
  length, lookup, nat_key, not, some, text_key, ℕ, ◌&&◌, ◌∷◌, ◌≡◌, ◌≤◌, Bool, Bool-cases, Dict,
  delete, if◌then◌else◌, lookup-delete, lookup-insert, none, true, ◌==◌,
}
use go_wireguard_mesh.Relay.Hub.{
  Hub, Members, join, leave, members_of, evict, is_current, is_empty, joined, last_other, new_hub,
  pair_full, without,
}
use go_wireguard_mesh.Relay.Hub.Members.{
  length-insert_new, length-insert_old, delete-IsUnique, length-delete-le,
}

-- One or two members, each listed once.
abbrev pub IsSeated : Members → Type 0
IsSeated ms = IsUnique ms × (1 ≤ length ms) × (length ms ≤ 2)

-- Every pair that the hub lists is seated; a pair without members is not listed.
abbrev pub IsValid : Hub → Type 0
IsValid h = (pair : String) (ms : Members) → lookup pair h.pairs ≡ some ms → IsSeated ms

join_seats :
    (member : String) (conn : ℕ) (ms : Members)
    → IsUnique ms
    → length ms ≤ 2
    → (not (is_some (lookup member ms)) && leb 2 (length ms)) ≡ false
    → IsSeated (insert member conn ms)
join_seats member conn ms u n room = elim (Option-cases (lookup member ms)) [
  | inl e ↦ (
    insert-IsUnique member conn ms u,
    ground (arith, length-insert_new member conn ms e),
    ground (arith, length-insert_new member conn ms e),
  )
  | inr (d, e) ↦ (
    insert-IsUnique member conn ms u,
    ground (arith, length-insert_old member conn ms e, length_pos member ms e),
    ground (arith, length-insert_old member conn ms e),
  )
]
  where
    length_pos : (k : String) (xs : Members) {c : ℕ} → lookup k xs ≡ some c → 1 ≤ length xs
    length_pos k [] q = absurd (unfold lookup in cc q)
    length_pos k (x ∷ xs) q = omega arith

members_of-IsUnique :
    (pair : String) (h : Hub)
    → IsValid h
    → IsUnique (members_of pair h) × (length (members_of pair h) ≤ 2)
members_of-IsUnique pair h v = elim (Option-cases (lookup pair h.pairs)) [
  | inl e ↦ rw e (tt, omega arith)
  | inr (ms, e) ↦ rw e ((v pair ms e).0, (v pair ms e).2)
]

insert-IsSeated :
    (pair : String) (ms : Members) (m : Dict String Members) (q : String) (xs : Members)
    → ((r : String) (ys : Members) → lookup r m ≡ some ys → IsSeated ys)
    → IsSeated ms
    → lookup q (insert pair ms m) ≡ some xs
    → IsSeated xs
insert-IsSeated pair ms m q xs v s e = elim (Bool-cases (pair == q)) [
  | inl same ↦ subst IsSeated (ground (arith, lookup-insert pair q ms m)) s
  | inr other ↦ v q xs (ground (arith, lookup-insert pair q ms m))
]

abbrev pub is_refused : String → Members → Bool
is_refused member ms = not (is_some (lookup member ms)) && leb 2 (length ms)

pub join_refused :
    (pair member : String) (conn : ℕ) (h : Hub)
    → is_refused member (members_of pair h) ≡ true
    → join pair member conn h ≡ (h, pair_full)
unfolding join
join_refused pair member conn h e = rw e

pub join_admitted :
    (pair member : String) (conn : ℕ) (h : Hub)
    → is_refused member (members_of pair h) ≡ false
    → join pair member conn h ≡ (
      record h {
        pairs = insert pair (insert member conn (members_of pair h)) h.pairs;
        closed = evict (lookup member (members_of pair h)) h.closed;
      },
      joined (last_other member (insert member conn (members_of pair h))),
    )
unfolding join
join_admitted pair member conn h e = rw e

pub join-IsValid :
    (pair member : String) (conn : ℕ) (h : Hub) → IsValid h → IsValid (join pair member conn h).0
join-IsValid pair member conn h v = elim (Bool-cases (is_refused member (members_of pair h))) [
  | inl e ↦ rw (join_refused pair member conn h e) v
  | inr e ↦ rw (join_admitted pair member conn h e) (λ q xs l.
      insert-IsSeated pair (insert member conn (members_of pair h)) h.pairs q xs v
        (join_seats member conn (members_of pair h) (members_of-IsUnique pair h v).0
          (members_of-IsUnique pair h v).1 e)
        l)
]

without-IsSeated :
    (member : String) (conn : ℕ) (ms : Members)
    → IsSeated ms
    → is_empty (without member conn ms) ≡ false
    → IsSeated (without member conn ms)
without-IsSeated member conn ms (u, lo, hi) e =
    elim (Bool-cases (is_current (lookup member ms) conn)) [
      | inl c ↦ rw c (
        delete-IsUnique member ms u,
        nonempty (delete member ms) (rw c at e),
        omega (arith, length-delete-le member ms),
      )
      | inr c ↦ rw c (u, lo, hi)
    ]
  where
    nonempty : (xs : Members) → is_empty xs ≡ false → 1 ≤ length xs
    nonempty [] q = absurd (cc q)
    nonempty (x ∷ xs) q = omega arith

pub leave_absent :
    (pair member : String) (conn : ℕ) (h : Hub)
    → lookup pair h.pairs ≡ none
    → leave pair member conn h ≡ h
unfolding leave
leave_absent pair member conn h e = ground arith

pub leave_present :
    (pair member : String) (conn : ℕ) (h : Hub) {ms : Members}
    → lookup pair h.pairs ≡ some ms
    → leave pair member conn h ≡ (
        if is_empty (without member conn ms)
        then record h { pairs = delete pair h.pairs }
        else record h { pairs = insert pair (without member conn ms) h.pairs })
unfolding leave
leave_present pair member conn h e = ground arith

pub leave-IsValid :
    (pair member : String) (conn : ℕ) (h : Hub) → IsValid h → IsValid (leave pair member conn h)
leave-IsValid pair member conn h v = elim (Option-cases (lookup pair h.pairs)) [
  | inl e ↦ rw (leave_absent pair member conn h e) v
  | inr (ms, e) ↦
      rw (leave_present pair member conn h e)
        (elim (Bool-cases (is_empty (without member conn ms))) [
          | inl gone ↦ rw gone (λ q xs l. v q xs (ground (arith, lookup-delete pair q h.pairs)))
          | inr left ↦ rw left (λ q xs l.
              insert-IsSeated pair (without member conn ms) h.pairs q xs v
                (without-IsSeated member conn ms (v pair ms e) left) l)
        ])
]

-- The calls that change the hub.
pub data Step : Hub → Hub → Type 0 where
  joins : (pair member : String) (conn : ℕ) (h : Hub) → Step h (join pair member conn h).0
  leaves : (pair member : String) (conn : ℕ) (h : Hub) → Step h (leave pair member conn h)

pub data Reach (s : Hub) : Hub → Type 0 where
  here : Reach s s
  next : {t u : Hub} → Reach s t → Step t u → Reach s u

Step-IsValid : {s t : Hub} → Step s t → IsValid s → IsValid t
Step-IsValid (joins pair member conn h) v = join-IsValid pair member conn h v
Step-IsValid (leaves pair member conn h) v = leave-IsValid pair member conn h v

Reach-from : {s t : Hub} → Reach s t → IsValid s → IsValid t
Reach-from here v = v
Reach-from (next r st) v = Step-IsValid st (Reach-from r v)

new_hub-IsValid : IsValid new_hub
unfolding new_hub lookup
new_hub-IsValid q ms e = absurd (ground arith)

-- In every state that a new hub reaches by joins and leaves, however these interleave, each pair
-- that it lists has one or two members and no member twice.
pub Reach-IsValid : {t : Hub} → Reach new_hub t → IsValid t
Reach-IsValid r = Reach-from r new_hub-IsValid
