-- ===== src/Store/Network/Passes.antt =====
-- `ApplyNetworkMigration` gets through both of its passes.
use go_wireguard_mesh.Common.{
  All, Bool, List, [], any, ap, arith, false, if◌then◌else◌, length, nat_eq, none, refl, some, true,
  ℕ, ◌++◌, ◌+◌, ◌∙◌, ◌∷◌, ◌≡◌,
}
use go_wireguard_mesh.Store.{ok}
use go_wireguard_mesh.Store.Network.{
  Change, Column, Slot, address, changes, held, migrating, update, write,
}
use go_wireguard_mesh.Store.Network.Hosts.{upward}
use go_wireguard_mesh.Store.Rows.{any_append}

-- The rows while the move runs, and behind it.
abbrev pub staged : Slot → Slot
staged s = record { id = s.id; ip = migrating s.id; ip6 = some (migrating s.id) }

abbrev pub all_staged : List Slot → List Slot
all_staged [] = []
all_staged (s ∷ ss) = staged s ∷ all_staged ss

abbrev pub moved : ℕ → ℕ → Slot → Slot
moved a b s = record { id = s.id; ip = address a; ip6 = some (address b) }

-- The rows in their order get the addresses from `a` and `b` on.
abbrev pub all_moved : ℕ → ℕ → List Slot → List Slot
all_moved a b [] = []
all_moved a b (s ∷ ss) = moved a b s ∷ all_moved (a + 1) (b + 1) ss

abbrev pub planned : ℕ → ℕ → List Slot → List Change
planned a b [] = []
planned a b (s ∷ ss) = record { id = s.id; new_ip = a; new_ip6 = b } ∷ planned (a + 1) (b + 1) ss

pub changes-upward :
    (a b : ℕ) (ss : List Slot)
    → changes ss (upward (length ss) a) (upward (length ss) b) ≡ planned a b ss
changes-upward a b [] = refl
changes-upward a b (s ∷ ss) =
    ap (λ cs. record { id = s.id; new_ip = a; new_ip6 = b } ∷ cs)
      (changes-upward (a + 1) (b + 1) ss)

abbrev pub is_plain : Column → Bool
is_plain (address a) = true
is_plain (migrating i) = false

-- A row outside a move: its columns hold addresses, the second one perhaps none.
abbrev pub IsSettledSlot : Slot → Type 0
IsSettledSlot s = (is_plain s.ip ≡ true) × (elim s.ip6 [ none ↦ true | some c ↦ is_plain c ] ≡ true)

abbrev pub has_id : ℕ → List Slot → Bool
has_id i ss = any (λ s. nat_eq s.id i) ss

abbrev pub IdsDiffer : List Slot → Type 0
IdsDiffer [] = Unit
IdsDiffer (s ∷ ss) = (has_id s.id ss ≡ false) × IdsDiffer ss

-- Rows that hold the placeholders of their own ids.
abbrev pub IsStaged : Slot → Type 0
IsStaged s = (s.ip ≡ migrating s.id) × (s.ip6 ≡ some (migrating s.id))

pub held_staged :
    (i : ℕ) (ps : List Slot) → All IsStaged ps → any (held i (migrating i) (migrating i)) ps ≡ false
held_staged i [] h = refl
held_staged i (p ∷ ps) h = ground (arith, held_staged i ps h.1, h.0.0, h.0.1)

held_plain :
    (i : ℕ) (ps : List Slot)
    → All IsSettledSlot ps
    → any (held i (migrating i) (migrating i)) ps ≡ false
held_plain i [] h = refl
held_plain i (p ∷ ps) h = ground (arith, held_plain i ps h.1, h.0.0, h.0.1)

write_staged :
    (i : ℕ) (ps : List Slot) → All IsStaged ps → write i (migrating i) (migrating i) ps ≡ ps
write_staged i [] h = refl
write_staged i (p ∷ ps) h = ground (arith, write_staged i ps h.1, h.0.0, h.0.1)

pub write_absent :
    (i : ℕ) (a b : Column) (ps : List Slot) → has_id i ps ≡ false → write i a b ps ≡ ps
write_absent i a b [] h = refl
write_absent i a b (p ∷ ps) h = ground (arith, write_absent i a b ps)

pub write-append :
    (i : ℕ) (a b : Column) (ps qs : List Slot)
    → write i a b (ps ++ qs) ≡ write i a b ps ++ write i a b qs
write-append i a b [] qs = refl
write-append i a b (p ∷ ps) qs =
    ap (λ xs. (if nat_eq p.id i then record { id = p.id; ip = a; ip6 = some b } else p) ∷ xs)
      (write-append i a b ps qs)

pub write_own :
    (s : Slot) (a b : Column) (ss : List Slot)
    → has_id s.id ss ≡ false
    → write s.id a b (s ∷ ss) ≡ record { id = s.id; ip = a; ip6 = some b } ∷ ss
write_own s a b ss h = ground (arith, write_absent s.id a b ss h)

pub stage_one :
    (ps : List Slot) (s : Slot) (ss : List Slot)
    → All IsStaged ps
    → All IsSettledSlot ss
    → has_id s.id ss ≡ false
    → update s.id (migrating s.id) (migrating s.id) (ps ++ s ∷ ss) ≡ ok (ps ++ staged s ∷ ss)
unfolding update
stage_one ps s ss p l d =
    let i = s.id in
    let e : write i (migrating i) (migrating i) (ps ++ s ∷ ss) ≡ ps ++ staged s ∷ ss =
      write-append i (migrating i) (migrating i) ps (s ∷ ss)
      ∙ ap (λ xs. xs ++ write i (migrating i) (migrating i) (s ∷ ss)) (write_staged i ps p)
      ∙ ap (λ xs. ps ++ xs) (write_own s (migrating i) (migrating i) ss d) in
    ground (
      arith,
      any_append (held i (migrating i) (migrating i)) ps (s ∷ ss),
      held_staged i ps p,
      held_plain i ss l,
      e,
    )
