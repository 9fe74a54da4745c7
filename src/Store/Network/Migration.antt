-- ===== src/Store/Network/Migration.antt =====
-- `ApplyNetworkMigration` as a whole.
use go_wireguard_mesh.Common.{
  All, All-append, All-imp, List, [], any, ap, arith, false, nat_eq, refl, some, sym, ℕ, ◌++◌, ◌+◌,
  ◌<◌, ◌∙◌, ◌∷◌, ◌≡◌, Bool, append_assoc, if◌then◌else◌, leb, length, ◌&&◌, ◌-◌,
}
use go_wireguard_mesh.Store.{ok, err, no_free_address}
use go_wireguard_mesh.Store.Network.{
  Slot, address, apply, held, migrating, stage, update, write, apply_network_migration,
  build_network_migration_plan,
}
use go_wireguard_mesh.Store.Network.Passes.{
  IdsDiffer, IsSettledSlot, IsStaged, all_moved, all_staged, has_id, moved, planned, stage_one,
  staged, write-append, write_absent, write_own, changes-upward,
}
use go_wireguard_mesh.Store.Rows.{any_append}
use go_wireguard_mesh.Store.Address.{Prefix}
use go_wireguard_mesh.Store.Network.Hosts.{first_overlay_hosts_lem}

stage-all :
    (a b : ℕ) (ps ss : List Slot)
    → All IsStaged ps
    → All IsSettledSlot ss
    → IdsDiffer ss
    → stage (planned a b ss) (ps ++ ss) ≡ ok (ps ++ all_staged ss)
unfolding stage
stage-all a b ps [] p l d = refl
stage-all a b ps (s ∷ ss) p l d =
    let one : update s.id (migrating s.id) (migrating s.id) (ps ++ s ∷ ss)
        ≡ ok (ps ++ staged s ∷ ss) =
      stage_one ps s ss p l.1 d.0 in
    let q : All IsStaged (ps ++ staged s ∷ []) =
      All-append IsStaged ps (staged s ∷ []) p ((refl, refl), tt) in
    let rest = stage-all (a + 1) (b + 1) (ps ++ staged s ∷ []) ss q l.1 d.1 in
    let x : (ps ++ staged s ∷ []) ++ ss ≡ ps ++ staged s ∷ ss =
      append_assoc ps (staged s ∷ []) ss in
    let y : (ps ++ staged s ∷ []) ++ all_staged ss ≡ ps ++ staged s ∷ all_staged ss =
      append_assoc ps (staged s ∷ []) (all_staged ss) in
    let go : stage (planned (a + 1) (b + 1) ss) (ps ++ staged s ∷ ss)
        ≡ ok (ps ++ staged s ∷ all_staged ss) =
      ap (λ z. stage (planned (a + 1) (b + 1) ss) z) (sym x) ∙ rest ∙ ap (λ z. ok z) y in
    ground (arith, one, go)

-- Rows with addresses below the next ones.
abbrev IsBelow : ℕ → ℕ → Slot → Type 0
IsBelow a b s =
    (x : ℕ) × (y : ℕ) × (s.ip ≡ address x) × (s.ip6 ≡ some (address y)) × (x < a) × (y < b)

-- No row of `ss` has the id of a row of `ps`.
abbrev IsApart : List Slot → List Slot → Type 0
IsApart ps [] = Unit
IsApart ps (s ∷ ss) = (has_id s.id ps ≡ false) × IsApart ps ss

held_below :
    (i a b : ℕ) (ps : List Slot)
    → All (IsBelow a b) ps
    → any (held i (address a) (address b)) ps ≡ false
held_below i a b [] h = refl
held_below i a b (p ∷ ps) h =
    let (x, y, e, f, l, m) = h.0 in ground (arith, held_below i a b ps h.1, e, f, l, m)

held-all_staged :
    (i a b : ℕ) (ss : List Slot) → any (held i (address a) (address b)) (all_staged ss) ≡ false
held-all_staged i a b [] = refl
held-all_staged i a b (s ∷ ss) = ground (arith, held-all_staged i a b ss)

id_staged : (i : ℕ) (ss : List Slot) → has_id i (all_staged ss) ≡ has_id i ss
id_staged i [] = refl
id_staged i (s ∷ ss) = ground (arith, id_staged i ss)

IsBelow-more : (a b : ℕ) (ps : List Slot) → All (IsBelow a b) ps → All (IsBelow (a + 1) (b + 1)) ps
IsBelow-more a b ps h =
    All-imp (IsBelow a b) (IsBelow (a + 1) (b + 1)) ps
      (λ s k. (k.0, k.1, k.2, k.3, omega (arith, k.4), omega (arith, k.5))) h

IsApart-more :
    (a b : ℕ) (ps : List Slot) (s : Slot) (ss : List Slot)
    → has_id s.id ss ≡ false
    → IsApart ps ss
    → IsApart (ps ++ moved a b s ∷ []) ss
IsApart-more a b ps s [] d h = tt
IsApart-more a b ps s (t ∷ ts) d h = ground (
  arith,
  any_append (λ x. nat_eq x.id t.id) ps (moved a b s ∷ []),
  IsApart-more a b ps s ts,
  h.0,
  h.1,
)

apply_one :
    (a b : ℕ) (ps : List Slot) (s : Slot) (ss : List Slot)
    → All (IsBelow a b) ps
    → has_id s.id ps ≡ false
    → has_id s.id ss ≡ false
    → update s.id (address a) (address b) (ps ++ staged s ∷ all_staged ss)
      ≡ ok (ps ++ moved a b s ∷ all_staged ss)
unfolding update
apply_one a b ps s ss p n d =
    let i = s.id in
    let m : has_id i (all_staged ss) ≡ false = id_staged i ss ∙ d in
    let e : write i (address a) (address b) (ps ++ staged s ∷ all_staged ss)
        ≡ ps ++ moved a b s ∷ all_staged ss =
      write-append i (address a) (address b) ps (staged s ∷ all_staged ss)
      ∙ ap (λ xs. xs ++ write i (address a) (address b) (staged s ∷ all_staged ss))
          (write_absent i (address a) (address b) ps n)
      ∙ ap (λ xs. ps ++ xs) (write_own (staged s) (address a) (address b) (all_staged ss) m) in
    ground (
      arith,
      any_append (held i (address a) (address b)) ps (staged s ∷ all_staged ss),
      held_below i a b ps p,
      held-all_staged i a b ss,
      e,
    )

apply-all :
    (a b : ℕ) (ps ss : List Slot)
    → All (IsBelow a b) ps
    → IsApart ps ss
    → IdsDiffer ss
    → apply (planned a b ss) (ps ++ all_staged ss) ≡ ok (ps ++ all_moved a b ss)
unfolding apply
apply-all a b ps [] p n d = refl
apply-all a b ps (s ∷ ss) p n d =
    let one = apply_one a b ps s ss p n.0 d.0 in
    let q : All (IsBelow (a + 1) (b + 1)) (ps ++ moved a b s ∷ []) =
      All-append (IsBelow (a + 1) (b + 1)) ps (moved a b s ∷ []) (IsBelow-more a b ps p)
        ((a, b, refl, refl, omega arith, omega arith), tt) in
    let rest =
      apply-all (a + 1) (b + 1) (ps ++ moved a b s ∷ []) ss q (IsApart-more a b ps s ss d.0 n.1)
        d.1 in
    let x : (ps ++ moved a b s ∷ []) ++ all_staged ss ≡ ps ++ moved a b s ∷ all_staged ss =
      append_assoc ps (moved a b s ∷ []) (all_staged ss) in
    let y : (ps ++ moved a b s ∷ []) ++ all_moved (a + 1) (b + 1) ss
        ≡ ps ++ moved a b s ∷ all_moved (a + 1) (b + 1) ss =
      append_assoc ps (moved a b s ∷ []) (all_moved (a + 1) (b + 1) ss) in
    let go : apply (planned (a + 1) (b + 1) ss) (ps ++ moved a b s ∷ all_staged ss)
        ≡ ok (ps ++ moved a b s ∷ all_moved (a + 1) (b + 1) ss) =
      ap (λ z. apply (planned (a + 1) (b + 1) ss) z) (sym x) ∙ rest ∙ ap (λ z. ok z) y in
    ground (arith, one, go)

IsApart-nil : (ss : List Slot) → IsApart [] ss
IsApart-nil [] = tt
IsApart-nil (s ∷ ss) = (refl, IsApart-nil ss)

-- Whether a network has n hosts.
abbrev pub has_room : Prefix → ℕ → Bool
has_room p n = leb n (p.size - 1)

plan_lem :
    (target4 target6 : Prefix) (ss : List Slot)
    → build_network_migration_plan ss target4 target6 ≡ (
        if has_room target4 (length ss) && has_room target6 (length ss)
        then ok (planned (target4.addr + 1) (target6.addr + 1) ss)
        else err no_free_address)
unfolding build_network_migration_plan
plan_lem target4 target6 ss = ground (
  arith,
  first_overlay_hosts_lem target4 (length ss),
  first_overlay_hosts_lem target6 (length ss),
  changes-upward (target4.addr + 1) (target6.addr + 1) ss,
)

-- A migration of rows that are not in the middle of one succeeds exactly when both target networks
-- have a host for every peer, and else changes nothing: no step of it meets a UNIQUE constraint, even
-- where the new network shares addresses with the old one. Afterwards the peers, in the order of
-- their ids, hold the first hosts of the two networks, and the plan says so.
pub apply_network_migration_lem :
    (target4 target6 : Prefix) (ss : List Slot)
    → IdsDiffer ss
    → All IsSettledSlot ss
    → apply_network_migration target4 target6 ss ≡ (
        if has_room target4 (length ss) && has_room target6 (length ss)
        then ok (
          all_moved (target4.addr + 1) (target6.addr + 1) ss,
          planned (target4.addr + 1) (target6.addr + 1) ss,
        )
        else err no_free_address)
unfolding apply_network_migration
apply_network_migration_lem target4 target6 ss d l = ground (
  arith,
  plan_lem target4 target6 ss,
  stage-all (target4.addr + 1) (target6.addr + 1) [] ss tt l d,
  apply-all (target4.addr + 1) (target6.addr + 1) [] ss tt (IsApart-nil ss) d,
)
