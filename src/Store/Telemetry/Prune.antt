-- ===== src/Store/Telemetry/Prune.antt =====
-- `PruneFlows` of internal/store/telemetry.go and `PruneConnectionEvents` of
-- internal/store/connections.go. A cutoff before the start of time is 0, before which there is no
-- row either.
use mathlib.Core.Path.{subst}
use go_wireguard_mesh.Common.{
  All, Bool, Bool-cases, List, [], arith, if◌then◌else◌, inl, inr, keep, length, ltb, not, refl,
  sym, true, ℕ, ◌+◌, ◌-◌, ◌∷◌, ◌≡◌,
}
use go_wireguard_mesh.Store.Telemetry.{Tables}

-- `DELETE … WHERE reported_at < ?` and the number of rows.
unfoldable pub prune_flows : ℕ → ℕ → Tables → Tables × ℕ
prune_flows now retention t = (
  record t { flows = keep (λ r. not (ltb r.reported_at (now - retention))) t.flows },
  length (keep (λ r. ltb r.reported_at (now - retention)) t.flows),
)

unfoldable pub prune_connection_events : ℕ → ℕ → Tables → Tables × ℕ
prune_connection_events now retention t = (
  record t { events = keep (λ e. not (ltb e.at (now - retention))) t.events },
  length (keep (λ e. ltb e.at (now - retention)) t.events),
)

module _ {A : Type 0} (f : A → Bool) where
  kept_length : (xs : List A) → length (keep (λ x. not (f x)) xs) + length (keep f xs) ≡ length xs
  kept_length [] = refl
  kept_length (x ∷ xs) = ground (arith, kept_length xs)

  kept_all : (xs : List A) → All (λ x. f x ≡ true) (keep f xs)
  kept_all [] = tt
  kept_all (x ∷ xs) = elim (Bool-cases (f x)) [
    | inl e ↦
        subst (λ (b : Bool). All (λ y. f y ≡ true) (if b then x ∷ keep f xs else keep f xs)) (sym e)
          (e, kept_all xs)
    | inr e ↦
        subst (λ (b : Bool). All (λ y. f y ≡ true) (if b then x ∷ keep f xs else keep f xs)) (sym e)
          (kept_all xs)
  ]

-- A flow that is not older than the retention stays, in the order of the table; the others go, and
-- are counted.
pub prune_flows_lem :
    (now retention : ℕ) (t : Tables)
    → (length (prune_flows now retention t).0.flows + (prune_flows now retention t).1
        ≡ length t.flows)
      × All
          (λ r. not (ltb r.reported_at (now - retention)) ≡ true)
          (prune_flows now retention t).0.flows
unfolding prune_flows
prune_flows_lem now retention t = (
  kept_length (λ r. ltb r.reported_at (now - retention)) t.flows,
  kept_all (λ r. not (ltb r.reported_at (now - retention))) t.flows,
)
