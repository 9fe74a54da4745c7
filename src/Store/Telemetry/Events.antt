-- ===== src/Store/Telemetry/Events.antt =====
-- The connection events that a report logs.
use mathlib.Core.Path.{subst}
use go_wireguard_mesh.Common.{
  ==_refl, Bool-cases, Dict, IsUnique, List, Option, Option-cases, String, [], any, arith,
  bytes_key, false, inl, inr, insert, insert-IsUnique, lookup, lookup-insert, nat_eq, nat_key, none,
  refl, some, sym, text_key, ℕ, ◌∙◌, ◌∷◌, ◌≡◌, ==_iff,
}
use go_wireguard_mesh.Store.{nullable, ok}
use go_wireguard_mesh.Store.Telemetry.{Event, PathRow, PathState, Tables, pair_eq_iff, pair_key}
use go_wireguard_mesh.Store.Telemetry.Apply.{
  apply_paths, connection_event_kind, current_path_states, logged, write_path,
}
use go_wireguard_mesh.Store.Telemetry.Totals.{resolves}

abbrev pub state_at : ℕ × ℕ → Dict (ℕ × ℕ) PathRow → Option String
state_at k m = elim (lookup k m) [ none ↦ none | some row ↦ some row.state ]

states_from :
    (i j : ℕ) (acc : Dict ℕ String) (m : Dict (ℕ × ℕ) PathRow)
    → IsUnique m
    → lookup j (current_path_states i acc m)
      ≡ elim (lookup (i, j) m) [ none ↦ lookup j acc | some row ↦ some row.state ]
unfolding lookup
states_from i j acc [] h = refl
states_from i j acc ((k, row) ∷ rest) h = elim (Bool-cases (nat_eq k.0 i)) [
  | inr e ↦ ground (arith, states_from i j acc rest h.1)
  | inl e ↦ ground (
    arith,
    states_from i j (insert k.1 row.state acc) rest h.1,
    lookup-insert k.1 j row.state acc,
    pair_eq_iff k (i, j),
    h.0,
  )
]

pub current_path_states_lem :
    (i j : ℕ) (m : Dict (ℕ × ℕ) PathRow)
    → IsUnique m
    → lookup j (current_path_states i [] m) ≡ state_at (i, j) m
unfolding lookup
current_path_states_lem i j m h = elim (Option-cases (lookup (i, j) m)) [
  | inl e ↦ ground (arith, states_from i j [] m h)
  | inr (row, e) ↦ ground (arith, states_from i j [] m h)
]

-- No peer is named twice.
abbrev pub IsOnce : Dict String ℕ → List PathState → Type 0
IsOnce ids [] = Unit
IsOnce ids (p ∷ ps) =
    ((j : ℕ) → lookup p.key ids ≡ some j → any (λ q. resolves (lookup q.key ids) j) ps ≡ false)
    × IsOnce ids ps

-- The states of the list are those of `f`.
abbrev pub HasStates : Dict String ℕ → (ℕ → Option String) → List PathState → Type 0
HasStates ids f [] = Unit
HasStates ids f (p ∷ ps) =
    ((j : ℕ) → lookup p.key ids ≡ some j → f j ≡ some p.state) × HasStates ids f ps

pub HasStates-ext :
    (ids : Dict String ℕ) (f g : ℕ → Option String) (ps : List PathState)
    → ((j : ℕ) → f j ≡ g j)
    → HasStates ids f ps
    → HasStates ids g ps
HasStates-ext ids f g [] e h = tt
HasStates-ext ids f g (p ∷ ps) e h = (λ j k. sym (e j) ∙ h.0 j k, HasStates-ext ids f g ps e h.1)

logged_same :
    (now i j : ℕ) (prev : Option String) (s : String) (es : List Event)
    → prev ≡ some s
    → logged now i j prev s es ≡ es
unfolding connection_event_kind
logged_same now i j none s es h = cc
logged_same now i j (some x) s es h = ground (arith, ==_refl s, ==_iff x s)

module _ (now i : ℕ) (ids : Dict String ℕ) where
  pub quiet :
      (prev : Dict ℕ String) (ps : List PathState) (t u : Tables)
      → HasStates ids (λ j. lookup j prev) ps
      → apply_paths now i ids prev ps t ≡ ok u
      → u.events ≡ t.events
  unfolding apply_paths
  quiet prev [] t u q h = ground arith
  quiet prev (p ∷ ps) t u q h = elim (Option-cases (lookup p.key ids)) [
    | inl e ↦ ground (arith, quiet prev ps t u q.1)
    | inr (j, e) ↦ ground (
      arith,
      logged_same now i j (lookup j prev) p.state t.events (q.0 j e),
      quiet prev ps (write_path now i j prev p t) u q.1,
    )
  ]

  others_kept :
      (prev : Dict ℕ String) (j : ℕ) (ps : List PathState) (t u : Tables)
      → any (λ q. resolves (lookup q.key ids) j) ps ≡ false
      → apply_paths now i ids prev ps t ≡ ok u
      → state_at (i, j) u.paths ≡ state_at (i, j) t.paths
  unfolding apply_paths
  others_kept prev j [] t u n h = ground arith
  others_kept prev j (p ∷ ps) t u n h = elim (Option-cases (lookup p.key ids)) [
    | inl e ↦ ground (arith, others_kept prev j ps t u)
    | inr (k, e) ↦ ground (
      arith,
      lookup-insert (i, k) (i, j)
          (record { state = p.state; endpoint = nullable p.endpoint; updated_at = now }) t.paths,
      others_kept prev j ps (write_path now i k prev p t) u,
    )
  ]

  pub written :
      (prev : Dict ℕ String) (ps : List PathState) (t u : Tables)
      → IsOnce ids ps
      → apply_paths now i ids prev ps t ≡ ok u
      → HasStates ids (λ j. state_at (i, j) u.paths) ps
  unfolding apply_paths
  written prev [] t u o h = tt
  written prev (p ∷ ps) t u o h = elim (Option-cases (lookup p.key ids)) [
    | inl e ↦ (λ j k. ground arith, written prev ps t u o.1 (ground arith))
    | inr (j, e) ↦
        let v = write_path now i j prev p t in
        let g : apply_paths now i ids prev ps v ≡ ok u = ground arith in
        (
          λ k f. ground (
            arith,
            others_kept prev k ps v u (o.0 k f) g,
            lookup-insert (i, j) (i, k)
                (record { state = p.state; endpoint = nullable p.endpoint; updated_at = now })
                t.paths,
          ),
          written prev ps v u o.1 g,
        )
  ]

  pub paths-IsUnique :
      (prev : Dict ℕ String) (ps : List PathState) (t u : Tables)
      → IsUnique t.paths
      → apply_paths now i ids prev ps t ≡ ok u
      → IsUnique u.paths
  unfolding apply_paths
  paths-IsUnique prev [] t u w h =
      let e : t ≡ u = ground arith in subst (λ (x : Tables). IsUnique x.paths) e w
  paths-IsUnique prev (p ∷ ps) t u w h = elim (Option-cases (lookup p.key ids)) [
    | inl e ↦ paths-IsUnique prev ps t u w (ground arith)
    | inr (j, e) ↦
        paths-IsUnique prev ps (write_path now i j prev p t) u
          (insert-IsUnique (i, j)
            (record { state = p.state; endpoint = nullable p.endpoint; updated_at = now }) t.paths
            w)
          (ground arith)
  ]
