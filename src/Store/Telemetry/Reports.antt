-- ===== src/Store/Telemetry/Reports.antt =====
-- `ApplyReport` as a whole, and reports in a row.
use go_wireguard_mesh.Common.{
  Dict, List, Option-cases, String, [], arith, bytes_key, false, inl, inr, lookup, nat_key, refl,
  text_key, ℕ, ◌++◌, ◌∷◌, ◌≡◌, ◌∙◌,
}
use go_wireguard_mesh.Store.{Result-cases, ok}
use go_wireguard_mesh.Store.Telemetry.{
  Access, Counter, Flow, PathState, Report, Tables, has_peer, pair_key,
}
use go_wireguard_mesh.Store.Telemetry.Apply.{
  access_row, apply_counters, apply_flows, apply_paths, apply_proxy_events, current_path_states,
  peer_ids_by_public_key, report_body, update_peer, upsert_link, write_path,
}

module _ (now i : ℕ) where
  pub counters_db :
      (ids : Dict String ℕ) (cs : List Counter) (t u : Tables)
      → apply_counters now i ids cs t ≡ ok u
      → u.db ≡ t.db
  unfolding apply_counters
  counters_db ids [] t u h = ground arith
  counters_db ids (c ∷ cs) t u h = elim (Option-cases (lookup c.key ids)) [
    | inl e ↦ ground (arith, counters_db ids cs t u)
    | inr (j, e) ↦
        ground (arith, counters_db ids cs (record t { links = upsert_link now (i, j) c t.links }) u)
  ]

  counters_paths :
      (ids : Dict String ℕ) (cs : List Counter) (t u : Tables)
      → apply_counters now i ids cs t ≡ ok u
      → (u.paths ≡ t.paths) × (u.events ≡ t.events)
  unfolding apply_counters
  counters_paths ids [] t u h = ground arith
  counters_paths ids (c ∷ cs) t u h = elim (Option-cases (lookup c.key ids)) [
    | inl e ↦ ground (arith, counters_paths ids cs t u)
    | inr (j, e) ↦
        ground
          (arith, counters_paths ids cs (record t { links = upsert_link now (i, j) c t.links }) u)
  ]

  updated_paths :
      (observed : String) (r : Report) (t : Tables)
      → ((update_peer now i observed r t).paths ≡ t.paths)
        × ((update_peer now i observed r t).events ≡ t.events)
  unfolding update_peer
  updated_paths observed r t = (refl, refl)

  pub counters_unknown :
      (ids : Dict String ℕ) (cs : List Counter) (t u : Tables)
      → has_peer i t.db.peers ≡ false
      → apply_counters now i ids cs t ≡ ok u
      → u.links ≡ t.links
  unfolding apply_counters
  counters_unknown ids [] t u p h = ground arith
  counters_unknown ids (c ∷ cs) t u p h = elim (Option-cases (lookup c.key ids)) [
    | inl e ↦ ground (arith, counters_unknown ids cs t u)
    | inr (j, e) ↦ ground arith
  ]

  pub paths_keep :
      (ids : Dict String ℕ) (prev : Dict ℕ String) (ps : List PathState) (t u : Tables)
      → apply_paths now i ids prev ps t ≡ ok u
      → (u.db ≡ t.db) × (u.links ≡ t.links)
  unfolding apply_paths
  paths_keep ids prev [] t u h = ground arith
  paths_keep ids prev (p ∷ ps) t u h = elim (Option-cases (lookup p.key ids)) [
    | inl e ↦ ground (arith, paths_keep ids prev ps t u)
    | inr (j, e) ↦ ground (arith, paths_keep ids prev ps (write_path now i j prev p t) u)
  ]

  pub flows_keep :
      (fs : List Flow) (t u : Tables)
      → apply_flows now i fs t ≡ ok u
      → (u.db ≡ t.db) × (u.links ≡ t.links) × (u.paths ≡ t.paths) × (u.events ≡ t.events)
  unfolding apply_flows
  flows_keep [] t u h = ground arith
  flows_keep (f ∷ fs) t u h = ground (
    arith,
    flows_keep fs
        (record t { flows = t.flows ++ record { peer = i; flow = f; reported_at = now } ∷ [] }) u,
  )

  pub proxy_keep :
      (now_text : String) (es : List Access) (t u : Tables)
      → apply_proxy_events now_text i es t ≡ ok u
      → (u.db ≡ t.db) × (u.links ≡ t.links) × (u.paths ≡ t.paths) × (u.events ≡ t.events)
  unfolding apply_proxy_events
  proxy_keep now_text [] t u h = ground arith
  proxy_keep now_text (e ∷ es) t u h = ground (
    arith,
    proxy_keep now_text es (record t { accesses = t.accesses ++ access_row now_text i e ∷ [] }) u,
  )

  -- The stages of a report that succeeds.
  pub record Stages (now_text observed : String) (r : Report) (t w : Tables) : Type 0 where
    pub ids : Dict String ℕ
    pub counted : Tables
    pub pathed : Tables
    pub ids_eq : ids ≡ peer_ids_by_public_key [] t.db.peers
    pub counted_eq :
        apply_counters now i ids r.counters (update_peer now i observed r t) ≡ ok counted
    pub pathed_eq :
        apply_paths now i ids (current_path_states i [] counted.paths) r.path_states counted
        ≡ ok pathed
    pub counted_paths : counted.paths ≡ t.paths
    pub counted_events : counted.events ≡ t.events
    pub db_eq : w.db ≡ (update_peer now i observed r t).db
    pub links_eq : w.links ≡ counted.links
    pub paths_eq : w.paths ≡ pathed.paths
    pub events_eq : w.events ≡ pathed.events

  pub report-Stages :
      (now_text observed : String) (r : Report) (t w : Tables)
      → report_body now now_text i observed r t ≡ ok w
      → Stages now_text observed r t w
  unfolding report_body
  report-Stages now_text observed r t w h =
      let ids = peer_ids_by_public_key [] t.db.peers in
      elim (Result-cases (apply_counters now i ids r.counters (update_peer now i observed r t))) [
        | inr (e, a) ↦ ground arith
        | inl (u, a) ↦
            elim (Result-cases
              (apply_paths now i ids (current_path_states i [] u.paths) r.path_states u)) [
                | inr (e, b) ↦ ground arith
                | inl (v, b) ↦ elim (Result-cases (apply_flows now i r.flows v)) [
                  | inr (e, c) ↦ ground arith
                  | inl (x, c) ↦
                      let d : apply_proxy_events now_text i r.proxy_events x ≡ ok w =
                        ground arith in
                      let y = proxy_keep now_text r.proxy_events x w d in
                      let f = flows_keep r.flows v x c in
                      let p =
                        paths_keep ids (current_path_states i [] u.paths) r.path_states u v b in
                      let k = counters_paths ids r.counters (update_peer now i observed r t) u a in
                      let m = updated_paths observed r t in
                      record {
                        ids = ids;
                        counted = u;
                        pathed = v;
                        ids_eq = refl;
                        counted_eq = a;
                        pathed_eq = b;
                        counted_paths = k.0 ∙ m.0;
                        counted_events = k.1 ∙ m.1;
                        db_eq =
                            y.0
                            ∙ f.0
                            ∙ p.0
                            ∙ counters_db ids r.counters (update_peer now i observed r t) u a;
                        links_eq = y.1 ∙ f.1 ∙ p.1;
                        paths_eq = y.2 ∙ f.2;
                        events_eq = y.3 ∙ f.3;
                      }
                ]
              ]
      ]
