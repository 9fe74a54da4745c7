-- ===== src/Store/Telemetry/Known.antt =====
-- `ApplyReport` for a reporter that has a row.
use go_wireguard_mesh.Common.{
  Bool-cases, Dict, List, Option-cases, String, [], arith, bytes_key, inl, inr, insert, lookup,
  nat_eq, nat_key, refl, text_key, true, ℕ, ◌++◌, ◌∙◌, ◌∷◌, ◌≡◌,
}
use go_wireguard_mesh.Store.{Peer, ok}
use go_wireguard_mesh.Store.Telemetry.{
  Access, Counter, Flow, PathState, Report, Tables, has_peer, pair_key,
}
use go_wireguard_mesh.Store.Telemetry.Apply.{
  access_row, apply_counters, apply_flows, apply_paths, apply_proxy_events, current_path_states,
  peer_ids_by_public_key, report_body, touch, update_peer, upsert_link, write_path,
}
use go_wireguard_mesh.Store.Telemetry.Reports.{counters_db, flows_keep, paths_keep}

touch-has_peer :
    (i a : ℕ) (o : String) (r : Report) (ps : List Peer)
    → has_peer a (touch i o r ps) ≡ has_peer a ps
touch-has_peer i a o r [] = refl
touch-has_peer i a o r (p ∷ ps) = ground (arith, touch-has_peer i a o r ps)

pub touch-ids :
    (i : ℕ) (o : String) (r : Report) (m : Dict String ℕ) (ps : List Peer)
    → peer_ids_by_public_key m (touch i o r ps) ≡ peer_ids_by_public_key m ps
touch-ids i o r m [] = refl
touch-ids i o r m (p ∷ ps) = elim (Bool-cases (nat_eq p.id i)) [
  | inl e ↦ ground (arith, touch-ids i o r (insert p.public_key p.id m) ps)
  | inr e ↦ ground (arith, touch-ids i o r (insert p.public_key p.id m) ps)
]

pub update_peer-has_peer :
    (now i a : ℕ) (o : String) (r : Report) (t : Tables)
    → has_peer a (update_peer now i o r t).db.peers ≡ has_peer a t.db.peers
unfolding update_peer
update_peer-has_peer now i a o r t = touch-has_peer i a o r t.db.peers

pub update_peer-ids :
    (now i : ℕ) (o : String) (r : Report) (t : Tables)
    → peer_ids_by_public_key [] (update_peer now i o r t).db.peers
      ≡ peer_ids_by_public_key [] t.db.peers
unfolding update_peer
update_peer-ids now i o r t = touch-ids i o r [] t.db.peers

module _ (now i : ℕ) where
  counters_ok :
      (ids : Dict String ℕ) (cs : List Counter) (t : Tables)
      → has_peer i t.db.peers ≡ true
      → (u : Tables) × (apply_counters now i ids cs t ≡ ok u)
  unfolding apply_counters
  counters_ok ids [] t h = (t, refl)
  counters_ok ids (c ∷ cs) t h = elim (Option-cases (lookup c.key ids)) [
    | inl e ↦ let u = counters_ok ids cs t h in (u.0, ground (arith, u.1))
    | inr (j, e) ↦
        let u = counters_ok ids cs (record t { links = upsert_link now (i, j) c t.links }) h in
        (u.0, ground (arith, u.1))
  ]

  paths_ok :
      (ids : Dict String ℕ) (prev : Dict ℕ String) (ps : List PathState) (t : Tables)
      → has_peer i t.db.peers ≡ true
      → (u : Tables) × (apply_paths now i ids prev ps t ≡ ok u)
  unfolding apply_paths
  paths_ok ids prev [] t h = (t, refl)
  paths_ok ids prev (p ∷ ps) t h = elim (Option-cases (lookup p.key ids)) [
    | inl e ↦ let u = paths_ok ids prev ps t h in (u.0, ground (arith, u.1))
    | inr (j, e) ↦
        let u = paths_ok ids prev ps (write_path now i j prev p t) h in (u.0, ground (arith, u.1))
  ]

  flows_ok :
      (fs : List Flow) (t : Tables)
      → has_peer i t.db.peers ≡ true
      → (u : Tables) × (apply_flows now i fs t ≡ ok u)
  unfolding apply_flows
  flows_ok [] t h = (t, refl)
  flows_ok (f ∷ fs) t h =
      let u =
        flows_ok fs
          (record t { flows = t.flows ++ record { peer = i; flow = f; reported_at = now } ∷ [] })
          h in
      (u.0, ground (arith, u.1))

  proxy_ok :
      (now_text : String) (es : List Access) (t : Tables)
      → has_peer i t.db.peers ≡ true
      → (u : Tables) × (apply_proxy_events now_text i es t ≡ ok u)
  unfolding apply_proxy_events
  proxy_ok now_text [] t h = (t, refl)
  proxy_ok now_text (e ∷ es) t h =
      let u =
        proxy_ok now_text es (record t { accesses = t.accesses ++ access_row now_text i e ∷ [] })
          h in
      (u.0, ground (arith, u.1))

  -- A report of a peer that has a row succeeds.
  pub report_body_ok :
      (now_text observed : String) (r : Report) (t : Tables)
      → has_peer i t.db.peers ≡ true
      → (w : Tables) × (report_body now now_text i observed r t ≡ ok w)
  unfolding report_body
  report_body_ok now_text observed r t h =
      let ids = peer_ids_by_public_key [] t.db.peers in
      let a =
        counters_ok ids r.counters (update_peer now i observed r t)
          (update_peer-has_peer now i i observed r t ∙ h) in
      let ha : has_peer i (a.0).db.peers ≡ true = ground (
        arith,
        a.1,
        counters_db now i ids r.counters (update_peer now i observed r t) a.0 a.1,
        update_peer-has_peer now i i observed r t,
      ) in
      let b = paths_ok ids (current_path_states i [] (a.0).paths) r.path_states a.0 ha in
      let hb : has_peer i (b.0).db.peers ≡ true = ground (
        arith,
        paths_keep now i ids (current_path_states i [] (a.0).paths) r.path_states a.0 b.0 b.1,
      ) in
      let c = flows_ok r.flows b.0 hb in
      let hc : has_peer i (c.0).db.peers ≡ true =
        ground (arith, flows_keep now i r.flows b.0 c.0 c.1) in
      let d = proxy_ok now_text r.proxy_events c.0 hc in (d.0, ground (arith, a.1, b.1, c.1, d.1))
