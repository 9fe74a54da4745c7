-- ===== src/Firewall/Restarted.antt =====
-- `OpenWithReconcile` cleans up after a run that was killed.
use go_wireguard_mesh.Firewall.{
  Backend, Cmd, Manager, Rule, allow, open_with_reconcile, reconcile, remove_all, remove_reversed,
  run_each,
}
use go_wireguard_mesh.Firewall.Restored.{
  Undoes, allow_all, AllOpened, opened_manager, allow_opened, all_opened, removed,
}
use go_wireguard_mesh.Common.{
  Bool, List, Option, String, [], ap, arith, none, refl, some, true, ◌++◌, ◌∙◌, ◌∷◌, ◌≡◌,
}

module _ {H : Type 0} (run : Cmd → H → H × Bool) where
  -- Removals may be made in either order.
  abbrev pub Commutes : Backend → String → Type 0
  Commutes b tag =
      (r s : Rule) (h : H)
      → run_each run (b.remove_cmds tag r) (run_each run (b.remove_cmds tag s) h)
        ≡ run_each run (b.remove_cmds tag s) (run_each run (b.remove_cmds tag r) h)

  remove_all-run_each :
      (b : Backend) (tag : String) (r : Rule) (rs : List Rule) (h : H)
      → Commutes b tag
      → remove_all run b tag rs (run_each run (b.remove_cmds tag r) h)
        ≡ run_each run (b.remove_cmds tag r) (remove_all run b tag rs h)
  remove_all-run_each b tag r [] h c = refl
  remove_all-run_each b tag r (s ∷ rs) h c =
      ap (remove_all run b tag rs) (c s r h)
      ∙ remove_all-run_each b tag r rs (run_each run (b.remove_cmds tag s) h) c

  remove_all_reversed :
      (b : Backend) (tag : String) (rs : List Rule) (h : H)
      → Commutes b tag
      → remove_all run b tag rs h ≡ remove_reversed run b tag rs h
  remove_all_reversed b tag [] h c = refl
  remove_all_reversed b tag (r ∷ rs) h c =
      remove_all-run_each b tag r rs h c
      ∙ ap (run_each run (b.remove_cmds tag r)) (remove_all_reversed b tag rs h c)

  -- A state file that holds the rules of its manager.
  abbrev pub IsFiled : Manager → Type 0
  IsFiled m = (m.has_file ≡ true) × (m.file ≡ some m.rules)

  module _ (IsFresh : Rule → H → Type 0) where
    allow-IsFiled :
        (b : Backend) (r : Rule) (m : Manager) (h : H)
        → m.backend ≡ some b
        → m.has_file ≡ true
        → (allow run r m h).2 ≡ true
        → IsFiled (allow run r m h).0
    allow-IsFiled b r m h e f k = ground (arith, f, (allow_opened run IsFresh b r m h e k).1)

    allow_all-IsFiled :
        (b : Backend) (rs : List Rule) (m : Manager) (h : H)
        → m.backend ≡ some b
        → IsFiled m
        → AllOpened run IsFresh rs m h
        → IsFiled (allow_all run IsFresh rs m h).0
    allow_all-IsFiled b [] m h e f o = f
    allow_all-IsFiled b (r ∷ rs) m h e f o =
        let x = allow run r m h in
        let k = opened_manager run IsFresh b r m h e o.1 in
        allow_all-IsFiled b rs x.0 x.1 k.0 (allow-IsFiled b r m h e f.0 o.1) o.2

    reconciled :
        (b : Backend) (tag : String) (rs : List Rule) (h : H) (file : Option (List Rule))
        → file ≡ some rs
        → b.teardown_cmds tag ≡ none
        → let x = open_with_reconcile run tag (some b) file h in
          (x.1 ≡ remove_all run b tag rs h) × (x.0.rules ≡ []) × (x.0.file ≡ none)
    unfolding open_with_reconcile reconcile
    reconciled b tag rs h file q t = ground (arith, q, t)

    -- With a backend without a teardown whose removals undo what they removed, in either order:
    -- when a run that opened rules, each on a host where it was new, is killed before `Close`, the
    -- next start leaves the host as it was before the first rule, with no rule and no state file.
    pub open_with_reconcile-allow_all :
        (b : Backend) (r : Rule) (rs : List Rule) (m : Manager) (h : H)
        → m.backend ≡ some b
        → m.rules ≡ []
        → m.has_file ≡ true
        → b.teardown_cmds m.tag ≡ none
        → Undoes run IsFresh b m.tag
        → Commutes b m.tag
        → AllOpened run IsFresh (r ∷ rs) m h
        → let o = allow_all run IsFresh (r ∷ rs) m h in
          let x = open_with_reconcile run m.tag (some b) o.0.file o.1 in
          (x.1 ≡ h) × (x.0.rules ≡ []) × (x.0.file ≡ none)
    open_with_reconcile-allow_all b r rs m h e n f t u c o =
        let y = allow run r m h in
        let x = allow_all run IsFresh (r ∷ rs) m h in
        let k = opened_manager run IsFresh b r m h e o.1 in
        let w = allow_all-IsFiled b rs y.0 y.1 k.0 (allow-IsFiled b r m h e f o.1) o.2 in
        let a = all_opened run IsFresh b (r ∷ rs) m h e o in
        let q : x.0.rules ≡ r ∷ rs = a.2 ∙ ap (λ (ys : List Rule). ys ++ r ∷ rs) n in
        let z = reconciled b m.tag (r ∷ rs) x.1 x.0.file (w.1 ∙ ap some q) t in
        (
          z.0
              ∙ remove_all_reversed b m.tag (r ∷ rs) x.1 c
              ∙ removed run IsFresh b (r ∷ rs) m h e u o,
          z.1,
          z.2,
        )
