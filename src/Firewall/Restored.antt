-- ===== src/Firewall/Restored.antt =====
-- `Close` takes back what was opened.
use mathlib.Core.Path.{subst}
use go_wireguard_mesh.Common.{
  Bool, List, String, [], true, ◌∷◌, ◌≡◌, Bool-cases, arith, inl, inr, some, ◌++◌, ap, append_assoc,
  append_nil, none, refl, sym, ◌∙◌,
}
use go_wireguard_mesh.Firewall.{
  Backend, Cmd, Manager, Rule, allow, run_each, run_until, persist, close, remove_reversed,
}

module _ {H : Type 0} (run : Cmd → H → H × Bool) (IsFresh : Rule → H → Type 0) where
  -- On a host where a rule is new, its removal takes back what its commands did when all of them
  -- succeeded.
  abbrev pub Undoes : Backend → String → Type 0
  Undoes b tag =
      (r : Rule) (h : H)
      → IsFresh r h
      → (run_until run (b.allow_cmds tag r) h).1 ≡ true
      → run_each run (b.remove_cmds tag r) (run_until run (b.allow_cmds tag r) h).0 ≡ h

  -- Calls of `allow` in a row.
  abbrev pub allow_all : List Rule → Manager → H → Manager × H
  allow_all [] m h = (m, h)
  allow_all (r ∷ rs) m h = let o = allow run r m h in allow_all rs o.0 o.1

  -- Each rule is new where it is opened, and is opened.
  abbrev pub AllOpened : List Rule → Manager → H → Type 0
  AllOpened [] m h = Unit
  AllOpened (r ∷ rs) m h =
      let o = allow run r m h in IsFresh r h × (o.2 ≡ true) × AllOpened rs o.0 o.1

  pub allow_opened :
      (b : Backend) (r : Rule) (m : Manager) (h : H)
      → m.backend ≡ some b
      → (allow run r m h).2 ≡ true
      → let o = run_until run (b.allow_cmds m.tag r) h in
        (o.1 ≡ true)
        × (allow run r m h ≡ (persist run (record m { rules = m.rules ++ r ∷ [] }), o.0, true))
  unfolding allow
  allow_opened b r m h e k = elim (Bool-cases (run_until run (b.allow_cmds m.tag r) h).1) [
    | inl t ↦ (t, ground arith)
    | inr t ↦ absurd (ground arith)
  ]

  -- What `allow` keeps, where it opens the rule.
  pub opened_manager :
      (b : Backend) (r : Rule) (m : Manager) (h : H)
      → m.backend ≡ some b
      → (allow run r m h).2 ≡ true
      → let n = (allow run r m h).0 in
        (n.backend ≡ some b) × (n.tag ≡ m.tag) × (n.rules ≡ m.rules ++ r ∷ [])
  opened_manager b r m h e k = ground (arith, (allow_opened b r m h e k).1)

  pub all_opened :
      (b : Backend) (rs : List Rule) (m : Manager) (h : H)
      → m.backend ≡ some b
      → AllOpened rs m h
      → let n = (allow_all rs m h).0 in
        (n.backend ≡ some b) × (n.tag ≡ m.tag) × (n.rules ≡ m.rules ++ rs)
  all_opened b [] m h e o = (e, refl, sym (append_nil m.rules))
  all_opened b (r ∷ rs) m h e o =
      let x = allow run r m h in
      let k = opened_manager b r m h e o.1 in
      let i = all_opened b rs x.0 x.1 k.0 o.2 in
      (
        i.0,
        i.1 ∙ k.1,
        i.2 ∙ ap (λ (ys : List Rule). ys ++ rs) k.2 ∙ append_assoc m.rules (r ∷ []) rs,
      )

  pub removed :
      (b : Backend) (rs : List Rule) (m : Manager) (h : H)
      → m.backend ≡ some b
      → Undoes b m.tag
      → AllOpened rs m h
      → remove_reversed run b m.tag rs (allow_all rs m h).1 ≡ h
  removed b [] m h e u o = refl
  removed b (r ∷ rs) m h e u o =
      let x = allow run r m h in
      let k = opened_manager b r m h e o.1 in
      let a = allow_opened b r m h e o.1 in
      let i = removed b rs x.0 x.1 k.0 (subst (Undoes b) (sym k.1) u) o.2 in
      let j : remove_reversed run b m.tag rs (allow_all rs x.0 x.1).1 ≡ x.1 =
        subst (λ (t : String). remove_reversed run b t rs (allow_all rs x.0 x.1).1 ≡ x.1) k.1 i in
      ap (run_each run (b.remove_cmds m.tag r)) (j ∙ ap (λ (y : Manager × H × Bool). y.1) a.1)
      ∙ u r h o.0 a.0

  close_list :
      (b : Backend) (rs : List Rule) (m : Manager) (h : H)
      → m.rules ≡ rs
      → m.backend ≡ some b
      → b.teardown_cmds m.tag ≡ none
      → ((close run m h).1 ≡ remove_reversed run b m.tag rs h) × ((close run m h).0.rules ≡ [])
  unfolding close
  close_list b [] m h q e t = ground (arith, e, q)
  close_list b (r ∷ rs) m h q e t = ground (arith, e, q, t)

  -- With a backend without a teardown whose removals undo what they removed: once rules are opened
  -- one after another, each on a host where it is new, `Close` leaves the host as it was before the
  -- first one, and the manager with no rule.
  pub close-allow_all :
      (b : Backend) (rs : List Rule) (m : Manager) (h : H)
      → m.backend ≡ some b
      → m.rules ≡ []
      → b.teardown_cmds m.tag ≡ none
      → Undoes b m.tag
      → AllOpened rs m h
      → let o = allow_all rs m h in ((close run o.0 o.1).1 ≡ h) × ((close run o.0 o.1).0.rules ≡ [])
  close-allow_all b rs m h e n t u o =
      let x = allow_all rs m h in
      let a = all_opened b rs m h e o in
      let q : x.0.rules ≡ rs = a.2 ∙ ap (λ (ys : List Rule). ys ++ rs) n in
      let c = close_list b rs x.0 x.1 q a.0 (ap b.teardown_cmds a.1 ∙ t) in
      let w : remove_reversed run b x.0.tag rs x.1 ≡ remove_reversed run b m.tag rs x.1 =
        ap (λ (g : String). remove_reversed run b g rs x.1) a.1 in
      (c.0 ∙ w ∙ removed b rs m h e u o, c.1)
