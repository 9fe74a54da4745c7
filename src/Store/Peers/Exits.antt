-- ===== src/Store/Peers/Exits.antt =====
-- The exit nodes that the rows of `peers` name, over the writes to the table.
use go_wireguard_mesh.Store.Rows.{AllDiffer, collide}
use mathlib.Core.Path.{subst}
use go_wireguard_mesh.Store.Enroll.{is_id}
use go_wireguard_mesh.Common.{
  Bool, List, Option, [], any, arith, false, inl, inr, is_some, none, refl, ℕ, ◌&&◌, ◌++◌, ◌∷◌, ◌≡◌,
  ap, nat_eq, some, sym,
}
use go_wireguard_mesh.Store.{Peer, replace_peer}
use go_wireguard_mesh.Store.Peers.{delete_peer, is_active, has_clients}
use go_wireguard_mesh.Store.Uses.{In, In-differs}

-- Whether a row is the exit node `x` and exits through a node itself.
abbrev pub leads_on : Option ℕ → List Peer → Bool
leads_on x ps = any (λ q. is_id x q.id && is_some q.exit_node) ps

-- Whether an active row's exit node passes the test.
abbrev pub any_exit : (Option ℕ → Bool) → List Peer → Bool
any_exit f ps = any (λ p. is_active p && f p.exit_node) ps

-- No active peer exits through a node that exits through a node itself.
abbrev pub IsFlat : List Peer → Type 0
IsFlat ps = any_exit (λ x. leads_on x ps) ps ≡ false

leads_none : (ps : List Peer) → leads_on none ps ≡ false
leads_none [] = refl
leads_none (p ∷ ps) = ground (arith, leads_none ps)

-- A weaker test passes nowhere either.
weaker :
    (f g : Option ℕ → Bool) (ps : List Peer)
    → ((x : Option ℕ) → f x ≡ false → g x ≡ false)
    → any_exit f ps ≡ false
    → any_exit g ps ≡ false
weaker f g [] l h = refl
weaker f g (p ∷ ps) l h = ground (arith, weaker f g ps l, l p.exit_node)

leads_on-append :
    (x : Option ℕ) (q : Peer) (ps : List Peer)
    → q.exit_node ≡ none
    → leads_on x ps ≡ false
    → leads_on x (ps ++ q ∷ []) ≡ false
leads_on-append x q [] e h = ground arith
leads_on-append x q (p ∷ ps) e h = ground (arith, leads_on-append x q ps e)

any_exit-append :
    (f : Option ℕ → Bool) (q : Peer) (ps : List Peer)
    → f q.exit_node ≡ false
    → any_exit f ps ≡ false
    → any_exit f (ps ++ q ∷ []) ≡ false
any_exit-append f q [] e h = ground arith
any_exit-append f q (p ∷ ps) e h = ground (arith, any_exit-append f q ps e)

pub append-IsFlat :
    (q : Peer) (ps : List Peer) → q.exit_node ≡ none → IsFlat ps → IsFlat (ps ++ q ∷ [])
append-IsFlat q ps e h =
    let n : leads_on q.exit_node (ps ++ q ∷ []) ≡ false =
      leads_on-append q.exit_node q ps e (rw e (leads_none ps)) in
    any_exit-append (λ x. leads_on x (ps ++ q ∷ [])) q ps n
      (weaker (λ x. leads_on x ps) (λ x. leads_on x (ps ++ q ∷ [])) ps
        (λ x. leads_on-append x q ps e) h)

leads_on-delete :
    (x : Option ℕ) (i : ℕ) (ps : List Peer)
    → leads_on x ps ≡ false
    → leads_on x (delete_peer i ps) ≡ false
leads_on-delete x i [] h = refl
leads_on-delete x i (p ∷ ps) h = ground (arith, leads_on-delete x i ps)

any_exit-delete :
    (f : Option ℕ → Bool) (i : ℕ) (ps : List Peer)
    → f none ≡ false
    → any_exit f ps ≡ false
    → any_exit f (delete_peer i ps) ≡ false
any_exit-delete f i [] n h = refl
any_exit-delete f i (p ∷ ps) n h = ground (arith, any_exit-delete f i ps n)

pub delete-IsFlat : (i : ℕ) (ps : List Peer) → IsFlat ps → IsFlat (delete_peer i ps)
delete-IsFlat i ps h =
    weaker (λ x. leads_on x ps) (λ x. leads_on x (delete_peer i ps)) (delete_peer i ps)
      (λ x. leads_on-delete x i ps) (any_exit-delete (λ x. leads_on x ps) i ps (leads_none ps) h)

-- A new version of a row that names no exit node, or the one that it named before.
leads_on-replace :
    (x : Option ℕ) (q : Peer) (ps : List Peer)
    → is_id x q.id && is_some q.exit_node ≡ false
    → leads_on x ps ≡ false
    → leads_on x (replace_peer q ps) ≡ false
leads_on-replace x q [] n h = refl
leads_on-replace x q (p ∷ ps) n h = ground (arith, leads_on-replace x q ps n)

any_exit-replace :
    (f : Option ℕ → Bool) (q : Peer) (ps : List Peer)
    → is_active q && f q.exit_node ≡ false
    → any_exit f ps ≡ false
    → any_exit f (replace_peer q ps) ≡ false
any_exit-replace f q [] n h = refl
any_exit-replace f q (p ∷ ps) n h = ground (arith, any_exit-replace f q ps n)

any_exit-In :
    (f : Option ℕ → Bool) (p : Peer) (ps : List Peer)
    → In p ps
    → any_exit f ps ≡ false
    → is_active p && f p.exit_node ≡ false
any_exit-In f p [] m h = absurd m
any_exit-In f p (q ∷ qs) (inl e) h = rw e (ground arith)
any_exit-In f p (q ∷ qs) (inr m) h = ground (arith, any_exit-In f p qs m)

leads_on-In :
    (x : Option ℕ) (p : Peer) (ps : List Peer)
    → In p ps
    → leads_on x ps ≡ false
    → is_id x p.id && is_some p.exit_node ≡ false
leads_on-In x p [] m h = absurd m
leads_on-In x p (q ∷ qs) (inl e) h = rw e (ground arith)
leads_on-In x p (q ∷ qs) (inr m) h = ground (arith, leads_on-In x p qs m)

pub keep-IsFlat :
    (p q : Peer) (ps : List Peer)
    → In p ps
    → q.id ≡ p.id
    → q.exit_node ≡ p.exit_node
    → (is_active p ≡ false → is_active q ≡ false)
    → IsFlat ps
    → IsFlat (replace_peer q ps)
keep-IsFlat p q ps m i e a h =
    weaker (λ x. leads_on x ps) (λ x. leads_on x (replace_peer q ps)) (replace_peer q ps)
      (λ x k. leads_on-replace x q ps (ground (arith, leads_on-In x p ps m k, i, e)) k)
      (any_exit-replace (λ x. leads_on x ps) q ps
        (ground (arith, any_exit-In (λ x. leads_on x ps) p ps m h, e, a)) h)

pub clear-IsFlat :
    (q : Peer) (ps : List Peer) → q.exit_node ≡ none → IsFlat ps → IsFlat (replace_peer q ps)
clear-IsFlat q ps e h =
    weaker (λ x. leads_on x ps) (λ x. leads_on x (replace_peer q ps)) (replace_peer q ps)
      (λ x k. leads_on-replace x q ps (ground arith) k)
      (any_exit-replace (λ x. leads_on x ps) q ps (rw e (ground (arith, leads_none ps))) h)

-- The row with the id `j` is the only one with it, so that no other row can lead on from it.
leads_on-absent :
    (e : Peer) (ps : List Peer) → any (collide e) ps ≡ false → leads_on (some e.id) ps ≡ false
leads_on-absent e [] h = refl
leads_on-absent e (p ∷ ps) h = ground (arith, leads_on-absent e ps)

leads_on-found :
    (e : Peer) (ps : List Peer)
    → In e ps
    → AllDiffer ps
    → e.exit_node ≡ none
    → leads_on (some e.id) ps ≡ false
leads_on-found e [] m w n = absurd m
leads_on-found e (p ∷ ps) (inl q) w n =
    subst (λ (x : Peer). leads_on (some x.id) (p ∷ ps) ≡ false) (sym q)
      (ground (arith, leads_on-absent p ps w.0, ap (λ (x : Peer). x.exit_node) q, n))
leads_on-found e (p ∷ ps) (inr m) w n =
    ground (arith, In-differs e p ps m w.0, leads_on-found e ps m w.1 n)

-- Rows other than the client `i` whose exit is not `i`.
any_exit-assign :
    (f g : Option ℕ → Bool) (i : ℕ) (ps : List Peer)
    → ((x : Option ℕ) → is_id x i ≡ false → f x ≡ false → g x ≡ false)
    → has_clients i ps ≡ false
    → any_exit f ps ≡ false
    → any_exit g ps ≡ false
any_exit-assign f g i [] l c h = refl
any_exit-assign f g i (p ∷ ps) l c h = ground (arith, any_exit-assign f g i ps l, l p.exit_node)

-- An assignment of an exit node without an exit of its own, to a peer that nobody exits through.
pub assign-IsFlat :
    (q e : Peer) (ps : List Peer)
    → In e ps
    → AllDiffer ps
    → q.exit_node ≡ some e.id
    → e.exit_node ≡ none
    → nat_eq e.id q.id ≡ false
    → has_clients q.id ps ≡ false
    → IsFlat ps
    → IsFlat (replace_peer q ps)
assign-IsFlat q e ps m w x n ne c h =
    let own : leads_on q.exit_node (replace_peer q ps) ≡ false =
      leads_on-replace q.exit_node q ps (ground (arith, x, ne))
        (rw x (leads_on-found e ps m w n)) in
    let g : Option ℕ → Bool = λ y. leads_on y (replace_peer q ps) in
    any_exit-replace g q ps (ground (arith, own)) (
      any_exit-assign (λ y. leads_on y ps) g q.id ps
        (λ y a b. leads_on-replace y q ps (ground (arith, a)) b) c h)
