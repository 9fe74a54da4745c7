-- ===== src/Store/Users/Names.antt =====
-- No two accounts share an id or a name.
use go_wireguard_mesh.Common.{
  Bool, Bool-cases, Bytes, List, Bytes, [], any, arith, bytes_eq, bytes_eq_iff, false, if_intro,
  inl, inr, keep, length, nat_eq, not, refl, suc, true, ℕ, ◌&&◌, ◌++◌, ◌||◌, ◌∙◌, ◌∷◌, ◌≡◌, ◌≤◌,
}
use go_wireguard_mesh.Store.{next_id}
use go_wireguard_mesh.Store.Users.{
  user_ids, Answer, User, after_insert, done, failed, insert_user, is_named, new_user, rekey,
  rekeyed, user_exists,
}

abbrev pub apart : User → User → Bool
apart u v = not (nat_eq u.id v.id) && not (bytes_eq u.username v.username)

abbrev pub AllApart : List User → Type 0
AllApart [] = Unit
AllApart (u ∷ us) = (any (λ v. not (apart u v)) us ≡ false) × AllApart us

apart_comm : (u v : User) → apart u v ≡ apart v u
apart_comm u v =
    ground (arith, bytes_eq_iff u.username v.username, bytes_eq_iff v.username u.username)

apart_append :
    (u v : User) (us : List User)
    → any (λ w. not (apart u w)) (us ++ v ∷ []) ≡ any (λ w. not (apart u w)) us || not (apart u v)
apart_append u v [] = ground arith
apart_append u v (w ∷ ws) = ground (arith, apart_append u v ws)

fresh_id :
    (u : User) (us : List User)
    → next_id (user_ids us) ≤ u.id
    → any (is_named u.username) us ≡ false
    → any (λ w. not (apart u w)) us ≡ false
fresh_id u [] l n = refl
fresh_id u (w ∷ ws) l n =
    ground
      (arith, fresh_id u ws, bytes_eq_iff u.username w.username, bytes_eq_iff w.username u.username)

pub append-AllApart :
    (u : User) (us : List User)
    → any (λ w. not (apart u w)) us ≡ false
    → AllApart us
    → AllApart (us ++ u ∷ [])
append-AllApart u [] n h = (refl, tt)
append-AllApart u (w ∷ ws) n h = (
  ground (arith, apart_append w u ws, apart_comm u w, h.0),
  append-AllApart u ws (ground arith) h.1,
)

pub insert_user-AllApart :
    (name : Bytes) (hash : Bytes) (now : ℕ) (us : List User)
    → AllApart us
    → AllApart (after_insert us (insert_user name hash now us))
unfolding insert_user
insert_user-AllApart name hash now us h =
    let u = new_user (next_id (user_ids us)) name hash now in
    if_intro (λ (a : Answer (List User × User)). AllApart (after_insert us a))
      (any (is_named name) us) (failed user_exists) (done (us ++ u ∷ [], u)) (λ e. h)
      (λ e. append-AllApart u us (fresh_id u us (omega arith) e) h)

rekey-apart :
    (u : User) (i : ℕ) (hash : Bytes) (now : ℕ) (us : List User)
    → any (λ w. not (apart u w)) (rekey i hash now us) ≡ any (λ w. not (apart u w)) us
rekey-apart u i hash now [] = refl
rekey-apart u i hash now (w ∷ ws) = ground (arith, rekey-apart u i hash now ws)

pub rekey-AllApart :
    (i : ℕ) (hash : Bytes) (now : ℕ) (us : List User) → AllApart us → AllApart (rekey i hash now us)
rekey-AllApart i hash now [] h = tt
rekey-AllApart i hash now (u ∷ us) h = (
  if_intro (λ (v : User). any (λ w. not (apart v w)) (rekey i hash now us) ≡ false)
      (nat_eq u.id i && u.is_local) (rekeyed hash now u) u
      (λ e. rekey-apart (rekeyed hash now u) i hash now us ∙ h.0)
      (λ e. rekey-apart u i hash now us ∙ h.0),
  rekey-AllApart i hash now us h.1,
)

keep-apart :
    (f : User → Bool) (u : User) (us : List User)
    → any (λ w. not (apart u w)) us ≡ false
    → any (λ w. not (apart u w)) (keep f us) ≡ false
keep-apart f u [] h = refl
keep-apart f u (w ∷ ws) h = ground (arith, keep-apart f u ws)

pub keep-AllApart : (f : User → Bool) (us : List User) → AllApart us → AllApart (keep f us)
keep-AllApart f [] h = tt
keep-AllApart f (u ∷ us) h =
    if_intro AllApart (f u) (u ∷ keep f us) (keep f us)
      (λ e. (keep-apart f u us h.0, keep-AllApart f us h.1)) (λ e. keep-AllApart f us h.1)

gone_from :
    (u : User) (i : ℕ) (us : List User)
    → nat_eq u.id i ≡ true
    → any (λ w. not (apart u w)) us ≡ false
    → keep (λ w. not (nat_eq w.id i)) us ≡ us
gone_from u i [] e h = refl
gone_from u i (w ∷ ws) e h = ground (arith, gone_from u i ws)

-- A deletion takes one row.
pub deleted_length :
    (i : ℕ) (us : List User)
    → AllApart us
    → length us ≤ suc (length (keep (λ w. not (nat_eq w.id i)) us))
deleted_length i [] h = omega arith
deleted_length i (u ∷ us) h = elim (Bool-cases (nat_eq u.id i)) [
  | inl e ↦ ground (arith, gone_from u i us e h.0)
  | inr e ↦ ground (arith, deleted_length i us h.1)
]
