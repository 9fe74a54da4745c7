-- ===== src/Store/Users/Life.antt =====
-- The accounts over any operations.
use go_wireguard_mesh.Common.{
  Bool, Bytes, List, Bytes, [], any, arith, false, if_intro, keep, leb, length, nat_eq, not, refl,
  suc, ℕ, ◌&&◌, ◌++◌, ◌∷◌, ◌≡◌, ◌≤◌,
}
use go_wireguard_mesh.Store.{next_id}
use go_wireguard_mesh.Store.Dns.{Characters, is_nil, trim_space}
use go_wireguard_mesh.Store.Users.{
  user_ids, username_ok, Answer, Hashing, User, after, after_insert, create_local_user, delete_user,
  done, ensure_seed_user, failed, insert_user, invalid_user, is_named, last_user, new_user, no_user,
  password_ok, rekey, seeded, set_password, user_exists, first_seed,
}
use go_wireguard_mesh.Store.Users.Names.{
  AllApart, deleted_length, insert_user-AllApart, keep-AllApart, rekey-AllApart,
}

module _ (ch : Characters) (hs : Hashing) where
  -- The operations with any arguments, at any time.
  pub data Step : List User → List User → Type 0 where
    creates :
        (salt : ℕ) (name password : Bytes) (now : ℕ) (us : List User)
        → Step us (after_insert us (create_local_user ch hs salt name password now us))
    seeds :
        (salt salt2 : ℕ) (name password : Bytes) (now : ℕ) (us : List User)
        → Step us (after_insert us (ensure_seed_user ch hs salt salt2 name password now us))
    sets_password :
        (salt i : ℕ) (password : Bytes) (now : ℕ) (us : List User)
        → Step us (after us (set_password ch hs salt i password now us))
    deletes : (i : ℕ) (us : List User) → Step us (after us (delete_user i us))

  pub data Reach (us : List User) : List User → Type 0 where
    here : Reach us us
    next : {vs ws : List User} → Reach us vs → Step vs ws → Reach us ws

  -- What the accounts keep: none share an id or a name, and one that is left stays.
  abbrev pub IsKept : List User → List User → Type 0
  IsKept us vs = AllApart vs × (is_nil us ≡ false → is_nil vs ≡ false)

  append_more : (u : User) (us : List User) → is_nil (us ++ u ∷ []) ≡ false
  append_more u [] = refl
  append_more u (v ∷ vs) = refl

  insert-IsKept :
      (name : Bytes) (hash : Bytes) (now : ℕ) (us : List User)
      → AllApart us
      → IsKept us (after_insert us (insert_user name hash now us))
  unfolding insert_user
  insert-IsKept name hash now us h =
      let u = new_user (next_id (user_ids us)) name hash now in
      (
        insert_user-AllApart name hash now us h,
        λ n.
            if_intro (λ (a : Answer (List User × User)). is_nil (after_insert us a) ≡ false)
              (any (is_named name) us) (failed user_exists) (done (us ++ u ∷ [], u)) (λ e. n)
              (λ e. append_more u us),
      )

  create-IsKept :
      (salt : ℕ) (name password : Bytes) (now : ℕ) (us : List User)
      → AllApart us
      → IsKept us (after_insert us (create_local_user ch hs salt name password now us))
  unfolding create_local_user
  create-IsKept salt name password now us h =
      if_intro (λ (a : Answer (List User × User)). IsKept us (after_insert us a))
        (username_ok (trim_space ch name) && password_ok password)
        (insert_user (trim_space ch name) (hs.hash salt password) now us) (failed invalid_user)
        (λ e. insert-IsKept (trim_space ch name) (hs.hash salt password) now us h)
        (λ e. (h, λ n. n))

  seeded-IsKept :
      (us : List User) (a : Answer (List User × User))
      → IsKept us (after_insert us a)
      → IsKept us (after_insert us (seeded ch hs a))
  seeded-IsKept us (done r) h = h
  seeded-IsKept us (failed e) h = h

  seed_first :
      (salt2 : ℕ) (name password : Bytes) (now : ℕ) (us : List User) (a : Answer (List User × User))
      → AllApart us
      → IsKept us (after_insert us a)
      → IsKept us (after_insert us (first_seed ch hs salt2 name password now us a))
  seed_first salt2 name password now us (done r) h k = k
  seed_first salt2 name password now us (failed e) h k =
      seeded-IsKept us (insert_user name (hs.hash salt2 password) now us)
        (insert-IsKept name (hs.hash salt2 password) now us h)

  seed-IsKept :
      (salt salt2 : ℕ) (name password : Bytes) (now : ℕ) (us : List User)
      → AllApart us
      → IsKept us (after_insert us (ensure_seed_user ch hs salt salt2 name password now us))
  unfolding ensure_seed_user
  seed-IsKept salt salt2 name password now us h =
      let a = create_local_user ch hs salt name password now us in
      if_intro (λ (x : Answer (List User × Bool)). IsKept us (after_insert us x)) (is_nil us)
        (first_seed ch hs salt2 name password now us a) (done (us, false))
        (λ e. seed_first salt2 name password now us a h (create-IsKept salt name password now us h))
        (λ e. (h, λ n. n))

  rekey_more :
      (i : ℕ) (hash : Bytes) (now : ℕ) (us : List User)
      → is_nil us ≡ false
      → is_nil (rekey i hash now us) ≡ false
  rekey_more i hash now [] n = n
  rekey_more i hash now (u ∷ us) n = refl

  set_password-IsKept :
      (salt i : ℕ) (password : Bytes) (now : ℕ) (us : List User)
      → AllApart us
      → IsKept us (after us (set_password ch hs salt i password now us))
  unfolding set_password
  set_password-IsKept salt i password now us h =
      if_intro (λ (a : Answer (List User)). IsKept us (after us a)) (password_ok password) _
        (failed invalid_user)
        (λ e.
          if_intro (λ (a : Answer (List User)). IsKept us (after us a))
            (any (λ u. nat_eq u.id i && u.is_local) us)
            (done (rekey i (hs.hash salt password) now us)) (failed no_user)
            (λ f. (
              rekey-AllApart i (hs.hash salt password) now us h,
              rekey_more i (hs.hash salt password) now us,
            ))
            (λ f. (h, λ n. n)))
        (λ e. (h, λ n. n))

  some_left :
      (us vs : List User)
      → length us ≤ suc (length vs)
      → leb (length us) 1 ≡ false
      → is_nil vs ≡ false
  some_left us [] h n = absurd (ground arith)
  some_left us (v ∷ vs) h n = refl

  delete-IsKept : (i : ℕ) (us : List User) → AllApart us → IsKept us (after us (delete_user i us))
  unfolding delete_user
  delete-IsKept i us h =
      let f : User → Bool = λ u. not (nat_eq u.id i) in
      if_intro (λ (a : Answer (List User)). IsKept us (after us a)) (leb (length us) 1)
        (failed last_user) _ (λ e. (h, λ n. n))
        (λ e.
          if_intro (λ (a : Answer (List User)). IsKept us (after us a))
            (any (λ u. nat_eq u.id i) us) (done (keep f us)) (failed no_user)
            (λ k. (keep-AllApart f us h, λ n. some_left us (keep f us) (deleted_length i us h) e))
            (λ k. (h, λ n. n)))

  Step-IsKept : {us vs : List User} → Step us vs → AllApart us → IsKept us vs
  Step-IsKept (creates salt name password now us) h = create-IsKept salt name password now us h
  Step-IsKept (seeds salt salt2 name password now us) h =
      seed-IsKept salt salt2 name password now us h
  Step-IsKept (sets_password salt i password now us) h =
      set_password-IsKept salt i password now us h
  Step-IsKept (deletes i us) h = delete-IsKept i us h

  Reach-IsKept : {us vs : List User} → Reach us vs → AllApart us → IsKept us vs
  Reach-IsKept here h = (h, λ n. n)
  Reach-IsKept (next r s) h =
      let k = Reach-IsKept r h in let l = Step-IsKept s k.0 in (l.0, λ n. l.1 (k.1 n))

  -- Over any operations on accounts, of which there is one and no two share an id or a name: the
  -- accounts still share none, and one is left.
  pub Reach-AllApart :
      {us vs : List User}
      → Reach us vs
      → AllApart us
      → is_nil us ≡ false
      → AllApart vs × (is_nil vs ≡ false)
  Reach-AllApart r h n = let k = Reach-IsKept r h in (k.0, k.1 n)
