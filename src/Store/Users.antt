-- ===== src/Store/Users.antt =====
-- internal/store/users.go: the accounts of the administrators. Argon2 with its random salt is a
-- parameter, as is what Go knows of spaces. A name is the list of its characters, of which those
-- that take more than one byte are refused; a password and a hash are the lists of their bytes.
pub mod Names
pub mod Life
pub mod Sessions
use go_wireguard_mesh.Common.{
  Bool, Bytes, List, Option, Bytes, [], any, bytes_eq, false, find, if◌then◌else◌, keep, leb,
  length, nat_eq, none, not, some, true, ℕ, ◌&&◌, ◌++◌, ◌+◌, ◌||◌, ◌∷◌,
}
use go_wireguard_mesh.Store.{next_id}
use go_wireguard_mesh.Store.Dns.{Characters, is_nil, trim_space}

-- The row of `users`, with the hash that `User` leaves out.
pub record User : Type 0 where
  pub id : ℕ
  pub username : Bytes
  pub password_hash : Bytes
  pub is_local : Bool
  pub session_epoch : ℕ
  pub created_at : ℕ
  pub updated_at : ℕ

-- `hashPassword` with a salt, and `verifyPassword`.
pub record Hashing : Type 0 where
  pub hash : ℕ → Bytes → Bytes
  pub verify : Bytes → Bytes → Bool

pub data UserError : Type 0 where
  invalid_user : UserError
  user_exists : UserError
  bad_login : UserError
  no_user : UserError
  last_user : UserError

pub data Answer (A : Type 0) : Type 0 where
  done : A → Answer A
  failed : UserError → Answer A

-- The letters, digits and `-_.@` of `validateUsername`.
abbrev pub is_name_char : ℕ → Bool
is_name_char c =
    any (nat_eq c) (45 ∷ 95 ∷ 46 ∷ 64 ∷ [])
    || (leb 97 c && leb c 122)
    || (leb 65 c && leb c 90)
    || (leb 48 c && leb c 57)

-- The checks of `validateUsername`, behind its `TrimSpace`.
abbrev pub username_ok : Bytes → Bool
username_ok u = not (is_nil u) && leb (length u) 64 && not (any (λ c. not (is_name_char c)) u)

-- `validatePassword`.
abbrev pub password_ok : Bytes → Bool
password_ok p = leb 8 (length p) && leb (length p) 512

abbrev pub user_ids : List User → List ℕ
user_ids [] = []
user_ids (u ∷ us) = u.id ∷ user_ids us

-- Whether a row has the name: the UNIQUE constraint.
abbrev pub is_named : Bytes → User → Bool
is_named name u = bytes_eq u.username name

abbrev pub new_user : ℕ → Bytes → Bytes → ℕ → User
new_user i name hash now = record {
  id = i;
  username = name;
  password_hash = hash;
  is_local = true;
  session_epoch = 0;
  created_at = now;
  updated_at = now;
}

-- `INSERT INTO users`.
unfoldable pub insert_user : Bytes → Bytes → ℕ → List User → Answer (List User × User)
insert_user name hash now us =
    let u = new_user (next_id (user_ids us)) name hash now in
    if any (is_named name) us then failed user_exists else done (us ++ u ∷ [], u)

abbrev pub user_by_id : ℕ → List User → Option User
user_by_id i us = find (λ u. nat_eq u.id i) us

-- The row after `UPDATE users SET password_hash = …`.
abbrev pub rekeyed : Bytes → ℕ → User → User
rekeyed hash now u = record u {
  password_hash = hash;
  session_epoch = u.session_epoch + 1;
  updated_at = now;
}

abbrev pub rekey : ℕ → Bytes → ℕ → List User → List User
rekey i hash now [] = []
rekey i hash now (u ∷ us) =
    (if nat_eq u.id i && u.is_local then rekeyed hash now u else u) ∷ rekey i hash now us

module _ (ch : Characters) (hs : Hashing) where
  -- `CreateLocalUser`; the table and the row that is answered.
  unfoldable pub create_local_user : ℕ → Bytes → Bytes → ℕ → List User → Answer (List User × User)
  unfolding insert_user
  create_local_user salt name password now us =
      let n = trim_space ch name in
      if username_ok n && password_ok password
      then insert_user n (hs.hash salt password) now us
      else failed invalid_user

  abbrev pub seeded : Answer (List User × User) → Answer (List User × Bool)
  seeded (failed e) = failed e
  seeded (done r) = done (r.0, true)

  -- The account of the first attempt, or that of the second one, which skips the checks.
  abbrev pub first_seed :
      ℕ → Bytes → Bytes → ℕ → List User → Answer (List User × User) → Answer (List User × Bool)
  first_seed salt2 name password now us (done r) = done (r.0, true)
  first_seed salt2 name password now us (failed e) =
      seeded (insert_user name (hs.hash salt2 password) now us)

  -- `EnsureSeedUser`; the second salt is that of the second attempt.
  unfoldable pub ensure_seed_user :
      ℕ → ℕ → Bytes → Bytes → ℕ → List User → Answer (List User × Bool)
  unfolding create_local_user insert_user
  ensure_seed_user salt salt2 name password now us =
      if is_nil us
      then first_seed salt2 name password now us (create_local_user salt name password now us)
      else done (us, false)

  -- `Authenticate`.
  unfoldable pub authenticate : Bytes → Bytes → List User → Answer User
  authenticate name password us = elim (find (is_named (trim_space ch name)) us) [
    | none ↦ failed bad_login
    | some u ↦
        if u.is_local && hs.verify u.password_hash password
        then elim (user_by_id u.id us) [ none ↦ failed no_user | some v ↦ done v ]
        else failed bad_login
  ]

  -- `SetPassword`.
  unfoldable pub set_password : ℕ → ℕ → Bytes → ℕ → List User → Answer (List User)
  set_password salt i password now us =
      if password_ok password
      then if any (λ u. nat_eq u.id i && u.is_local) us
        then done (rekey i (hs.hash salt password) now us)
        else failed no_user
      else failed invalid_user

-- `DeleteUser`.
unfoldable pub delete_user : ℕ → List User → Answer (List User)
delete_user i us =
    if leb (length us) 1
    then failed last_user
    else if any (λ u. nat_eq u.id i) us
    then done (keep (λ u. not (nat_eq u.id i)) us)
    else failed no_user

-- The table after a transaction.
abbrev pub after : List User → Answer (List User) → List User
after us (done vs) = vs
after us (failed e) = us

abbrev pub after_insert : {A : Type 0} → List User → Answer (List User × A) → List User
after_insert us (done r) = r.0
after_insert us (failed e) = us
