-- ===== src/Tests/UserRuns.antt =====
-- Runs of internal/store/users.go.
use go_wireguard_mesh.Common.{
  Bytes, List, [], bytes_eq, false, if◌then◌else◌, nat_eq, none, refl, replicate, ◌∷◌, ◌≡◌,
}
use go_wireguard_mesh.Store.Dns.{Characters, is_nil}
use go_wireguard_mesh.Store.Users.{
  Hashing, User, after, authenticate, bad_login, create_local_user, delete_user, done, failed,
  last_user, new_user, set_password, user_exists,
}
use go_wireguard_mesh.Store.Users.Names.{AllApart}
use go_wireguard_mesh.Store.Users.Life.{Reach, Reach-AllApart, deletes, here, next}
use go_wireguard_mesh.Store.Users.Sessions.{Verifies, authenticate-set_password}

abbrev characters : Characters
characters = record {
  lower = λ c. c;
  is_space = λ c. nat_eq c 32;
  parse_addr = λ a. none;
  encode = λ xs. [];
  decode = λ v. none;
}

-- A hash that is its password.
abbrev hashing : Hashing
hashing = record { hash = λ salt p. p; verify = bytes_eq }

verifies : Verifies hashing
verifies salt p q = refl

abbrev old_password : Bytes
old_password = replicate 8 97

abbrev new_password : Bytes
new_password = replicate 9 98

abbrev alice : User
alice = new_user 1 (97 ∷ []) old_password 10

abbrev table : List User
table = alice ∷ new_user 2 (98 ∷ []) old_password 10 ∷ []

all-AllApart : AllApart table
all-AllApart = (refl, (refl, tt))

-- "a" with a space behind it.
abbrev login : Bytes
login = 97 ∷ 32 ∷ []

created_twice :
    create_local_user characters hashing 0 login old_password 10 table ≡ failed user_exists
unfolding create_local_user
created_twice = refl

old_login : authenticate characters hashing login old_password table ≡ done alice
unfolding authenticate
old_login = refl

abbrev changed : List User
changed = after table (set_password characters hashing 5 1 new_password 20 table)

authenticate-set_password_example : authenticate characters hashing login old_password changed ≡ (
    if bytes_eq new_password old_password
    then done (record alice { password_hash = new_password; session_epoch = 1; updated_at = 20 })
    else failed bad_login)
authenticate-set_password_example =
    authenticate-set_password characters hashing verifies 5 login new_password old_password 20 alice
      table all-AllApart refl refl refl

abbrev shrunk : List User
shrunk = after table (delete_user 2 table)

last_kept : delete_user 1 shrunk ≡ failed last_user
unfolding delete_user
last_kept = refl

shrunk_reached : Reach characters hashing table shrunk
shrunk_reached = next here (deletes 2 table)

Reach-AllApart_example : AllApart shrunk × (is_nil shrunk ≡ false)
Reach-AllApart_example = Reach-AllApart characters hashing shrunk_reached all-AllApart refl
