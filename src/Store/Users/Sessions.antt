-- ===== src/Store/Users/Sessions.antt =====
-- Signing in before and after a change of the password.
use go_wireguard_mesh.Common.{
  Bool-cases, Bytes, List, Bytes, [], any, ap, arith, bytes_eq, false, find, if◌then◌else◌, inl,
  inr, nat_eq, not, some, true, ℕ, ◌&&◌, ◌∙◌, ◌∷◌, ◌≡◌, ◌+◌,
}
use go_wireguard_mesh.Store.Dns.{Characters, trim_space}
use go_wireguard_mesh.Store.Users.{
  Hashing, User, is_named, rekey, rekeyed, after, authenticate, bad_login, done, failed,
  password_ok, set_password,
}
use go_wireguard_mesh.Store.Users.Names.{AllApart, apart}

named_rekey :
    (name : Bytes) (i : ℕ) (hash : Bytes) (now : ℕ) (u : User) (us : List User)
    → AllApart us
    → find (is_named name) us ≡ some u
    → nat_eq u.id i && u.is_local ≡ true
    → find (is_named name) (rekey i hash now us) ≡ some (rekeyed hash now u)
named_rekey name i hash now u [] h f e = absurd (ground arith)
named_rekey name i hash now u (v ∷ vs) h f e = ground (arith, named_rekey name i hash now u vs h.1)

found_apart :
    (name : Bytes) (u v : User) (us : List User)
    → find (is_named name) us ≡ some u
    → any (λ w. not (apart v w)) us ≡ false
    → nat_eq v.id u.id ≡ false
found_apart name u v [] f h = absurd (ground arith)
found_apart name u v (w ∷ ws) f h = elim (Bool-cases (is_named name w)) [
  | inl e ↦ ground arith
  | inr e ↦ ground (arith, found_apart name u v ws)
]

found_again :
    (name : Bytes) (u : User) (us : List User)
    → AllApart us
    → find (is_named name) us ≡ some u
    → find (λ v. nat_eq v.id u.id) us ≡ some u
found_again name u [] h f = absurd (ground arith)
found_again name u (v ∷ vs) h f = elim (Bool-cases (is_named name v)) [
  | inl e ↦ ground arith
  | inr e ↦ ground (arith, found_again name u vs h.1, found_apart name u v vs)
]

id_rekey :
    (i : ℕ) (hash : Bytes) (now : ℕ) (u : User) (us : List User)
    → find (λ v. nat_eq v.id i) us ≡ some u
    → u.is_local ≡ true
    → (find (λ v. nat_eq v.id i) (rekey i hash now us) ≡ some (rekeyed hash now u))
      × (any (λ v. nat_eq v.id i && v.is_local) us ≡ true)
id_rekey i hash now u [] f e = absurd (ground arith)
id_rekey i hash now u (v ∷ vs) f e = elim (Bool-cases (nat_eq v.id i)) [
  | inl k ↦ ground arith
  | inr k ↦ ground (arith, id_rekey i hash now u vs)
]

-- A hash verifies its own password and no other.
abbrev pub Verifies : Hashing → Type 0
Verifies hs = (salt : ℕ) (p q : Bytes) → hs.verify (hs.hash salt p) q ≡ bytes_eq p q

module _ (ch : Characters) (hs : Hashing) (verifies : Verifies hs) where
  -- Where a hash verifies its own password and no other, and no two accounts share an id or a
  -- name: once the password of a local account is set, its name signs in with the new password and
  -- with no other, and the session epoch of the account that is answered is one more than before.
  pub authenticate-set_password :
      (salt : ℕ) (name new p : Bytes) (now : ℕ) (u : User) (us : List User)
      → AllApart us
      → find (is_named (trim_space ch name)) us ≡ some u
      → u.is_local ≡ true
      → password_ok new ≡ true
      → authenticate ch hs name p (after us (set_password ch hs salt u.id new now us)) ≡ (
          if bytes_eq new p
          then done (record u {
            password_hash = hs.hash salt new;
            session_epoch = u.session_epoch + 1;
            updated_at = now;
          })
          else failed bad_login)
  unfolding authenticate set_password
  authenticate-set_password salt name new p now u us h f l k =
      let hash = hs.hash salt new in
      let i = id_rekey u.id hash now u us (found_again (trim_space ch name) u us h f) l in
      let e : after us (set_password ch hs salt u.id new now us) ≡ rekey u.id hash now us =
        ground (arith, i.1) in
      ap (λ (vs : List User). authenticate ch hs name p vs) e
      ∙ ground
          (arith, named_rekey (trim_space ch name) u.id hash now u us h f, i.0, verifies salt new p)
