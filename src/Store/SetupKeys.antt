-- ===== src/Store/SetupKeys.antt =====
-- internal/store/store.go: setup keys, made, consumed and diagnosed; internal/store/admin.go:
-- their revocation.
use go_wireguard_mesh.Common.{
  Bool, List, Option, String, [], any, false, find, if◌then◌else◌, is_some, leb, ltb, nat_eq,
  nat_key, none, not, some, text_key, ℕ, ◌&&◌, ◌++◌, ◌+◌, ◌==◌, ◌∷◌, ◌≡◌, arith, true, ==_iff, refl,
}
use go_wireguard_mesh.Store.{
  Db, Reason, Result, SetupKey, constraint, err, exhausted_key, expired_key, key_ids, next_id,
  not_found, nullable, ok, revoked_key, unauthorized, unknown_key, unknown_reason,
}

abbrev pub new_key : ℕ → String → String → ℕ → Option ℕ → SetupKey
new_key id key name max_uses expires = record {
  id = id;
  key = key;
  name = nullable name;
  max_uses = if ltb 0 max_uses then some max_uses else none;
  uses_consumed = 0;
  expires_at = expires;
  revoked_at = none;
}

-- `INSERT INTO setup_keys`, under the next id.
unfoldable pub insert_key : SetupKey → Db → Result Db
insert_key k db =
    if any (λ j. j.key == k.key) db.setup_keys
    then err constraint
    else ok (record db { setup_keys = db.setup_keys ++ k ∷ [] })

-- `CreateNamedSetupKey`, with the random key as a parameter. `max_uses` of 0 stands for every
-- number that is not positive; `expires` is the time that a duration other than 0 leads to.
unfoldable pub create_named_setup_key : String → String → ℕ → Option ℕ → Db → Result (Db × String)
unfolding insert_key
create_named_setup_key key name max_uses expires db =
    elim (insert_key (new_key (next_id (key_ids db.setup_keys)) key name max_uses expires) db) [
      | err e ↦ err e
      | ok d ↦ ok (d, key)
    ]

abbrev pub is_expired : ℕ → SetupKey → Bool
is_expired now k = elim k.expires_at [ none ↦ false | some at ↦ leb at now ]

abbrev pub is_exhausted : SetupKey → Bool
is_exhausted k = elim k.max_uses [ none ↦ false | some n ↦ leb n k.uses_consumed ]

-- The WHERE clause of the consuming UPDATE.
abbrev pub is_usable : String → ℕ → SetupKey → Bool
is_usable key now k =
    (k.key == key) && not (is_some k.revoked_at) && not (is_expired now k) && not (is_exhausted k)

abbrev pub key_by_text : String → Db → Option SetupKey
key_by_text key db = find (λ k. k.key == key) db.setup_keys

-- `diagnoseKey`.
unfoldable pub diagnose_key : String → ℕ → Db → Reason
diagnose_key key now db = elim (key_by_text key db) [
  | none ↦ unknown_key
  | some k ↦
      if is_some k.revoked_at
      then revoked_key
      else if is_expired now k
      then expired_key
      else if is_exhausted k
      then exhausted_key
      else unknown_reason
]

abbrev pub consumed : SetupKey → SetupKey
consumed k = record k { uses_consumed = k.uses_consumed + 1 }

-- The UPDATE that consumes one use.
abbrev pub consume : String → ℕ → List SetupKey → List SetupKey
consume key now [] = []
consume key now (k ∷ ks) = (if is_usable key now k then consumed k else k) ∷ consume key now ks

-- The consumption in `Enroll`: the new tables and the id of the key, or the refusal.
unfoldable pub consume_key : String → ℕ → Db → Result (Db × ℕ)
unfolding diagnose_key
consume_key key now db =
    if any (is_usable key now) db.setup_keys
    then elim (key_by_text key db) [
      | none ↦ err not_found
      | some k ↦ ok (record db { setup_keys = consume key now db.setup_keys }, k.id)
    ]
    else err (unauthorized (diagnose_key key now db))

abbrev pub revoke_key : ℕ → ℕ → List SetupKey → List SetupKey
revoke_key i now [] = []
revoke_key i now (k ∷ ks) =
    (if nat_eq k.id i && not (is_some k.revoked_at) then record k { revoked_at = some now } else k)
    ∷ revoke_key i now ks

-- `RevokeSetupKey`.
unfoldable pub revoke_setup_key : ℕ → ℕ → Db → Result (Db × Unit)
revoke_setup_key i now db =
    if any (λ k. nat_eq k.id i && not (is_some k.revoked_at)) db.setup_keys
    then ok (record db { setup_keys = revoke_key i now db.setup_keys }, tt)
    else err not_found

find_key :
    (key : String) (ks : List SetupKey) (k : SetupKey)
    → find (λ k. k.key == key) ks ≡ some k
    → (k.key == key) ≡ true
find_key key [] k e = cc
find_key key (j ∷ js) k e = ground (arith, find_key key js k)

abbrev pub key_twin : SetupKey → SetupKey → Bool
key_twin j k = j.key == k.key

-- No two rows have the same text.
abbrev pub TextsDiffer : List SetupKey → Type 0
TextsDiffer [] = Unit
TextsDiffer (k ∷ ks) = (any (key_twin k) ks ≡ false) × TextsDiffer ks

no_twin :
    (key : String) (now : ℕ) (j : SetupKey) (ks : List SetupKey)
    → (j.key == key) ≡ true
    → any (key_twin j) ks ≡ false
    → any (is_usable key now) ks ≡ false
no_twin key now j [] e h = refl
no_twin key now j (k ∷ ks) e h =
    ground (arith, ==_iff j.key key, ==_iff k.key key, ==_iff j.key k.key, no_twin key now j ks)

usable_first :
    (key : String) (now : ℕ) (ks : List SetupKey) (k : SetupKey)
    → TextsDiffer ks
    → find (λ x. x.key == key) ks ≡ some k
    → any (is_usable key now) ks ≡ is_usable key now k
usable_first key now [] k d e = cc
usable_first key now (j ∷ js) k d e =
    ground (arith, no_twin key now j js, usable_first key now js k d.1, d.0)

-- Where no two rows have the same text, a use of a key of the table goes through exactly when the
-- key is not revoked, has not expired and has a use left, and otherwise it is refused for the first
-- of these reasons that applies.
pub consume_key_lem :
    (key : String) (now : ℕ) (db : Db) (k : SetupKey)
    → TextsDiffer db.setup_keys
    → key_by_text key db ≡ some k
    → consume_key key now db ≡ (
        if is_some k.revoked_at
        then err (unauthorized revoked_key)
        else if is_expired now k
        then err (unauthorized expired_key)
        else if is_exhausted k
        then err (unauthorized exhausted_key)
        else ok (record db { setup_keys = consume key now db.setup_keys }, k.id))
unfolding consume_key diagnose_key
consume_key_lem key now db k d e =
    ground (arith, usable_first key now db.setup_keys k d e, find_key key db.setup_keys k e)
