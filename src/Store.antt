-- ===== src/Store.antt =====
-- internal/store: the control plane's database. The tables are lists of rows in the order of
-- their ids, with the columns of cmd/server/schema.sql and of its migrations that the modelled
-- operations read or write; NULL is `none`. An IP address is its number in its family, a time the
-- number of milliseconds that its text stands for. An operation that runs in a transaction is a
-- function into `Result (Db × A)`, and `transact` commits or rolls back. SQLite enforces the
-- constraints of the schema: a write that would break one is refused.
pub mod Address
pub mod SetupKeys
pub mod Enroll
pub mod Peers
pub mod Readdress
pub mod Acl
pub mod Network
pub mod Telemetry
pub mod Dns
pub mod Users
pub mod Rows
pub mod Uses
pub mod Valid
use go_wireguard_mesh.Common.{
  Bool, List, Option, String, [], any, false, find, if◌then◌else◌, leb, nat_eq, nat_key, none, not,
  some, text_key, true, ℕ, ◌&&◌, ◌++◌, ◌+◌, ◌==◌, ◌||◌, ◌∷◌, inl, inr, refl, ◌≡◌, ◌⊎◌,
}

pub data Kind : Type 0 where
  agent : Kind
  static : Kind

pub record Peer : Type 0 where
  pub id : ℕ
  pub public_key : String
  pub assigned_ip : ℕ
  pub assigned_ip6 : Option ℕ
  pub kind : Kind
  pub gateway : Option ℕ
  pub advertises : Bool
  pub exit_node : Option ℕ
  pub hostname : Option String
  pub listen_port : Option ℕ
  pub setup_key_id : ℕ
  pub token_hash : String
  pub issued_at : ℕ
  pub observed_ip : Option String
  pub public_endpoint : Option String
  pub private_key_enc : Option String
  pub gateway_endpoint : Option String
  pub revoked_at : Option ℕ

pub record SetupKey : Type 0 where
  pub id : ℕ
  pub key : String
  pub name : Option String
  pub max_uses : Option ℕ
  pub uses_consumed : ℕ
  pub expires_at : Option ℕ
  pub revoked_at : Option ℕ

pub data Protocol : Type 0 where
  any_protocol : Protocol
  tcp : Protocol
  udp : Protocol
  icmp : Protocol
  icmpv6 : Protocol

pub record AclRule : Type 0 where
  pub id : ℕ
  pub src : Option ℕ
  pub dst : Option ℕ
  pub name : Option String
  pub protocol : Protocol
  pub port_min : Option ℕ
  pub port_max : Option ℕ

pub record Db : Type 0 where
  pub setup_keys : List SetupKey
  pub peers : List Peer
  pub acl_rules : List AclRule

-- Why a setup key is refused; only the log tells the reasons apart.
pub data Reason : Type 0 where
  unknown_key : Reason
  revoked_key : Reason
  expired_key : Reason
  exhausted_key : Reason
  unknown_reason : Reason
  other_key : Reason

pub data Error : Type 0 where
  unauthorized : Reason → Error
  not_found : Error
  invalid : Error
  no_free_address : Error
  address_in_use : Error
  peer_exists : Error
  no_stored_config : Error
  constraint : Error

pub data Result (A : Type 0) : Type 0 where
  ok : A → Result A
  err : Error → Result A

-- `Commit`, or the deferred `Rollback` after an early return.
abbrev pub settle : {A : Type 0} → Db → Result (Db × A) → Db × Result A
settle db (err e) = (db, err e)
settle db (ok r) = (r.0, ok r.1)

-- `BeginTx`, the body, and its end.
unfoldable pub transact : {A : Type 0} → (Db → Result (Db × A)) → Db → Db × Result A
transact f db = settle db (f db)

-- `nullable`.
abbrev pub nullable : String → Option String
nullable s = if s == "" then none else some s

-- `COALESCE(?, column)`.
abbrev pub coalesce {ℓ} : {A : Type ℓ} → Option A → Option A → Option A
coalesce none b = b
coalesce (some a) b = some a

-- The id of the next row: one more than the largest in the table.
abbrev pub next_id : List ℕ → ℕ
next_id [] = 1
next_id (i ∷ is) = if leb (next_id is) i then i + 1 else next_id is

abbrev pub key_ids : List SetupKey → List ℕ
key_ids [] = []
key_ids (k ∷ ks) = k.id ∷ key_ids ks

abbrev pub peer_ids : List Peer → List ℕ
peer_ids [] = []
peer_ids (p ∷ ps) = p.id ∷ peer_ids ps

abbrev pub same_address : Option ℕ → Option ℕ → Bool
same_address none b = false
same_address (some a) none = false
same_address (some a) (some b) = nat_eq a b

-- Whether two rows of `peers` break a UNIQUE constraint: the public key, the IPv4 address, or the
-- IPv6 address where there is one.
abbrev pub clash : Peer → Peer → Bool
clash p q =
    (p.public_key == q.public_key)
    || nat_eq p.assigned_ip q.assigned_ip
    || same_address p.assigned_ip6 q.assigned_ip6

-- `CHECK (listen_port IS NULL OR (listen_port BETWEEN 1 AND 65535))`.
abbrev pub port_ok : Option ℕ → Bool
port_ok none = true
port_ok (some n) = leb 1 n && leb n 65_535

-- `INSERT INTO peers`.
unfoldable pub insert_peer : Peer → Db → Result Db
insert_peer p db =
    if port_ok p.listen_port && not (any (clash p) db.peers)
    then ok (record db { peers = db.peers ++ p ∷ [] })
    else err constraint

abbrev pub replace_peer : Peer → List Peer → List Peer
replace_peer p [] = []
replace_peer p (q ∷ qs) = (if nat_eq q.id p.id then p else q) ∷ replace_peer p qs

-- `UPDATE peers … WHERE id = ?`, which writes the row `p`.
unfoldable pub save_peer : Peer → Db → Result Db
save_peer p db =
    if port_ok p.listen_port && not (any (λ q. not (nat_eq q.id p.id) && clash p q) db.peers)
    then ok (record db { peers = replace_peer p db.peers })
    else err constraint

abbrev pub peer_by_id : ℕ → Db → Option Peer
peer_by_id i db = find (λ p. nat_eq p.id i) db.peers

abbrev pub peer_by_key : String → Db → Option Peer
peer_by_key key db = find (λ p. p.public_key == key) db.peers

pub Result-cases :
    {A : Type 0} (r : Result A) → ((a : A) × (r ≡ ok a)) ⊎ ((e : Error) × (r ≡ err e))
Result-cases (ok a) = inl (a, refl)
Result-cases (err e) = inr (e, refl)

pub ok-injective : {A : Type 0} (a b : A) → ◌≡◌ {A = Result A} (ok a) (ok b) → a ≡ b
ok-injective a b h = cc

-- What holds before a transaction and after its body holds after the transaction.
pub settle_keeps :
    {A : Type 0} (P : Db → Type 0) (db : Db) (r : Result (Db × A))
    → P db
    → ((d : Db) (a : A) → r ≡ ok (d, a) → P d)
    → P (settle db r).0
settle_keeps P db (err e) h k = h
settle_keeps P db (ok r) h k = k r.0 r.1 refl
