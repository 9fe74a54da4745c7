-- ===== src/Control/Signal.antt =====
-- cmd/server/signal.go: the hub of signal connections and what a peer may send through it. A
-- connection is a number; `writes c` is whether a write to it succeeds. The payload of a message is
-- its text. The database's answer to `PeersForID` is the list of the keys that the sender sees, or
-- `none` when the lookup fails. A message that is not JSON is `none`.
pub mod Delivery
use go_wireguard_mesh.Common.{
  Bool, Dict, List, Option, String, [], any, delete, false, if◌then◌else◌, insert, lookup, nat_eq,
  nat_key, none, some, text_key, true, ℕ, ◌+◌, ◌==◌, ◌||◌, ◌∷◌,
}

-- `signalMessage`, without its time.
pub record Message : Type 0 where
  pub kind : String
  pub sender : String
  pub target : String
  pub payload : String

-- `signalClient`.
pub record Client : Type 0 where
  pub public_key : String
  pub conn : ℕ

-- `signalHub`. `closed` are the connections that it closed, the last one first; `sent` are the
-- messages that were written, with their connections, the last one first.
pub record Hub : Type 0 where
  pub clients : Dict String ℕ
  pub closed : List ℕ
  pub sent : List (ℕ × Message)

pub data Failure : Type 0 where
  invalid_message : Failure
  kind_required : Failure
  lookup_failed : Failure
  unknown_target : Failure
  not_connected : Failure

-- `newSignalHub`.
unfoldable pub new_signal_hub : Hub
new_signal_hub = record { clients = []; closed = []; sent = [] }

-- The connection that a newer one replaces is closed.
abbrev pub close_old : Option ℕ → ℕ → List ℕ → List ℕ
close_old none conn closed = closed
close_old (some old) conn closed = if nat_eq old conn then closed else old ∷ closed

-- `register`.
unfoldable pub register : Client → Hub → Hub
register c h = record h {
  clients = insert c.public_key c.conn h.clients;
  closed = close_old (lookup c.public_key h.clients) c.conn h.closed;
}

-- `unregister`.
unfoldable pub unregister : Client → Hub → Hub
unregister c h = elim (lookup c.public_key h.clients) [
  | none ↦ h
  | some conn ↦
      if nat_eq conn c.conn then record h { clients = delete c.public_key h.clients } else h
]

module _ (writes : ℕ → Bool) where
  -- `write` on a client's connection.
  abbrev pub deliver_to : ℕ → Message → Hub → Hub × Bool
  deliver_to conn m h =
      if writes conn then (record h { sent = (conn, m) ∷ h.sent }, true) else (h, false)

  -- `send`.
  unfoldable pub send : String → Message → Hub → Hub × Bool
  send to m h = elim (lookup to h.clients) [ none ↦ (h, false) | some conn ↦ deliver_to conn m h ]

  -- The loop of `broadcast`, over the clients that it copied.
  unfoldable pub send_all : Message → Dict String ℕ → Hub → Hub × ℕ
  send_all m [] h = (h, 0)
  send_all m ((key, conn) ∷ cs) h =
      let (g, wrote) = deliver_to conn m h in
      let (f, n) = send_all m cs g in (f, if wrote then n + 1 else n)

  -- `broadcast`: the number of the clients that were written to.
  unfoldable pub broadcast : Message → Hub → Hub × ℕ
  unfolding send_all
  broadcast m h = send_all m h.clients h

  -- The part of `handleSignalMessage` behind the checks of the message.
  unfoldable pub forward_message :
      Client → Option (List String) → Message → Hub → Hub × Option Failure
  unfolding send
  forward_message c visible m h = elim visible [
    | none ↦ (h, some lookup_failed)
    | some keys ↦
        if any (λ k. k == m.target) keys
        then (
          (send m.target (record m { sender = c.public_key }) h).0,
          if (send m.target (record m { sender = c.public_key }) h).1
              then none
              else some not_connected,
        )
        else (h, some unknown_target)
  ]

  -- `handleSignalMessage`.
  unfoldable pub handle_signal_message :
      Client → Option (List String) → Option Message → Hub → Hub × Option Failure
  unfolding forward_message
  handle_signal_message c visible text h = elim text [
    | none ↦ (h, some invalid_message)
    | some m ↦
        if m.kind == ""
        then (h, some kind_required)
        else if (m.kind == "hello") || (m.target == "")
        then (h, none)
        else forward_message c visible m h
  ]
