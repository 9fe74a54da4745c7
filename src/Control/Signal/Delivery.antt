-- ===== src/Control/Signal/Delivery.antt =====
-- Who receives what through the signal hub.
use mathlib.Core.Path.{subst}
use go_wireguard_mesh.Common.{
  Bool, Bool-cases, List, Option, Option-cases, String, any, arith, false, inl, inr, lookup,
  nat_key, none, not, some, text_key, true, ℕ, ◌==◌, ◌||◌, ◌∷◌, ◌≡◌, ◌⊎◌,
}
use go_wireguard_mesh.Control.Signal.{
  Client, Failure, Hub, Message, forward_message, handle_signal_message, not_connected, send,
  unknown_target,
}

-- A message that asks to be forwarded.
abbrev pub is_request : Message → Bool
is_request m = not ((m.kind == "") || (m.kind == "hello") || (m.target == ""))

abbrev pub stamped : Client → Message → Message
stamped c m = record m { sender = c.public_key }

abbrev pub is_seen : List String → Message → Bool
is_seen keys m = any (λ k. k == m.target) keys

module _ (writes : ℕ → Bool) where
  -- The message was written to the connection of its target, which the sender sees, under the key
  -- of the sender's own connection.
  abbrev pub IsForwarded : Client → List String → Message → Hub → Hub × Option Failure → Type 0
  IsForwarded c keys m h r =
      (conn : ℕ) × (is_seen keys m ≡ true)
      × (lookup m.target h.clients ≡ some conn)
      × (writes conn ≡ true)
      × (r ≡ (record h { sent = (conn, stamped c m) ∷ h.sent }, none))

  -- The message was refused and changed nothing: its target is not seen, or it is not connected, or
  -- the write to it failed.
  abbrev pub IsRefused : List String → Message → Hub → Hub × Option Failure → Type 0
  IsRefused keys m h r =
      (r.0 ≡ h)
      × ((is_seen keys m ≡ false) × (r.1 ≡ some unknown_target)
          ⊎ (r.1 ≡ some not_connected)
            × ((lookup m.target h.clients ≡ none)
                ⊎ ((conn : ℕ) × (lookup m.target h.clients ≡ some conn) × (writes conn ≡ false))))

  abbrev pub Outcome : Client → List String → Message → Hub → Hub × Option Failure → Type 0
  Outcome c keys m h r = IsForwarded c keys m h r ⊎ IsRefused keys m h r

  forward_message_lem :
      (c : Client) (keys : List String) (m : Message) (h : Hub)
      → Outcome c keys m h (forward_message writes c (some keys) m h)
  unfolding forward_message send
  forward_message_lem c keys m h = elim (Bool-cases (is_seen keys m)) [
    | inr e ↦ inr (ground arith, inl (e, ground arith))
    | inl e ↦ elim (Option-cases (lookup m.target h.clients)) [
      | inl l ↦ inr (ground arith, inr (ground arith, inl l))
      | inr (conn, l) ↦ elim (Bool-cases (writes conn)) [
        | inl w ↦ inl (conn, e, l, w, ground arith)
        | inr w ↦ inr (ground arith, inr (ground arith, inr (conn, l, w)))
      ]
    ]
  ]

  -- A request that a peer sends through the hub is written to one connection, that of its target,
  -- when the sender sees the target and the target is connected and can be written to; it arrives
  -- under the sender's own key, whatever the sender wrote there. In every other case it is refused
  -- with its reason and changes nothing.
  pub handle_signal_message_lem :
      (c : Client) (keys : List String) (m : Message) (h : Hub)
      → is_request m ≡ true
      → Outcome c keys m h (handle_signal_message writes c (some keys) (some m) h)
  unfolding handle_signal_message
  handle_signal_message_lem c keys m h q =
      let e : forward_message writes c (some keys) m h
          ≡ handle_signal_message writes c (some keys) (some m) h =
        ground arith in
      subst (Outcome c keys m h) e (forward_message_lem c keys m h)
