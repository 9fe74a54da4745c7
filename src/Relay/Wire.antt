-- ===== src/Relay/Wire.antt =====
-- internal/relay/relay.go, `wgShaped`: the test that a datagram must pass before the relay
-- forwards it, learns from it or counts it as a sign of life. A datagram is the list of its bytes.
pub mod Shape
use go_wireguard_mesh.Common.{
  ℕ, Bool, false, true, not, ◌||◌, List, [], ◌∷◌, ltb, leb, nat_eq, if◌then◌else◌, length, get_or,
}

abbrev pub msg_initiation : ℕ
msg_initiation = 1

abbrev pub msg_response : ℕ
msg_response = 2

abbrev pub msg_cookie : ℕ
msg_cookie = 3

abbrev pub msg_transport : ℕ
msg_transport = 4

-- `b[i]`, read only where the length has been tested.
abbrev pub byte_at : List ℕ → ℕ → ℕ
byte_at b i = get_or b i 0

unfoldable pub wg_shaped : List ℕ → Bool
wg_shaped b =
    if ltb (length b) 4
      || not (nat_eq (byte_at b 1) 0)
      || not (nat_eq (byte_at b 2) 0)
      || not (nat_eq (byte_at b 3) 0)
    then false
    else if nat_eq (byte_at b 0) msg_initiation
    then nat_eq (length b) 148
    else if nat_eq (byte_at b 0) msg_response
    then nat_eq (length b) 92
    else if nat_eq (byte_at b 0) msg_cookie
    then nat_eq (length b) 64
    else if nat_eq (byte_at b 0) msg_transport
    then leb 32 (length b)
    else false
