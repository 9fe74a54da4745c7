-- ===== src/Tests/FirewallRuns.antt =====
-- Runs of internal/firewall/firewall.go with the iptables backend.
use go_wireguard_mesh.Common.{
  Bool, String, [], arith, bytes_key, false, if◌then◌else◌, nat_key, none, refl, some, text_key,
  true, ◌==◌, ◌∷◌, ◌≡◌,
}
use go_wireguard_mesh.Firewall.{
  Cmd, Manager, Rule, Word, allow, allow_tcp, close, open_with_reconcile, text, number,
}
use go_wireguard_mesh.Firewall.Backends.{detect, firewalld, iptables, nftables}
use go_wireguard_mesh.Firewall.Restarted.{Commutes, open_with_reconcile-allow_all}
use go_wireguard_mesh.Firewall.Restored.{Undoes, allow_all, close-allow_all}

-- A host that only tells whether an `-I` or a `-D` came last for UDP, and for any other protocol.
abbrev Doors : Type 0
Doors = Bool × Bool

abbrev is_text : String → Word → Bool
is_text s [] = false
is_text s (number n ∷ ps) = false
is_text s (text t ∷ ps) = s == t

abbrev first_is : String → Cmd → Bool
first_is s [] = false
first_is s (w ∷ ws) = is_text s w

abbrev rest : Cmd → Cmd
rest [] = []
rest (w ∷ ws) = ws

abbrev turn : Bool → Bool → Doors → Doors
turn udp o d = if udp then (o, d.1) else (d.0, o)

abbrev execute : Cmd → Doors → Doors × Bool
execute c d = (turn (first_is "udp" (rest (rest (rest (rest c))))) (first_is "-I" (rest c)) d, true)

abbrev IsShut : Rule → Doors → Type 0
IsShut r d = (if "udp" == r.proto then d.0 else d.1) ≡ false

execute-Undoes : Undoes execute IsShut iptables "relay"
unfolding iptables
execute-Undoes r d f e = ground (arith, f)

execute-Commutes : Commutes execute iptables "relay"
unfolding iptables
execute-Commutes r s d = ground arith

abbrev relay_manager : Manager
relay_manager = record {
  tag = "relay";
  backend = some iptables;
  rules = [];
  has_file = true;
  file = none;
}

abbrev relay_range : Rule
relay_range = record { proto = "udp"; port_min = 51820; port_max = 51920 }

abbrev api_port : Rule
api_port = record { proto = "tcp"; port_min = 8443; port_max = 8443 }

opened_run :
    (allow_all execute IsShut (relay_range ∷ api_port ∷ []) relay_manager (false, false)).1
    ≡ (true, true)
unfolding allow iptables
opened_run = refl

inactive_ufw_run : detect (λ cmd. some "Status: inactive") (λ out t. out == t) ≡ some nftables
unfolding detect
inactive_ufw_run = refl

api_run : (allow_tcp execute 8443 relay_manager (false, false)).0.file ≡ some (api_port ∷ [])
unfolding allow iptables
api_run = refl

one_port_run :
    firewalld.allow_cmds "relay" api_port
    ≡ ((text "firewall-cmd" ∷ [])
        ∷ (text "--add-port=" ∷ number 8443 ∷ text "/" ∷ text "tcp" ∷ [])
        ∷ [])
      ∷ []
unfolding firewalld
one_port_run = refl

close-allow_all_example :
    let o = allow_all execute IsShut (relay_range ∷ api_port ∷ []) relay_manager (false, false) in
    ((close execute o.0 o.1).1 ≡ (false, false)) × ((close execute o.0 o.1).0.rules ≡ [])
unfolding iptables allow
close-allow_all_example =
    close-allow_all execute IsShut iptables (relay_range ∷ api_port ∷ []) relay_manager
      (false, false) refl refl refl execute-Undoes (refl, refl, (refl, refl, tt))

open_with_reconcile-allow_all_example :
    let o = allow_all execute IsShut (relay_range ∷ api_port ∷ []) relay_manager (false, false) in
    let x = open_with_reconcile execute "relay" (some iptables) o.0.file o.1 in
    (x.1 ≡ (false, false)) × (x.0.rules ≡ []) × (x.0.file ≡ none)
unfolding iptables allow
open_with_reconcile-allow_all_example =
    open_with_reconcile-allow_all execute IsShut iptables relay_range (api_port ∷ []) relay_manager
      (false, false) refl refl refl refl execute-Undoes execute-Commutes
      (refl, refl, (refl, refl, tt))
