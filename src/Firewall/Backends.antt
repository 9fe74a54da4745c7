-- ===== src/Firewall/Backends.antt =====
-- internal/firewall/backends_linux.go: the commands of the backends.
use go_wireguard_mesh.Common.{
  List, String, [], bytes_key, if◌then◌else◌, nat_eq, nat_key, none, some, text_key, ◌++◌, ◌∷◌,
  Bool, Option, false, is_some,
}
use go_wireguard_mesh.Firewall.{Backend, Cmd, Rule, Word, text, number}

abbrev pub words : List String → Cmd
words [] = []
words (s ∷ ss) = (text s ∷ []) ∷ words ss

-- `firewalldPort`.
abbrev pub firewalld_port : Rule → Word
firewalld_port r =
    if nat_eq r.port_min r.port_max
    then number r.port_min ∷ text "/" ∷ text r.proto ∷ []
    else number r.port_min ∷ text "-" ∷ number r.port_max ∷ text "/" ∷ text r.proto ∷ []

-- `firewalldBackend`.
unfoldable pub firewalld : Backend
firewalld = record {
  name = "firewalld";
  allow_cmds =
      λ tag r. ((text "firewall-cmd" ∷ []) ∷ (text "--add-port=" ∷ firewalld_port r) ∷ []) ∷ [];
  remove_cmds =
      λ tag r. ((text "firewall-cmd" ∷ []) ∷ (text "--remove-port=" ∷ firewalld_port r) ∷ []) ∷ [];
  teardown_cmds = λ tag. none;
}

-- `ufwPort`.
abbrev pub ufw_port : Rule → Word
ufw_port r =
    if nat_eq r.port_min r.port_max
    then number r.port_min ∷ text "/" ∷ text r.proto ∷ []
    else number r.port_min ∷ text ":" ∷ number r.port_max ∷ text "/" ∷ text r.proto ∷ []

-- `ufwBackend`.
unfoldable pub ufw : Backend
ufw = record {
  name = "ufw";
  allow_cmds =
      λ tag r. (words ("ufw" ∷ "allow" ∷ []) ++ ufw_port r ∷ words ("comment" ∷ tag ∷ [])) ∷ [];
  remove_cmds =
      λ tag r. (words ("ufw" ∷ "--force" ∷ "delete" ∷ "allow" ∷ []) ++ ufw_port r ∷ []) ∷ [];
  teardown_cmds = λ tag. none;
}

-- `nftPort`.
abbrev pub nft_port : Rule → Word
nft_port r =
    if nat_eq r.port_min r.port_max
    then number r.port_min ∷ []
    else number r.port_min ∷ text "-" ∷ number r.port_max ∷ []

-- `nftablesBackend`.
unfoldable pub nftables : Backend
nftables = record {
  name = "nftables";
  allow_cmds = λ tag r.
      words ("nft" ∷ "add" ∷ "table" ∷ "inet" ∷ tag ∷ [])
      ∷ words (
          "nft" ∷ "add" ∷ "chain" ∷ "inet" ∷ tag ∷ "input" ∷ "{" ∷ "type" ∷ "filter" ∷ "hook"
          ∷ "input" ∷ "priority" ∷ "-10" ∷ ";" ∷ "}" ∷ [])
      ∷ (words ("nft" ∷ "add" ∷ "rule" ∷ "inet" ∷ tag ∷ "input" ∷ r.proto ∷ "dport" ∷ [])
          ++ nft_port r ∷ words ("accept" ∷ []))
      ∷ [];
  remove_cmds = λ tag r. [];
  teardown_cmds = λ tag. some (words ("nft" ∷ "delete" ∷ "table" ∷ "inet" ∷ tag ∷ []) ∷ []);
}

-- `iptablesPort`.
abbrev pub iptables_port : Rule → Word
iptables_port r =
    if nat_eq r.port_min r.port_max
    then number r.port_min ∷ []
    else number r.port_min ∷ text ":" ∷ number r.port_max ∷ []

-- `iptablesCmd`.
abbrev pub iptables_cmd : String → String → Rule → Cmd
iptables_cmd action tag r =
    words ("iptables" ∷ action ∷ "INPUT" ∷ "-p" ∷ r.proto ∷ "--dport" ∷ [])
    ++ iptables_port r ∷ words ("-j" ∷ "ACCEPT" ∷ "-m" ∷ "comment" ∷ "--comment" ∷ tag ∷ [])

-- `iptablesBackend`.
unfoldable pub iptables : Backend
iptables = record {
  name = "iptables";
  allow_cmds = λ tag r. iptables_cmd "-I" tag r ∷ [];
  remove_cmds = λ tag r. iptables_cmd "-D" tag r ∷ [];
  teardown_cmds = λ tag. none;
}

-- A command succeeds with an output that contains the text.
abbrev pub says :
    (List String → Option String) → (String → String → Bool) → List String → String → Bool
says output contains cmd t = elim (output cmd) [ none ↦ false | some out ↦ contains out t ]

-- `detect`, of the output of a command, where it succeeded, and of `strings.Contains`.
unfoldable pub detect : (List String → Option String) → (String → String → Bool) → Option Backend
detect output contains =
    if says output contains ("firewall-cmd" ∷ "--state" ∷ []) "running"
    then some firewalld
    else if says output contains ("ufw" ∷ "status" ∷ []) "Status: active"
    then some ufw
    else if is_some (output ("nft" ∷ "list" ∷ "tables" ∷ []))
    then some nftables
    else if is_some (output ("iptables" ∷ "-S" ∷ "INPUT" ∷ []))
    then some iptables
    else none
