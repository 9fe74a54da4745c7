-- ===== src/Firewall.antt =====
-- internal/firewall: the ports that a component opens on the host's firewall and closes again
-- (firewall.go), and the commands of the backends (backends_linux.go). What a command does to the
-- host is a parameter, `run`, which also says whether it succeeded. The state file is the list of
-- rules in its JSON text, or missing; it is read back as it was written.
pub mod Backends
pub mod Restored
pub mod Restarted
use go_wireguard_mesh.Common.{
  Bool, List, Option, String, [], false, if◌then◌else◌, none, some, true, ℕ, ◌++◌, ◌∷◌, min,
}

pub record Rule : Type 0 where
  pub proto : String
  pub port_min : ℕ
  pub port_max : ℕ

-- A part of a word: a text, or a number in decimal, as `%d` writes it.
pub data Piece : Type 0 where
  text : String → Piece
  number : ℕ → Piece

abbrev pub Word : Type 0
Word = List Piece

abbrev pub Cmd : Type 0
Cmd = List Word

-- `backend`.
pub record Backend : Type 0 where
  pub name : String
  pub allow_cmds : String → Rule → List Cmd
  pub remove_cmds : String → Rule → List Cmd
  pub teardown_cmds : String → Option (List Cmd)

-- `Manager`, with its state file, where it has one.
pub record Manager : Type 0 where
  pub tag : String
  pub backend : Option Backend
  pub rules : List Rule
  pub has_file : Bool
  pub file : Option (List Rule)

module _ {H : Type 0} (run : Cmd → H → H × Bool) where
  -- The commands in order, up to the first one that fails.
  abbrev pub run_until : List Cmd → H → H × Bool
  run_until [] h = (h, true)
  run_until (c ∷ cs) h =
      let rest = run_until cs (run c h).0 in if (run c h).1 then rest else ((run c h).0, false)

  -- All the commands, whether they fail or not.
  abbrev pub run_each : List Cmd → H → H
  run_each [] h = h
  run_each (c ∷ cs) h = run_each cs (run c h).0

  -- `persist`.
  abbrev pub persist : Manager → Manager
  persist m = if m.has_file then record m { file = some m.rules } else m

  abbrev pub allowed : Manager → Rule → H × Bool → Manager × H × Bool
  allowed m r o =
      if o.1 then (persist (record m { rules = m.rules ++ r ∷ [] }), o.0, true) else (m, o.0, false)

  -- `allow`.
  unfoldable pub allow : Rule → Manager → H → Manager × H × Bool
  allow r m h = elim m.backend [
    | none ↦ (m, h, true)
    | some b ↦ allowed m r (run_until (b.allow_cmds m.tag r) h)
  ]

  -- `AllowUDP`, `AllowUDPRange` and `AllowTCP`.
  abbrev pub allow_udp : ℕ → Manager → H → Manager × H × Bool
  allow_udp port = allow (record { proto = "udp"; port_min = port; port_max = port })

  abbrev pub allow_udp_range : ℕ → ℕ → Manager → H → Manager × H × Bool
  allow_udp_range min max = allow (record { proto = "udp"; port_min = min; port_max = max })

  abbrev pub allow_tcp : ℕ → Manager → H → Manager × H × Bool
  allow_tcp port = allow (record { proto = "tcp"; port_min = port; port_max = port })

  -- The loop of `Close`, in reverse of addition.
  abbrev pub remove_reversed : Backend → String → List Rule → H → H
  remove_reversed b tag [] h = h
  remove_reversed b tag (r ∷ rs) h = run_each (b.remove_cmds tag r) (remove_reversed b tag rs h)

  -- The loop of `reconcile`, in the order of the file.
  abbrev pub remove_all : Backend → String → List Rule → H → H
  remove_all b tag [] h = h
  remove_all b tag (r ∷ rs) h = remove_all b tag rs (run_each (b.remove_cmds tag r) h)

  -- `clearState`.
  abbrev pub clear_state : Manager → Manager
  clear_state m = record m { rules = []; file = if m.has_file then none else m.file }

  abbrev pub closed : Manager → Backend → H → Manager × H
  closed m b h = elim (b.teardown_cmds m.tag) [
    | some cs ↦ (clear_state m, run_each cs h)
    | none ↦ (clear_state m, remove_reversed b m.tag m.rules h)
  ]

  abbrev pub is_empty : List Rule → Bool
  is_empty [] = true
  is_empty (r ∷ rs) = false

  -- `Close`. Its errors are collected for the log only.
  unfoldable pub close : Manager → H → Manager × H
  close m h = elim m.backend [
    | none ↦ (m, h)
    | some b ↦ if is_empty m.rules then (m, h) else closed m b h
  ]

  abbrev pub torn_down : Option (List Cmd) → H → H
  torn_down none h = h
  torn_down (some cs) h = run_each cs h

  -- `reconcile`, of a file that can be read.
  unfoldable pub reconcile : Backend → Manager → H → Manager × H
  reconcile b m h = elim m.file [
    | none ↦ (m, h)
    | some prior ↦
        (record m { file = none }, torn_down (b.teardown_cmds m.tag) (remove_all b m.tag prior h))
  ]

  -- `OpenWithReconcile`: the backend that was detected and what an earlier run left in the file.
  unfoldable pub open_with_reconcile :
      String → Option Backend → Option (List Rule) → H → Manager × H
  unfolding reconcile
  open_with_reconcile tag o file h =
      let m : Manager = record {
        tag = tag;
        backend = o;
        rules = [];
        has_file = true;
        file = file;
      } in
      elim o [ none ↦ (m, h) | some b ↦ reconcile b m h ]
