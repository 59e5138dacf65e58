-- ===== src/Commands.antt =====
-- internal/ssh/commands.go: the registry of the partyline's commands, and the built-in ones. What a
-- handler prints on the terminal is left out.
pub mod Registry
pub mod Help
use micelio.Base.{
  ℕ, zero, suc, ◌-◌, Bool, true, false, not, Option, none, some, List, [], ◌∷◌, ◌++◌, length, ◌==◌,
  nat_eq, if◌then◌else◌,
}
use micelio.Base.Bytes.{Bytes, bytes_eq, codes}
use micelio.Base.Dict.{Dict, lookup, insert, has_key}
use micelio.Stdlib.Fields.{fields, rune_count}
use micelio.Partyline
use micelio.Partyline.{Hub}

-- `H` is the type of the handlers; `none` is a nil handler.
pub record Command (H : Type 0) : Type 0 where
  pub usage : Bytes
  pub help : Bytes
  pub handler : Option H

pub record CommandRegistry (H : Type 0) : Type 0 where
  pub commands : Dict Bytes (Command H)
  pub order : List Bytes
  pub frozen : Bool

-- Where Dispatch ends: without a field, with an unknown name, in a call of the handler, or in a call
-- of a nil handler.
pub data Dispatched (H : Type 0) : Type 0 where
  blank : Dispatched H
  unknown : Bytes → Dispatched H
  called : H → List Bytes → Dispatched H
  crashed : Dispatched H

unfoldable pub spaces : ℕ → Bytes
spaces zero = []
spaces (suc n) = 32 ∷ spaces n

-- fmt.Sprintf("%-14s", s)
unfoldable pub pad : Bytes → Bytes
unfolding spaces
pad s = s ++ spaces (14 - rune_count s)

-- "  %-14s — %s\n"; the dash has three bytes.
unfoldable pub help_line : Bytes → Bytes → Bytes
help_line display help =
    codes "  "
    ++ (pad display
        ++ (codes " " ++ ((226 ∷ 128 ∷ 148 ∷ []) ++ (codes " " ++ (help ++ (10 ∷ []))))))

abbrev pub called_with : {H : Type 0} → Option H → List Bytes → Dispatched H
called_with none args = crashed
called_with (some h) args = called h args

abbrev pub zero_command : {H : Type 0} → Command H
zero_command = record { usage = []; help = []; handler = none }

-- `cmd := r.commands[name]`, the zero command if there is none.
abbrev pub command_or_zero : {H : Type 0} → Option (Command H) → Command H
command_or_zero none = zero_command
command_or_zero (some cmd) = cmd

module _ {H : Type 0} where
  unfoldable pub new_command_registry : CommandRegistry H
  new_command_registry = record { commands = []; order = []; frozen = false }

  -- Register; `none` is a panic.
  unfoldable pub register : CommandRegistry H → Bytes → Command H → Option (CommandRegistry H)
  register r name cmd = elim cmd.handler [
    | none ↦ none
    | some h ↦
        if r.frozen
        then none
        else some (record r {
          order = if has_key name r.commands then r.order else r.order ++ (name ∷ []);
          commands = insert name cmd r.commands;
        })
  ]

  unfoldable pub freeze : CommandRegistry H → CommandRegistry H
  freeze r = record r { frozen = true }

  unfoldable pub dispatch_parts : CommandRegistry H → List Bytes → Dispatched H
  dispatch_parts r [] = blank
  dispatch_parts r (name ∷ args) = elim (lookup name r.commands) [
    | none ↦ unknown name
    | some cmd ↦ called_with cmd.handler args
  ]

  -- Dispatch
  unfoldable pub dispatch : CommandRegistry H → Bytes → Dispatched H
  dispatch r line = dispatch_parts r (fields line)

  abbrev pub help_of : Bytes → Command H → Bytes
  help_of name cmd = help_line (if cmd.usage == [] then name else cmd.usage) cmd.help

  unfoldable pub help_lines : CommandRegistry H → List Bytes → Bytes
  help_lines r [] = []
  help_lines r (name ∷ names) =
      help_of name (command_or_zero (lookup name r.commands)) ++ help_lines r names

  -- HelpText
  unfoldable pub help_text : CommandRegistry H → Bytes
  help_text r = (codes "Commands:" ++ (10 ∷ [])) ++ help_lines r r.order

-- The handlers of the built-in commands.
pub data Builtin : Type 0 where
  who nick quit help : Builtin

-- The commands that RegisterBuiltins registers, in its order.
abbrev pub builtins : List (Bytes × Command Builtin)
builtins =
    (codes "/who", record { usage = []; help = codes "list online users"; handler = some who })
    ∷ (
      codes "/nick",
      record {
        usage = codes "/nick <name>";
        help = codes "change your nickname";
        handler = some nick;
      },
    )
    ∷ (codes "/quit", record { usage = []; help = codes "disconnect"; handler = some quit })
    ∷ (codes "/help", record { usage = []; help = codes "show this help"; handler = some help })
    ∷ []

-- Registrations one after another; `none` is a panic in one of them.
unfoldable pub register_all :
    {H : Type 0} → CommandRegistry H → List (Bytes × Command H) → Option (CommandRegistry H)
register_all r [] = some r
register_all r ((name, cmd) ∷ rest) = elim (register r name cmd) [
  | none ↦ none
  | some r' ↦ register_all r' rest
]

-- RegisterBuiltins
unfoldable pub register_builtins : CommandRegistry Builtin → Option (CommandRegistry Builtin)
register_builtins r = register_all r builtins

-- A handler: the hub after it, and whether the session is to be closed. `session` is the id of the
-- session that runs the command.
unfoldable pub run_builtin : Builtin → Hub → ℕ → List Bytes → Hub × Bool
run_builtin who hub session args = ((Partyline.serve hub Partyline.who).0, false)
run_builtin nick hub session [] = (hub, false)
run_builtin nick hub session (name ∷ args) =
    ((Partyline.serve hub (Partyline.set_nick session name)).0, false)
run_builtin quit hub session args = (hub, true)
run_builtin help hub session args = (hub, false)
