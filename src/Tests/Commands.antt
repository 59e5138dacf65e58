-- ===== src/Tests/Commands.antt =====
-- Runs of the command registry.
use micelio.Base.{◌≡◌, refl, arith, false, some, [], ◌∷◌, All, nat_eq}
use micelio.Base.Bytes.{bytes_eq, bytes_beq, codes}
use micelio.Base.Dict.{lookup, insert}
use micelio.Stdlib.Fields.{IsWord, is_ascii_space}
use micelio.Commands.{
  CommandRegistry, Command, Builtin, nick, builtins, called, register, register_all, dispatch,
}
use micelio.Commands.Registry.{IsValid, register_all-IsValid, dispatch-register}

abbrev empty : CommandRegistry Builtin
empty = record { commands = []; order = []; frozen = false }

-- The registry after RegisterBuiltins.
abbrev pub filled : CommandRegistry Builtin
filled = record {
  commands = builtins;
  order = codes "/who" ∷ codes "/nick" ∷ codes "/quit" ∷ codes "/help" ∷ [];
  frozen = false;
}

builtins_registered : register_all empty builtins ≡ some filled
unfolding register_all register lookup insert bytes_beq
builtins_registered = refl

empty-IsValid : IsValid empty
empty-IsValid = record { unique = tt; listed = refl; handled = tt }

pub filled-IsValid : IsValid filled
filled-IsValid = register_all-IsValid empty filled builtins builtins_registered empty-IsValid

abbrev nick_command : Command Builtin
nick_command = record { usage = []; help = codes "n"; handler = some nick }

abbrev one : CommandRegistry Builtin
one = record { commands = (codes "/n", nick_command) ∷ []; order = codes "/n" ∷ []; frozen = false }

one_registered : register empty (codes "/n") nick_command ≡ some one
unfolding register lookup insert
one_registered = refl

words : All IsWord (codes "/n" ∷ codes "ada" ∷ [])
unfolding is_ascii_space
words = (
  record { nonempty = ground arith; plain = ((omega arith, refl), ((omega arith, refl), tt)) },
  (
    record {
      nonempty = ground arith;
      plain = ((omega arith, refl), ((omega arith, refl), ((omega arith, refl), tt)));
    },
    tt,
  ),
)

dispatch-register_example : dispatch one (codes "/n ada") ≡ called nick (codes "ada" ∷ [])
unfolding bytes_beq
dispatch-register_example =
    dispatch-register empty one (codes "/n") nick_command (codes "/n") (codes "ada" ∷ [])
      one_registered words
