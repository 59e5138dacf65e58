-- ===== src/Commands/Help.antt =====
-- What the help text lists.
use micelio.Base.{◌≡◌, refl, ap, ◌∙◌, arith, none, some, [], ◌∷◌, ◌++◌, All, beq_iff, beq_refl}
use micelio.Base.Bytes.{Bytes, bytes_eq, codes}
use micelio.Base.Dict.{Dict, lookup, UniqueKeys}
use micelio.Commands.{CommandRegistry, Command, help_of, help_lines, help_text}
use micelio.Commands.Registry.{IsValid, keys}

module _ {H : Type 0} where
  -- A line for each command.
  unfoldable pub lines_of : Dict Bytes (Command H) → Bytes
  lines_of [] = []
  lines_of ((name, cmd) ∷ m) = help_of name cmd ++ lines_of m

  abbrev Found : Dict Bytes (Command H) → Dict Bytes (Command H) → Type 0
  Found m es = All (λ e. lookup e.0 m ≡ some e.1) es

  Found-grow :
      (name : Bytes) (cmd : Command H) (m es : Dict Bytes (Command H))
      → lookup name m ≡ none
      → Found m es
      → Found ((name, cmd) ∷ m) es
  unfolding lookup
  Found-grow name cmd m [] new f = tt
  Found-grow name cmd m ((other, c) ∷ es) new (f, fs) =
      (ground (arith, beq_iff name other), Found-grow name cmd m es new fs)

  each-Found : (m : Dict Bytes (Command H)) → UniqueKeys m → Found m m
  unfolding lookup
  each-Found [] u = tt
  each-Found ((name, cmd) ∷ m) (new, u) =
      (ground (arith, beq_refl name), Found-grow name cmd m m new (each-Found m u))

  help_lines-Found :
      (r : CommandRegistry H) (es : Dict Bytes (Command H))
      → Found r.commands es
      → help_lines r (keys es) ≡ lines_of es
  unfolding help_lines lines_of
  help_lines-Found r [] f = refl
  help_lines-Found r ((name, cmd) ∷ es) (f, fs) =
      rw f (ap (◌++◌ (help_of name cmd)) (help_lines-Found r es fs))

  -- The help text of a valid registry is its heading and one line for each registered command, with
  -- that command's own usage and help.
  pub help_text-lines_of :
      (r : CommandRegistry H)
      → IsValid r
      → help_text r ≡ (codes "Commands:" ++ (10 ∷ [])) ++ lines_of r.commands
  unfolding help_text
  help_text-lines_of r v =
      ap (◌++◌ (codes "Commands:" ++ (10 ∷ []))) (
        ap (help_lines r) v.listed ∙ help_lines-Found r r.commands (each-Found r.commands v.unique))
