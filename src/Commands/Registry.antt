-- ===== src/Commands/Registry.antt =====
-- What the registry keeps, and which handler a line reaches.
use mathlib.Core.Path.{subst}
use micelio.Base.{
  ◌≡◌, ◌≢◌, refl, sym, ap, ◌∙◌, arith, Bool, true, false, Option, none, some, inl, inr, List, [],
  ◌∷◌, ◌++◌, map, All, ◌==◌, nat_eq, beq_iff, if◌then◌else◌, Bool-cases, Option-cases,
}
use micelio.Base.Bytes.{Bytes, bytes_eq}
use micelio.Base.Dict.{
  Dict, lookup, insert, has_key, UniqueKeys, UniqueKeys-insert, lookup-insert, All-insert,
  All-lookup,
}
use micelio.Stdlib.Fields.{fields, join_words, IsWord, fields-join_words}
use micelio.Commands.{
  CommandRegistry, Command, Dispatched, unknown, crashed, called_with, register, dispatch,
  dispatch_parts, register_all,
}

abbrev pub keys : {V : Type 0} → Dict Bytes V → List Bytes
keys m = map (λ e. e.0) m

-- `order` names each command once, and every command has a handler.
pub record IsValid {H : Type 0} (r : CommandRegistry H) : Type 0 where
  pub unique : UniqueKeys r.commands
  pub listed : r.order ≡ keys r.commands
  pub handled : All (λ e. e.1.handler ≢ none) r.commands

push_if :
    (b : Bool) (j k : Bytes) (ks : List Bytes)
    → j ∷ (if b then ks else ks ++ (k ∷ [])) ≡ (if b then j ∷ ks else j ∷ (ks ++ (k ∷ [])))
push_if true j k ks = refl
push_if false j k ks = refl

keys-insert :
    {V : Type 0} (k : Bytes) (v : V) (m : Dict Bytes V)
    → keys (insert k v m) ≡ (if has_key k m then keys m else keys m ++ (k ∷ []))
unfolding insert lookup
keys-insert k v [] = refl
keys-insert k v ((j, w) ∷ m) = elim (Bool-cases (j == k)) [
  | inl same ↦ rw (same, (beq_iff j k).0 same) refl
  | inr other ↦ rw other (ap (◌∷◌ j) (keys-insert k v m) ∙ push_if (has_key k m) j k (keys m))
]

module _ {H : Type 0} where
  pub register_ok :
      (r r' : CommandRegistry H) (name : Bytes) (cmd : Command H)
      → register r name cmd ≡ some r'
      → (h : H) × (cmd.handler ≡ some h)
        × (r'.commands ≡ insert name cmd r.commands)
        × (r'.order ≡ (if has_key name r.commands then r.order else r.order ++ (name ∷ [])))
  unfolding register
  register_ok r r' name cmd p = ground arith

  register-IsValid :
      (r r' : CommandRegistry H) (name : Bytes) (cmd : Command H)
      → register r name cmd ≡ some r'
      → IsValid r
      → IsValid r'
  register-IsValid r r' name cmd p v =
      let (h, some_handler, commands, order) = register_ok r r' name cmd p in
      record {
        unique = rw commands (UniqueKeys-insert name cmd r.commands v.unique);
        listed =
            order
            ∙ ap (λ ks. if has_key name r.commands then ks else ks ++ (name ∷ [])) v.listed
            ∙ sym (ap keys commands ∙ keys-insert name cmd r.commands);
        handled =
            rw commands
              (All-insert (λ e. e.1.handler ≢ none) name cmd r.commands (ground arith) v.handled);
      }

  and_then : List (Bytes × Command H) → Option (CommandRegistry H) → Option (CommandRegistry H)
  and_then cs none = none
  and_then cs (some r) = register_all r cs

  some_inj : (r r' : CommandRegistry H) → some r ≡ some r' → r ≡ r'
  some_inj r r' p = ground arith

  none_some : (r : CommandRegistry H) → ◌≢◌ {A = Option (CommandRegistry H)} none (some r)
  none_some r p = ground arith

  abbrev found_with : Bytes → List Bytes → Option (Command H) → Dispatched H
  found_with name args none = unknown name
  found_with name args (some cmd) = called_with cmd.handler args

  dispatch_lookup :
      (r : CommandRegistry H) (name : Bytes) (args : List Bytes)
      → dispatch_parts r (name ∷ args) ≡ found_with name args (lookup name r.commands)
  unfolding dispatch_parts
  dispatch_lookup r name args = elim (Option-cases (lookup name r.commands)) [
    | inl absent ↦ rw (absent, dispatch_parts) refl
    | inr (cmd, found) ↦ rw (found, dispatch_parts) refl
  ]

  found_if :
      (b : Bool) (word : Bytes) (args : List Bytes) (cmd : Command H) (o : Option (Command H))
      (d : Dispatched H)
      → d ≡ found_with word args o
      → found_with word args (if b then some cmd else o)
        ≡ (if b then called_with cmd.handler args else d)
  found_if true word args cmd o d e = refl
  found_if false word args cmd o d e = sym e

  called_with-crashed : (o : Option H) (args : List Bytes) → o ≢ none → called_with o args ≢ crashed
  called_with-crashed none args n p = n refl
  called_with-crashed (some h) args n p = ground arith

  found_with-crashed :
      (r : CommandRegistry H) (name : Bytes) (args : List Bytes)
      → IsValid r
      → found_with name args (lookup name r.commands) ≢ crashed
  found_with-crashed r name args v = elim (Option-cases (lookup name r.commands)) [
    | inl absent ↦ rw absent (ground arith)
    | inr (cmd, found) ↦ rw found (
        called_with-crashed cmd.handler args
          (All-lookup (λ e. e.1.handler ≢ none) name cmd r.commands v.handled found))
  ]

  parts-crashed :
      (r : CommandRegistry H) (parts : List Bytes) → IsValid r → dispatch_parts r parts ≢ crashed
  unfolding dispatch_parts
  parts-crashed r [] v p = ground arith
  parts-crashed r (name ∷ args) v p =
      found_with-crashed r name args v (sym (dispatch_lookup r name args) ∙ p)

  -- Registrations that do not panic keep a valid registry valid: the help order names each command
  -- once, and every command has a handler.
  pub register_all-IsValid :
      (r r' : CommandRegistry H) (cs : List (Bytes × Command H))
      → register_all r cs ≡ some r'
      → IsValid r
      → IsValid r'
  unfolding register_all and_then
  register_all-IsValid r r' [] p v = subst IsValid (some_inj r r' p) v
  register_all-IsValid r r' ((name, cmd) ∷ cs) p v = elim (Option-cases (register r name cmd)) [
    | inl panics ↦ absurd (none_some r' (ap (and_then cs) (sym panics) ∙ p))
    | inr (r1, done) ↦
        register_all-IsValid r1 r' cs (ap (and_then cs) (sym done) ∙ p)
          (register-IsValid r r1 name cmd done v)
  ]

  -- After a command is registered, a line of ASCII words without space in them, with one space between
  -- two words: if it starts with the command's name, it calls its handler with the other words, and if
  -- it starts with another name, it does what it did before.
  pub dispatch-register :
      (r r' : CommandRegistry H) (name : Bytes) (cmd : Command H) (word : Bytes) (args : List Bytes)
      → register r name cmd ≡ some r'
      → All IsWord (word ∷ args)
      → dispatch r' (join_words (word ∷ args)) ≡ (
          if name == word
          then called_with cmd.handler args
          else dispatch r (join_words (word ∷ args)))
  unfolding dispatch
  dispatch-register r r' name cmd word args p ok =
      let (h, some_handler, commands, order) = register_ok r r' name cmd p in
      rw (fields-join_words (word ∷ args) ok) (
        dispatch_lookup r' word args
        ∙ ap (found_with word args)
            (ap (lookup word) commands ∙ lookup-insert name word cmd r.commands)
        ∙ found_if (name == word) word args cmd (lookup word r.commands) _
            (dispatch_lookup r word args))

  -- On a valid registry no line ever calls a nil handler.
  pub dispatch-handled :
      (r : CommandRegistry H) (line : Bytes) → IsValid r → dispatch r line ≢ crashed
  unfolding dispatch
  dispatch-handled r line v = parts-crashed r (fields line) v
