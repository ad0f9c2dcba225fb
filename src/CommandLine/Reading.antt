-- ===== src/CommandLine/Reading.antt =====
-- What argparse's documentation says of a plain command line: options that are written out with
-- their value behind them, switches, and positional arguments.
use powerhoc.Common.{
  Bool, true, false, ◌&&◌, List, [], ◌∷◌, Option, none, some, Bytes, beq, ◌==◌, ◌≡◌, if◌then◌else◌,
}
use powerhoc.CommandLine.{
  Value, text, flag, int, float, absent, Kind, as_text, as_int, as_float, store_true, Argument,
  Parser, Namespace, broker_parser, worker_parser, cluster_parser,
}
use powerhoc.Dict.{bytes_eq, set}
use powerhoc.Exc.{Result, ok}
use powerhoc.Text.Decimal.{is_digit, to_int}

all_digits : Bytes → Bool
all_digits [] = true
all_digits (c ∷ s) = is_digit c && all_digits s

-- The digits of a negative number
is_number : Bytes → Bool
is_number [] = false
is_number (c ∷ s) = all_digits (c ∷ s)

-- A text that is read as a value: without a dash in front, or a negative number.
unfoldable pub is_value : Bytes → Bool
unfolding is_number all_digits
is_value [] = true
is_value (c ∷ s) = if c == b'-' then is_number s else true

-- Where the reading stands: the option that waits for its value, the positional arguments that are
-- still to come, and the namespace so far.
pub record Reading (F : Type 0) : Type 0 where
  pub pending : Option (Argument F)
  pub left : List Bytes
  pub args : Namespace F

module _ {F : Type 0} where
  unfoldable pub find : Bytes → List (Argument F) → Option (Argument F)
  find w [] = none
  find w (o ∷ os) = if beq w o.name then some o else find w os

  module _ (to_float : Bytes → Option F) where
    unfoldable pub convert : Kind → Bytes → Option (Value F)
    convert as_text w = some (text w)
    convert as_int w = elim (to_int w) [ none ↦ none | some n ↦ some (int n) ]
    convert as_float w = elim (to_float w) [ none ↦ none | some x ↦ some (float x) ]
    convert store_true w = none

    -- The value of the option that waits
    unfoldable pub take_value : Argument F → Reading F → Bytes → Option (Reading F)
    unfolding convert is_value set
    take_value o r w =
        if is_value w
        then (elim (convert o.kind w) [
          | none ↦ none
          | some x ↦ some (record r { pending = none; args = set o.dest x r.args })
        ])
        else none

    unfoldable pub take_positional : Reading F → List Bytes → Bytes → Option (Reading F)
    unfolding is_value set
    take_positional r [] w = none
    take_positional r (name ∷ names) w =
        if is_value w
        then some (record r { left = names; args = set name (text w) r.args })
        else none

    unfoldable pub take_option : Reading F → Argument F → Kind → Option (Reading F)
    unfolding set
    take_option r o store_true = some (record r { args = set o.dest (flag true) r.args })
    take_option r o _ = some (record r { pending = some o })

    unfoldable pub advance : List (Argument F) → Reading F → Bytes → Option (Reading F)
    unfolding find take_value take_positional take_option
    advance os r w = elim r.pending [
      | some o ↦ take_value o r w
      | none ↦ elim (find w os) [
        | none ↦ take_positional r r.left w
        | some o ↦ take_option r o o.kind
      ]
    ]

    unfoldable pub read : List (Argument F) → Option (Reading F) → List Bytes → Option (Reading F)
    unfolding advance
    read os r [] = r
    read os none (w ∷ ws) = none
    read os (some r) (w ∷ ws) = read os (advance os r w) ws

    -- Every value was there, and no positional argument is missing.
    unfoldable pub finished : Option (Reading F) → Option (Namespace F)
    finished none = none
    finished (some r) = elim r.pending [
      | some o ↦ none
      | none ↦ elim r.left [ [] ↦ some r.args | name ∷ names ↦ none ]
    ]

    unfoldable pub no_values : List Bytes → List (Argument F) → Namespace F
    no_values [] [] = []
    no_values [] (o ∷ os) = (o.dest, o.default) ∷ no_values [] os
    no_values (name ∷ names) os = (name, absent) ∷ no_values names os

    unfoldable pub plain_reading : Parser F → List Bytes → Option (Namespace F)
    unfolding read finished no_values
    plain_reading p argv = finished (
        read p.options
          (some (record {
            pending = none;
            left = p.positionals;
            args = no_values p.positionals p.options;
          }))
          argv)

  -- The three parsers
  pub data IsOurs (literal : Bytes → F) : Parser F → Type 0 where
    of_broker : IsOurs literal broker_parser
    of_worker : IsOurs literal (worker_parser literal)
    of_cluster : IsOurs literal cluster_parser

  -- `parse_args` does on plain command lines of the three programs what is documented.
  abbrev pub IsDocumented :
      (Bytes → Option F) → (Bytes → F) → (Parser F → List Bytes → Result (Namespace F)) → Type 0
  IsDocumented to_float literal parse_args =
      (p : Parser F) (argv : List Bytes) (args : Namespace F)
      → IsOurs literal p
      → plain_reading to_float p argv ≡ some args
      → parse_args p argv ≡ ok args
