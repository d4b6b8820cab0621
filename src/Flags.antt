-- ===== src/Flags.antt =====
-- The package flag: variables that are bound to flags, and the parsing of the arguments. The
-- arguments are given as the pairs of a name and a value into which the package splits them.
use ccb_operator.Base.{
  ◌==◌, if◌then◌else◌, String, ◌<>◌, Option, none, some, List, [], ◌∷◌, ◌⊎◌, inl, inr,
}
use ccb_operator.Base.Integers.{ℤ}
use ccb_operator.Go.{Error, text}

-- A flag of a set whose variables are the fields of `O`. `none` stands for a value that cannot be
-- parsed.
pub record Flag (O : Type 0) : Type 0 where
  pub name : String
  pub assign : String → O → Option O

-- `fs.StringVar(&o.field, name, default, usage)`; the default is in the options that `parse` gets.
abbrev pub string_var : {O : Type 0} → String → (String → O → O) → Flag O
string_var name write = record { name = name; assign = λ value o. some (write value o) }

-- `fs.IntVar`, with strconv's parser.
abbrev pub int_var : {O : Type 0} → (String → Option ℤ) → String → (ℤ → O → O) → Flag O
int_var parse_int name write = record {
  name = name;
  assign = λ value o. elim (parse_int value) [ none ↦ none | some n ↦ some (write n o) ];
}

module _ {O : Type 0} where
  unfoldable pub find_flag : String → List (Flag O) → Option (Flag O)
  find_flag name [] = none
  find_flag name (flag ∷ flags) =
      let rest = find_flag name flags in if name == flag.name then some flag else rest

  abbrev assign_found : String → String → Option (Flag O) → O → Error ⊎ O
  assign_found name value none o = inl (text ("flag provided but not defined: -" <> name))
  assign_found name value (some flag) o = elim (flag.assign value o) [
    | none ↦ inl (text ("invalid value for flag -" <> name))
    | some o' ↦ inr o'
  ]

  unfoldable pub parse : List (Flag O) → List (String × String) → O → Error ⊎ O
  unfolding find_flag
  parse flags [] o = inr o
  parse flags ((name, value) ∷ arguments) o =
      elim (assign_found name value (find_flag name flags) o) [
        | inl e ↦ inl e
        | inr o' ↦ parse flags arguments o'
      ]
