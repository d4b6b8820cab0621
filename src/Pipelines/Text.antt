-- ===== src/Pipelines/Text.antt =====
-- The text that the vega pipeline rewrites (pkg/pipelines/vega.go), byte by byte.
pub mod Spaces
use ccb_operator.Base.{
  ℕ, zero, suc, Bool, true, false, ◌||◌, if◌then◌else◌, Option, none, some, List, [], ◌∷◌, ◌++◌,
  length, ◌-◌,
}
use ccb_operator.Base.Bytes.{Bytes, bytes, same_byte, has_prefix, split}

-- `\s` of package regexp
abbrev pub is_space : ℕ → Bool
is_space c =
    same_byte c b' ' || (same_byte c 9 || (same_byte c 10 || (same_byte c 12 || same_byte c 13)))

-- `space.ReplaceAllString(line, " ")` for `\s+`. The flag says that the byte before was a space.
unfoldable pub collapse_from : Bool → Bytes → Bytes
collapse_from after [] = []
collapse_from after (c ∷ line) =
    let skipped = collapse_from true line in
    let kept = c ∷ collapse_from false line in
    let first = b' ' ∷ collapse_from true line in
    if is_space c then if after then skipped else first else kept

unfoldable pub collapse : Bytes → Bytes
unfolding collapse_from
collapse line = collapse_from false line

-- `lineValues[0]` to `lineValues[4]` with the spaces that synspec49 wants. `none` is the panic of
-- an index out of range.
unfoldable pub recreate_vars_line : List Bytes → Option Bytes
recreate_vars_line (a ∷ b ∷ c ∷ d ∷ e ∷ _) = some (
    a
    ++ ((if same_byte (length b) 6 then bytes "  " else bytes " ")
        ++ (b ++ (bytes " " ++ (c ++ (bytes "  " ++ (d ++ (bytes "   " ++ e))))))))
recreate_vars_line _ = none

-- strings.Replace(s, old, new, -1) for an `old` that is not empty: `skip` bytes of a replaced
-- occurrence are still to be passed over.
unfoldable pub replace_from : Bytes → Bytes → ℕ → Bytes → Bytes
replace_from old new skip [] = []
replace_from old new (suc skip) (c ∷ s) = replace_from old new skip s
replace_from old new zero (c ∷ s) =
    let found = new ++ replace_from old new (length old - 1) s in
    let other = c ∷ replace_from old new zero s in if has_prefix (c ∷ s) old then found else other

-- What one line of the model becomes.
unfoldable pub rewrite_line : Bytes → Option Bytes
unfolding collapse recreate_vars_line replace_from has_prefix split
rewrite_line line =
    let line' = collapse line in
    if has_prefix line' (bytes "TEFF")
    then recreate_vars_line (split b' ' line')
    else if has_prefix line' (bytes "READ DECK6 72")
    then some (replace_from (bytes "READ DECK6 72") (bytes "READ DECK6 64") 0 line')
    else some line'
