-- ===== src/Pipelines/Text/Spaces.antt =====
-- What the rewriting of one line does to its bytes.
use ccb_operator.Base.{
  ◌≡◌, refl, Bool, true, false, not, if◌then◌else◌, [], ◌∷◌, select, arith, Bool-cases, inl, inr,
}
use ccb_operator.Base.Bytes.{Bytes}
use ccb_operator.Pipelines.Text.{is_space, collapse_from, collapse}

-- Every space is a blank, and none follows another. The flag says that one came before.
abbrev pub SingleSpaced : Bool → Bytes → Type 0
SingleSpaced after [] = Unit
SingleSpaced after (c ∷ line) =
    if is_space c
    then (after ≡ false) × (c ≡ b' ') × SingleSpaced true line
    else SingleSpaced false line

abbrev pub words : Bytes → Bytes
words line = select (λ c. not (is_space c)) line

collapse_from-SingleSpaced :
    (after : Bool) (line : Bytes) → SingleSpaced after (collapse_from after line)
unfolding collapse_from
collapse_from-SingleSpaced after [] = tt
collapse_from-SingleSpaced true (c ∷ line) = elim (Bool-cases (is_space c)) [
  | inl e ↦ rw e (collapse_from-SingleSpaced true line)
  | inr e ↦ rw (e, e) (collapse_from-SingleSpaced false line)
]
collapse_from-SingleSpaced false (c ∷ line) = elim (Bool-cases (is_space c)) [
  | inl e ↦ rw e (refl, refl, collapse_from-SingleSpaced true line)
  | inr e ↦ rw (e, e) (collapse_from-SingleSpaced false line)
]

words-collapse_from : (after : Bool) (line : Bytes) → words (collapse_from after line) ≡ words line
unfolding collapse_from
words-collapse_from after [] = refl
words-collapse_from true (c ∷ line) = elim (Bool-cases (is_space c)) [
  | inl e ↦ rw e (words-collapse_from true line)
  | inr e ↦ rw (e, e) (rw (words-collapse_from false line) refl)
]
words-collapse_from false (c ∷ line) = elim (Bool-cases (is_space c)) [
  | inl e ↦ rw e (words-collapse_from true line)
  | inr e ↦ rw (e, e) (rw (words-collapse_from false line) refl)
]

collapse_from_fixed :
    (after : Bool) (line : Bytes) → SingleSpaced after line → collapse_from after line ≡ line
unfolding collapse_from
collapse_from_fixed after [] h = refl
collapse_from_fixed true (c ∷ line) h =
    ground (arith, collapse_from_fixed true line, collapse_from_fixed false line)
collapse_from_fixed false (c ∷ line) h =
    ground (arith, collapse_from_fixed true line, collapse_from_fixed false line)

-- After the rewriting, every space of a line is a blank and none follows another. The other bytes
-- are the same, in the same order. A line that is so already is left as it is.
pub collapse_lem :
    (line : Bytes)
    → SingleSpaced false (collapse line)
      × (words (collapse line) ≡ words line)
      × (SingleSpaced false line → collapse line ≡ line)
unfolding collapse
collapse_lem line = (
  collapse_from-SingleSpaced false line,
  words-collapse_from false line,
  collapse_from_fixed false line,
)
