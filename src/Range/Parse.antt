-- ===== src/Range/Parse.antt =====
-- `VersionRange::parse`.
use yanuget.Prelude.{
  ℕ, ◌+◌, ◌*◌, Bool, false, not, ◌&&◌, ◌||◌, Option, none, some, [], ◌∷◌, ◌==◌, ltb, if◌then◌else◌,
  any, is_empty,
}
use yanuget.Prelude.Result.{Result, ok, err, ◌>>=◌}
use yanuget.Text.{Text, len, trim, split_once}
use yanuget.Version.{NuGetVersion}
use yanuget.Version.Parse.{parse as parse_version}
use yanuget.Range.{Bound, VersionRange, any_version, exact, at_least, is_empty as is_empty_range}

abbrev pub max_range_chars : ℕ
max_range_chars = 2 * 256 + 8

-- the messages, in the order of the source
pub data Reason : Type 0 where
  too_long invalid_version stray_brackets unclosed nested_brackets : Reason
  single_not_exact more_than_two no_version inclusive_open_end unsatisfiable : Reason

-- `RangeParseError`: the input as given, and the message
pub record RangeParseError : Type 0 where
  pub input : Text
  pub why : Reason

abbrev pub Parsed : Type 0 → Type 0
Parsed = Result RangeParseError

-- whether a text contains one of the characters
abbrev pub is_bracket_or_star : ℕ → Bool
is_bracket_or_star c = c == b'[' || c == b']' || c == b'(' || c == b')' || c == b'*'

abbrev pub is_range_mark : ℕ → Bool
is_range_mark c = c == b',' || is_bracket_or_star c

-- the last character, and what stands before it
unfoldable pub split_last : Text → Option (Text × ℕ)
split_last [] = none
split_last (c ∷ s) = elim (split_last s) [ none ↦ some ([], c) | some (t, d) ↦ some (c ∷ t, d) ]

-- an open end that is written as inclusive
abbrev pub open_and_inclusive : Option Bound → Bool → Bool
open_and_inclusive none inclusive = inclusive
open_and_inclusive (some _) inclusive = false

module _ (input : Text) where
  abbrev pub fail {ℓ} : {A : Type ℓ} → Reason → Result RangeParseError A
  fail why = err (record { input = input; why = why })

  -- the closure `version`
  unfoldable pub version : Text → Parsed NuGetVersion
  version v = elim (parse_version (trim v)) [ ok w ↦ ok w | err _ ↦ fail invalid_version ]

  -- one side of the comma, trimmed
  unfoldable pub side : Text → Bool → Parsed (Option Bound)
  unfolding version
  side s inclusive =
      if is_empty s
      then ok none
      else do v ← version s; ok (some (record { version = v; inclusive = inclusive }))

  unfoldable pub two_sides : Text → Text → Bool → Bool → Parsed VersionRange
  unfolding side
  two_sides lo hi min_inclusive max_inclusive =
      if is_empty lo && is_empty hi then fail no_version else do
        min ← side lo min_inclusive
        max ← side hi max_inclusive
        if open_and_inclusive min min_inclusive || open_and_inclusive max max_inclusive
            then fail inclusive_open_end
            else ok (record { min = min; max = max })

  unfoldable pub between : Text → Bool → Bool → Parsed VersionRange
  unfolding two_sides version exact
  between inner min_inclusive max_inclusive = elim (split_once b',' inner) [
    | none ↦
        if not (min_inclusive && max_inclusive)
        then fail single_not_exact
        else do v ← version inner; ok (exact v)
    | some (lo, hi) ↦
        if any (λ c. c == b',') hi
        then fail more_than_two
        else two_sides (trim lo) (trim hi) min_inclusive max_inclusive
  ]

  unfoldable pub satisfiable : VersionRange → Parsed VersionRange
  satisfiable range = if is_empty_range range then fail unsatisfiable else ok range

  unfoldable pub closed : ℕ → Text → ℕ → Parsed VersionRange
  unfolding between satisfiable
  closed open_mark inner close =
      if not (close == b']' || close == b')')
      then fail unclosed
      else if any is_bracket_or_star inner
      then fail nested_brackets
      else do range ← between inner (open_mark == b'[') (close == b']'); satisfiable range

  unfoldable pub bare : Text → Parsed VersionRange
  unfolding version at_least
  bare s = if any is_range_mark s then fail stray_brackets else do v ← version s; ok (at_least v)

  unfoldable pub parse_trimmed : Text → Parsed VersionRange
  unfolding bare closed split_last
  parse_trimmed [] = ok any_version
  parse_trimmed (c ∷ s) =
      if not (c == b'[' || c == b'(')
      then bare (c ∷ s)
      else elim (split_last s) [ none ↦ fail unclosed | some (inner, close) ↦ closed c inner close ]

unfoldable pub parse : Text → Parsed VersionRange
unfolding parse_trimmed
parse input =
    if ltb max_range_chars (len (trim input))
    then fail input too_long
    else parse_trimmed input (trim input)
