-- ===== src/Text.antt =====
-- Rust's `str` and `String` as lists of code points: what the sources call of the standard library.
pub mod Split
pub mod Trim
pub mod Decimal
pub mod Lower
pub mod Equal
use Prim.Native.Char.{code}
use Prim.Native.String.{String}
use yanuget.Prelude.{
  ℕ, zero, suc, ◌+◌, ◌-◌, ◌*◌, ◌/◌, ◌%◌, ◌^◌, compare, Ordering, Bool, true, false, not, ◌&&◌, ◌||◌,
  Option, none, some, List, [], ◌∷◌, ◌++◌, map, reverse, ltb, leb, ◌==◌, if◌then◌else◌, all, ◌≡◌,
  refl, is_empty,
}
use yanuget.Prelude.Order.{lex_list}

abbrev pub Text : Type 0
Text = List ℕ

-- the code points of a literal
abbrev pub text : String → Text
text String.[] = []
text (String.◌∷◌ c s) = code c ∷ text s

-- the bytes of one code point in UTF-8
abbrev utf8_width : ℕ → ℕ
utf8_width c = if ltb c 0x80 then 1 else if ltb c 0x800 then 2 else if ltb c 0x10000 then 3 else 4

-- `str::len`: bytes
unfoldable pub len : Text → ℕ
len [] = 0
len (c ∷ s) = utf8_width c + len s

abbrev pub within : ℕ → ℕ → ℕ → Bool
within lo hi c = leb lo c && leb c hi

abbrev pub is_ascii_digit : ℕ → Bool
is_ascii_digit c = within b'0' b'9' c

abbrev pub is_ascii_alphanumeric : ℕ → Bool
is_ascii_alphanumeric c = is_ascii_digit c || within b'a' b'z' c || within b'A' b'Z' c

-- `char::is_whitespace`: the White_Space property
unfoldable pub is_whitespace : ℕ → Bool
is_whitespace c =
    within 9 13 c
    || c == 0x20
    || c == 0x85
    || c == 0xa0
    || c == 0x1680
    || within 0x2000 0x200a c
    || c == 0x2028
    || c == 0x2029
    || c == 0x202f
    || c == 0x205f
    || c == 0x3000

abbrev pub lower_char : ℕ → ℕ
lower_char c = if within b'A' b'Z' c then c + 32 else c

-- `to_ascii_lowercase`
abbrev pub lower : Text → Text
lower = map lower_char

-- `==` of two strings
abbrev pub text_eq : Text → Text → Bool
text_eq [] [] = true
text_eq [] (d ∷ t) = false
text_eq (c ∷ s) [] = false
text_eq (c ∷ s) (d ∷ t) = c == d && text_eq s t

-- `eq_ignore_ascii_case`
abbrev pub eq_ignore_case : Text → Text → Bool
eq_ignore_case s t = text_eq (lower s) (lower t)

-- `cmp` of two strings: by bytes, which in UTF-8 is by code points
abbrev pub text_cmp : Text → Text → Ordering
text_cmp = lex_list compare

-- `trim_start_matches`
abbrev pub drop_while : (ℕ → Bool) → Text → Text
drop_while p [] = []
drop_while p (c ∷ s) = let rest = drop_while p s in if p c then rest else c ∷ s

unfoldable pub trim_start : Text → Text
trim_start = drop_while is_whitespace

unfoldable pub trim_end : Text → Text
trim_end s = reverse (drop_while is_whitespace (reverse s))

-- `trim`
unfoldable pub trim : Text → Text
trim s = trim_end (trim_start s)

-- `split_once` at a character
unfoldable pub split_once : ℕ → Text → Option (Text × Text)
split_once b [] = none
split_once b (c ∷ s) =
    let rest = split_once b s in
    if c == b then some ([], s) else elim rest [ none ↦ none | some (x, y) ↦ some (c ∷ x, y) ]

-- whether a text has no `b`
abbrev pub lacks : ℕ → Text → Bool
lacks b = all (λ c. not (c == b))

-- one more character in front of the first piece
abbrev pub onto_first : ℕ → List Text → List Text
onto_first c [] = (c ∷ []) ∷ []
onto_first c (p ∷ ps) = (c ∷ p) ∷ ps

-- `split` at a character: always at least one piece
unfoldable pub split : ℕ → Text → List Text
split b [] = [] ∷ []
split b (c ∷ s) = if c == b then [] ∷ split b s else onto_first c (split b s)

-- `join`
unfoldable pub join : ℕ → List Text → Text
join b [] = []
join b (p ∷ []) = p
join b (p ∷ q ∷ ps) = p ++ (b ∷ join b (q ∷ ps))

abbrev pub starts_with_char : ℕ → Text → Bool
starts_with_char b [] = false
starts_with_char b (c ∷ s) = c == b

-- `strip_suffix` of one dot
abbrev pub ends_with_dot : Text → Option Text
ends_with_dot [] = none
ends_with_dot (c ∷ []) = if c == b'.' then some [] else none
ends_with_dot (c ∷ d ∷ s) =
    let rest = ends_with_dot (d ∷ s) in elim rest [ none ↦ none | some bare ↦ some (c ∷ bare) ]

-- The value of a run of decimal digits, read onto `acc`.
abbrev pub read_onto : ℕ → Text → ℕ
read_onto acc [] = acc
read_onto acc (c ∷ s) = read_onto (acc * 10 + (c - b'0')) s

digits_u64 : Text → Option ℕ
digits_u64 [] = none
digits_u64 (c ∷ s) =
    if all is_ascii_digit (c ∷ s) && ltb (read_onto 0 (c ∷ s)) (2 ^ 64)
    then some (read_onto 0 (c ∷ s))
    else none

-- `parse::<u64>`: digits, after at most one `+`; none on overflow
unfoldable pub parse_u64 : Text → Option ℕ
unfolding digits_u64
parse_u64 [] = none
parse_u64 (c ∷ s) = if c == b'+' then digits_u64 s else digits_u64 (c ∷ s)

decimal_onto : ℕ → ℕ → Text → Text
decimal_onto zero n out = out
decimal_onto (suc f) n out =
    let more = decimal_onto f (n / 10) ((b'0' + n % 10) ∷ out) in
    if ltb n 10 then (b'0' + n) ∷ out else more

-- `{}` of an unsigned integer; a number has at most as many digits as one more than itself
unfoldable pub decimal : ℕ → Text
unfolding decimal_onto
decimal n = decimal_onto (suc n) n []

decimal_test : decimal 2147483647 ≡ text "2147483647"
unfolding decimal
decimal_test = refl

split_test : split b'.' (text "1.02..b") ≡ text "1" ∷ text "02" ∷ [] ∷ text "b" ∷ []
unfolding split
split_test = refl

trim_test : trim (text " \ta b\n") ≡ text "a b"
unfolding trim trim_start trim_end is_whitespace
trim_test = refl
