-- ===== src/Version/Reading.antt =====
-- What the pieces of `to_full_string` are made of, and that `parse` reads each piece back.
use yanuget.Prelude.{
  ℕ, ◌≤◌, ◌<◌, Bool, true, false, Option, none, some, List, [], ◌∷◌, ◌++◌, ◌+◌, ◌≡◌, and_intro,
  refl, all, arith, ltb, if◌then◌else◌, not, inl, inr, Bool-cases, all_mono, is_empty, ◌==◌, ltb→lt,
}
use yanuget.Prelude.Result.{ok}
use yanuget.Text.{Text, is_ascii_digit, lacks, split, join, decimal}
use yanuget.Text.Split.{split-join, all-join, join-split}
use yanuget.Text.Decimal.{
  all_digits-decimal, read_onto-decimal, parse_u64_digits, decimal_head, decimal_small,
}
use yanuget.Version.{
  NuGetVersion, core, core_string, label_suffix, metadata_suffix, is_pre_char, valid_identifier,
  valid_identifiers, max_component,
}
use yanuget.Version.Parse.{parse_component, read_core, parse_label}
use yanuget.Version.Valid.{IsValid, ValidMetadata}

read_positive :
    (n d : ℕ) (s : Text)
    → n ≤ max_component
    → decimal n ≡ (b'0' + d) ∷ s
    → 0 < d
    → d < 10
    → parse_component (decimal n) ≡ some n
unfolding parse_component
read_positive n d s bound e p q =
    let digits = rw e at (all_digits-decimal n) in
    let value = rw e at (read_onto-decimal n) in
    let read = parse_u64_digits (b'0' + d) s digits in rw e (ground arith)

-- A component is read back from its decimal numeral.
pub parse_component-decimal : (n : ℕ) → n ≤ max_component → parse_component (decimal n) ≡ some n
parse_component-decimal n bound = elim (Bool-cases (ltb 0 n)) [
  | inl more ↦
      let (d, s, e, p, q) = decimal_head n (ltb→lt 0 n more) in read_positive n d s bound e p q
  | inr zero_ ↦
      let z : n ≡ 0 = ground arith in
      rw (z, decimal_small 0 (omega arith)) (unfold parse_component in refl)
]

-- the components that `core_string` writes
pub core_parts : NuGetVersion → List Text
core_parts v =
    if ltb 0 v.revision
    then decimal v.major ∷ decimal v.minor ∷ decimal v.patch ∷ decimal v.revision ∷ []
    else decimal v.major ∷ decimal v.minor ∷ decimal v.patch ∷ []

pub core_string-join : (v : NuGetVersion) → core_string v ≡ join b'.' (core_parts v)
unfolding core_string core_parts join
core_string-join v = ground arith

core_parts-all :
    (p : Text → Bool) (v : NuGetVersion)
    → ((n : ℕ) → p (decimal n) ≡ true)
    → all p (core_parts v) ≡ true
unfolding core_parts
core_parts-all p v h = ground (arith, h v.major, h v.minor, h v.patch, h v.revision)

-- A test that holds of digits and of the dot holds of all that `core_string` writes.
pub all-core_string :
    (p : ℕ → Bool) (v : NuGetVersion)
    → p b'.' ≡ true
    → ((c : ℕ) → is_ascii_digit c ≡ true → p c ≡ true)
    → all p (core_string v) ≡ true
all-core_string p v dot digit = rw core_string-join (
    all-join p b'.' (core_parts v) dot (
      core_parts-all (all p) v
        (λ n. all_mono is_ascii_digit p (decimal n) digit (all_digits-decimal n))))

decimal_ne : (n : ℕ) → is_empty (decimal n) ≡ false
decimal_ne n = elim (Bool-cases (ltb 0 n)) [
  | inl more ↦ let (d, s, e, _, _) = decimal_head n (ltb→lt 0 n more) in rw e
  | inr zero_ ↦ rw (decimal_small n (ground arith))
]

is_empty-append : (s t : Text) → is_empty s ≡ false → is_empty (s ++ t) ≡ false
is_empty-append [] t h = cc
is_empty-append (c ∷ s) t h = refl

pub is_empty-core_string : (v : NuGetVersion) (t : Text) → is_empty (core_string v ++ t) ≡ false
unfolding core_string
is_empty-core_string v t = is_empty-append (core_string v) t (elim (Bool-cases (ltb 0 v.revision)) [
  | inl four ↦ rw four (is_empty-append (decimal v.major) _ (decimal_ne v.major))
  | inr three ↦ rw three (is_empty-append (decimal v.major) _ (decimal_ne v.major))
])

dotless : (n : ℕ) → lacks b'.' (decimal n) ≡ true
dotless n =
    all_mono is_ascii_digit (λ c. not (c == b'.')) (decimal n) (λ c h. ground arith)
      (all_digits-decimal n)

split-core_string : (v : NuGetVersion) → split b'.' (core_string v) ≡ core_parts v
unfolding core_parts
split-core_string v = rw (core_string-join v) (elim (Bool-cases (ltb 0 v.revision)) [
  | inl four ↦
      rw (four, core_parts)
        (split-join b'.' _ _ (rw four at (core_parts-all (lacks b'.') v dotless)))
  | inr three ↦
      rw (three, core_parts)
        (split-join b'.' _ _ (rw three at (core_parts-all (lacks b'.') v dotless)))
])

-- The numeric core is read back from what `core_string` writes.
pub read_core-core_string :
    (original : Text) (v : NuGetVersion)
    → IsValid v
    → read_core original parse_component (split b'.' (core_string v)) ≡ ok (core v)
unfolding core_parts read_core
read_core-core_string original v h = rw split-core_string (
    ground (
      arith,
      parse_component-decimal v.major,
      parse_component-decimal v.minor,
      parse_component-decimal v.patch,
      parse_component-decimal v.revision,
    ))

-- the label as `split_once` hands it over
abbrev pub label_text : List Text → Option Text
label_text [] = none
label_text (p ∷ ps) = some (join b'.' (p ∷ ps))

pre_chars :
    (z : Bool) (ids : List Text)
    → all (valid_identifier z) ids ≡ true
    → all (all is_pre_char) ids ≡ true
unfolding valid_identifier
pre_chars z ids h = all_mono (valid_identifier z) (all is_pre_char) ids (λ id k. ground arith) h

pre_char_ne_dot : (c : ℕ) → is_pre_char c ≡ true → not (c == b'.') ≡ true
unfolding is_pre_char
pre_char_ne_dot c h = ground arith

dotless_ids : (ids : List Text) → all (all is_pre_char) ids ≡ true → all (lacks b'.') ids ≡ true
dotless_ids ids h =
    all_mono (all is_pre_char) (lacks b'.') ids
      (λ id k. all_mono is_pre_char (λ c. not (c == b'.')) id pre_char_ne_dot k) h

-- A label of valid identifiers is read back from its dotted text.
pub parse_label-label_text :
    (original : Text) (pre : List Text)
    → all (valid_identifier false) pre ≡ true
    → parse_label original (label_text pre) ≡ ok pre
unfolding parse_label valid_identifiers
parse_label-label_text original [] h = refl
parse_label-label_text original (p ∷ ps) h =
    rw (split-join b'.' p ps (dotless_ids (p ∷ ps) (pre_chars false (p ∷ ps) h))) (rw h)

-- A test that holds of label characters and of the dot holds of a valid label and its dash,
pub all-label_suffix :
    (t : ℕ → Bool) (z : Bool) (pre : List Text)
    → t b'.' ≡ true
    → t b'-' ≡ true
    → ((c : ℕ) → is_pre_char c ≡ true → t c ≡ true)
    → all (valid_identifier z) pre ≡ true
    → all t (label_suffix pre) ≡ true
all-label_suffix t z [] dot dash char h = refl
all-label_suffix t z (p ∷ ps) dot dash char h =
    and_intro (t b'-') (all t (join b'.' (p ∷ ps))) dash (
      all-join t b'.' (p ∷ ps) dot (
        all_mono (all is_pre_char) (all t) (p ∷ ps) (λ id k. all_mono is_pre_char t id char k)
          (pre_chars z (p ∷ ps) h)))

-- and of valid metadata and its plus.
pub all-metadata_suffix :
    (t : ℕ → Bool) (m : Option Text)
    → t b'.' ≡ true
    → t b'+' ≡ true
    → ((c : ℕ) → is_pre_char c ≡ true → t c ≡ true)
    → ValidMetadata m
    → all t (metadata_suffix m) ≡ true
unfolding valid_identifiers
all-metadata_suffix t none dot plus char h = refl
all-metadata_suffix t (some m) dot plus char h = and_intro (t b'+') (all t m) plus (
    rw join-split at (
      all-join t b'.' (split b'.' m) dot (
        all_mono (all is_pre_char) (all t) (split b'.' m) (λ id k. all_mono is_pre_char t id char k)
          (pre_chars true (split b'.' m) h))))
