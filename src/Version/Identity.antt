-- ===== src/Version/Identity.antt =====
-- `normalized` is the identity of a version: equal versions, and no others, share it.
use yanuget.Version.Reading.{all-core_string, all-label_suffix, is_empty-core_string}
use yanuget.Prelude.{
  ◌≤◌, Bool, all-append, and_intro, is_empty, ap₂, append-nil, ℕ, ◌≤◌, eq, true, false, none, some,
  List, [], ◌∷◌, ◌++◌, ◌≡◌, ◌↔◌, refl, sym, ap, ◌∙◌, all, arith, map, inl, inr, Bool-cases,
  Option-cases, ◌==◌, length-map,
}
use yanuget.Prelude.Result.{ok, ok-injective}
use yanuget.Text.{Text, is_ascii_digit, lower, len, join, parse_u64, decimal}
use yanuget.Text.Lower.{
  lower-lower, len-lower, len-append, lower-join, all_digits-lower, parse_u64-lower,
}
use yanuget.Text.Decimal.{parse_u64-some, decimal_canonical, decimal_small}
use yanuget.Version.{
  max_version_chars, NuGetVersion, core, core_string, label_suffix, lower_label_suffix,
  metadata_suffix, normalized, to_full_string, is_pre_char, valid_identifier, cmp, hashed, textual,
  hash_identifier,
}
use yanuget.Version.Parse.{parse}
use yanuget.Version.Valid.{IsValid, parse-IsValid}
use yanuget.Version.Order.{cmp-eq_iff-hashed}
use yanuget.Version.RoundTrip.{parse-to_full_string, with_original}

-- the version that `normalized` writes out
pub canonical : NuGetVersion → NuGetVersion
canonical v = record v { pre = map lower v.pre; metadata = none }

lower_label : (pre : List Text) → lower_label_suffix pre ≡ label_suffix (map lower pre)
lower_label [] = refl
lower_label (p ∷ ps) = ap (λ s. b'-' ∷ s) (lower-join b'.' (p ∷ ps) refl)

pub normalized-canonical : (v : NuGetVersion) → normalized v ≡ to_full_string (canonical v)
unfolding normalized to_full_string canonical core_string
normalized-canonical v =
    ap (λ s. core_string v ++ s)
      (lower_label v.pre ∙ sym (append-nil (label_suffix (map lower v.pre))))

all_pre_char-lower : (s : Text) → all is_pre_char s ≡ true → all is_pre_char (lower s) ≡ true
unfolding is_pre_char
all_pre_char-lower [] h = refl
all_pre_char-lower (c ∷ s) h = ground (arith, all_pre_char-lower s)

valid-lower :
    (id : Text) → valid_identifier false id ≡ true → valid_identifier false (lower id) ≡ true
unfolding valid_identifier
valid-lower [] h = h
valid-lower (c ∷ []) h = ground (arith, all_digits-lower (c ∷ []), all_pre_char-lower (c ∷ []))
valid-lower (c ∷ d ∷ s) h =
    ground (arith, all_digits-lower (c ∷ d ∷ s), all_pre_char-lower (c ∷ d ∷ s))

all_valid-lower :
    (ids : List Text)
    → all (valid_identifier false) ids ≡ true
    → all (valid_identifier false) (map lower ids) ≡ true
all_valid-lower [] h = refl
all_valid-lower (id ∷ ids) h = ground (arith, valid-lower id, all_valid-lower ids)

len_label : (pre : List Text) → len (label_suffix (map lower pre)) ≡ len (label_suffix pre)
len_label [] = refl
len_label (p ∷ ps) =
    ap (λ t. len (b'-' ∷ t)) (sym (lower-join b'.' (p ∷ ps) refl))
    ∙ len-lower (b'-' ∷ join b'.' (p ∷ ps))

len-normalized : (v : NuGetVersion) → len (to_full_string (canonical v)) ≤ len (to_full_string v)
unfolding to_full_string canonical core_string len
len-normalized v = omega (
  arith,
  len-append (core_string v) (label_suffix (map lower v.pre) ++ []),
  len-append (label_suffix (map lower v.pre)) [],
  len-append (core_string v) (label_suffix v.pre ++ metadata_suffix v.metadata),
  len-append (label_suffix v.pre) (metadata_suffix v.metadata),
  len_label v.pre,
)

pub canonical-IsValid : (v : NuGetVersion) → IsValid v → IsValid (canonical v)
unfolding canonical
canonical-IsValid v h = record {
  major_bound = h.major_bound;
  minor_bound = h.minor_bound;
  patch_bound = h.patch_bound;
  revision_bound = h.revision_bound;
  pre_valid = all_valid-lower v.pre h.pre_valid;
  metadata_valid = tt;
  short = omega (arith, len-normalized v, h.short);
}

-- The canonical version hashes like the version.
hash_identifier-lower : (id : Text) → hash_identifier (lower id) ≡ hash_identifier id
unfolding hash_identifier
hash_identifier-lower id = rw parse_u64-lower (elim (Option-cases (parse_u64 id)) [
  | inl n ↦ rw n (ap textual (lower-lower id))
  | inr (n, e) ↦ rw e
])

hash_identifiers-lower :
    (ids : List Text) → map hash_identifier (map lower ids) ≡ map hash_identifier ids
hash_identifiers-lower [] = refl
hash_identifiers-lower (id ∷ ids) =
    ground (arith, hash_identifier-lower id, hash_identifiers-lower ids)

pub hashed-canonical : (v : NuGetVersion) → hashed (canonical v) ≡ hashed v
unfolding hashed canonical
hashed-canonical v = ground (arith, hash_identifiers-lower v.pre, length-map lower v.pre)

zero_alone :
    (c : ℕ) (s : Text)
    → valid_identifier false (c ∷ s) ≡ true
    → all is_ascii_digit (c ∷ s) ≡ true
    → (c == b'0') ≡ true
    → s ≡ []
unfolding valid_identifier
zero_alone c [] h d e = refl
zero_alone c (x ∷ s) h d e = ground arith

signless : (c : ℕ) (s : Text) → valid_identifier false (c ∷ s) ≡ true → (c == b'+') ≡ false
unfolding valid_identifier is_pre_char
signless c s h = ground arith

-- A valid identifier that reads as a number is that number's decimal numeral.
numeral_of_valid :
    (id : Text) {n : ℕ} → valid_identifier false id ≡ true → parse_u64 id ≡ some n → id ≡ decimal n
numeral_of_valid [] h e = unfold valid_identifier in ground arith
numeral_of_valid (c ∷ s) {n} h e =
    let (digits, value) = parse_u64-some c s (signless c s h) e in
    elim (Bool-cases (c == b'0')) [
      | inl zero_ ↦
          let alone = zero_alone c s h digits zero_ in
          let c_is : c ≡ b'0' = ground arith in
          rw (← value, alone, c_is) (sym (decimal_small 0 (omega arith)))
      | inr other ↦ rw (← value) (sym (decimal_canonical c s digits (ground arith)))
    ]

-- Valid identifiers that hash alike are alike up to case.
lower_of_hash :
    (a b : Text)
    → valid_identifier false a ≡ true
    → valid_identifier false b ≡ true
    → hash_identifier a ≡ hash_identifier b
    → lower a ≡ lower b
unfolding hash_identifier
lower_of_hash a b va vb h = elim (Option-cases (parse_u64 a)) [
  | inl na ↦ elim (Option-cases (parse_u64 b)) [
    | inl nb ↦ ground arith
    | inr (m, mb) ↦ ground arith
  ]
  | inr (n, e) ↦ elim (Option-cases (parse_u64 b)) [
    | inl nb ↦ ground arith
    | inr (m, f) ↦
        let same : n ≡ m = ground arith in
        ap lower (numeral_of_valid a va e ∙ ap decimal same ∙ sym (numeral_of_valid b vb f))
  ]
]

lowers_of_hash :
    (a b : List Text)
    → all (valid_identifier false) a ≡ true
    → all (valid_identifier false) b ≡ true
    → map hash_identifier a ≡ map hash_identifier b
    → map lower a ≡ map lower b
lowers_of_hash [] [] va vb h = refl
lowers_of_hash [] (y ∷ ys) va vb h = ground arith
lowers_of_hash (x ∷ xs) [] va vb h = ground arith
lowers_of_hash (x ∷ xs) (y ∷ ys) va vb h = ground (arith, lower_of_hash x y, lowers_of_hash xs ys)

core_string_of_core : (v w : NuGetVersion) → core v ≡ core w → core_string v ≡ core_string w
unfolding core_string
core_string_of_core v w h = ground arith

normalized_of_hash :
    (v w : NuGetVersion) → IsValid v → IsValid w → hashed v ≡ hashed w → normalized v ≡ normalized w
unfolding hashed normalized
normalized_of_hash v w hv hw h =
    let pre = lowers_of_hash v.pre w.pre hv.pre_valid hw.pre_valid (ap (λ t. t.2) h) in
    let label = lower_label v.pre ∙ ap label_suffix pre ∙ sym (lower_label w.pre) in
    ap₂ (λ s t. s ++ t) (core_string_of_core v w (ap (λ t. t.0) h)) label

hashed-with_original : (v : NuGetVersion) (s : Text) → hashed (with_original v s) ≡ hashed v
unfolding hashed
hashed-with_original v s = refl

hash_of_normalized :
    (v w : NuGetVersion) → IsValid v → IsValid w → normalized v ≡ normalized w → hashed v ≡ hashed w
hash_of_normalized v w hv hw h =
    let p = parse-to_full_string (canonical v) (canonical-IsValid v hv) in
    let q = parse-to_full_string (canonical w) (canonical-IsValid w hw) in
    let same_text = sym (normalized-canonical v) ∙ h ∙ normalized-canonical w in
    let same = ok-injective (sym p ∙ ap parse same_text ∙ q) in
    sym (hashed-canonical v)
    ∙ sym (hashed-with_original (canonical v) (to_full_string (canonical v)))
    ∙ ap hashed same
    ∙ hashed-with_original (canonical w) (to_full_string (canonical w))
    ∙ hashed-canonical w

-- Two valid versions compare as equal exactly when they normalize to the same string, which is
-- their key in the database, in storage paths and in URLs.
pub cmp-eq_iff-normalized :
    (v w : NuGetVersion) → IsValid v → IsValid w → (cmp v w ≡ eq) ↔ (normalized v ≡ normalized w)
cmp-eq_iff-normalized v w hv hw = (
  λ e. normalized_of_hash v w hv hw ((cmp-eq_iff-hashed v w).0 e),
  λ e. (cmp-eq_iff-hashed v w).1 (hash_of_normalized v w hv hw e),
)

-- A valid version's normalized string parses, to a version without metadata, equal to it, and with
-- the same normalized string.
pub parse-normalized :
    (v : NuGetVersion)
    → IsValid v
    → (w : NuGetVersion) × (parse (normalized v) ≡ ok w)
      × (cmp v w ≡ eq)
      × (normalized w ≡ normalized v)
      × (w.metadata ≡ none)
unfolding canonical
parse-normalized v h =
    let full = to_full_string (canonical v) in
    let w = with_original (canonical v) full in
    let read =
      ap parse (normalized-canonical v)
      ∙ parse-to_full_string (canonical v) (canonical-IsValid v h) in
    let valid = parse-IsValid (normalized v) read in
    let hash = sym (hashed-canonical v) ∙ sym (hashed-with_original (canonical v) full) in
    (w, read, (cmp-eq_iff-hashed v w).1 hash, normalized_of_hash w v valid h (sym hash), refl)

-- What a normalized string is made of, and how long it is.
pub all-normalized :
    (t : ℕ → Bool) (v : NuGetVersion)
    → IsValid v
    → t b'.' ≡ true
    → t b'-' ≡ true
    → ((c : ℕ) → is_pre_char c ≡ true → t c ≡ true)
    → all t (normalized v) ≡ true
unfolding normalized canonical
all-normalized t v h dot dash char =
    all-append t (core_string v) (lower_label_suffix v.pre)
    ∙ and_intro _ _ (all-core_string t v dot (λ c d. char c (unfold is_pre_char in ground arith))) (
        rw lower_label (
          all-label_suffix t false (map lower v.pre) dot dash char
            (canonical-IsValid v h).pre_valid))

pub len-normalized_version : (v : NuGetVersion) → IsValid v → len (normalized v) ≤ max_version_chars
len-normalized_version v h = rw normalized-canonical (canonical-IsValid v h).short

pub is_empty-normalized : (v : NuGetVersion) → is_empty (normalized v) ≡ false
unfolding normalized
is_empty-normalized v = is_empty-core_string v (lower_label_suffix v.pre)
