-- ===== src/Version/RoundTrip.antt =====
-- `parse` reads back what `to_full_string` and `normalized` write.
use yanuget.Prelude.{
  ℕ, ◌≤◌, Bool, true, false, Option, none, some, List, [], ◌∷◌, ◌++◌, ◌≡◌, refl, ◌∙◌, all, arith,
  ltb, not, all-append, and_intro, is_empty, append_assoc, append-nil, ◌==◌,
}
use yanuget.Prelude.Result.{ok}
use yanuget.Text.{Text, is_whitespace, lacks, len, trim, join}
use yanuget.Text.Split.{split_once-lacks, split_once-append}
use yanuget.Text.Trim.{trim_id}
use yanuget.Version.{
  NuGetVersion, core_string, label_suffix, metadata_suffix, to_full_string, is_pre_char,
  max_version_chars, max_input_chars,
}
use yanuget.Version.Parse.{
  parse, parse_parts, split_label, split_metadata, with_core, within_length,
}
use yanuget.Version.Valid.{IsValid, ValidMetadata}
use yanuget.Version.Reading.{
  all-core_string, is_empty-core_string, read_core-core_string, label_text, parse_label-label_text,
  all-label_suffix, all-metadata_suffix,
}

-- A test that holds of every character that a version may be written with holds of all of it.
all-to_full_string :
    (t : ℕ → Bool) (v : NuGetVersion)
    → IsValid v
    → t b'.' ≡ true
    → t b'-' ≡ true
    → t b'+' ≡ true
    → ((c : ℕ) → is_pre_char c ≡ true → t c ≡ true)
    → all t (to_full_string v) ≡ true
unfolding to_full_string is_pre_char
all-to_full_string t v h dot dash plus char =
    all-append t (core_string v) (label_suffix v.pre ++ metadata_suffix v.metadata)
    ∙ and_intro _ _ (all-core_string t v dot (λ c d. char c (ground arith))) (
        all-append t (label_suffix v.pre) (metadata_suffix v.metadata)
        ∙ and_intro _ _ (all-label_suffix t false v.pre dot dash char h.pre_valid)
            (all-metadata_suffix t v.metadata dot plus char h.metadata_valid))

not_blank : (c : ℕ) → is_pre_char c ≡ true → not (is_whitespace c) ≡ true
unfolding is_pre_char is_whitespace
not_blank c h = ground arith

trim-to_full_string : (v : NuGetVersion) → IsValid v → trim (to_full_string v) ≡ to_full_string v
unfolding is_whitespace
trim-to_full_string v h =
    trim_id (to_full_string v)
      (all-to_full_string (λ c. not (is_whitespace c)) v h refl refl refl not_blank)

plusless_core_label :
    (v : NuGetVersion) → IsValid v → lacks b'+' (core_string v ++ label_suffix v.pre) ≡ true
unfolding is_pre_char
plusless_core_label v h =
    all-append (λ c. not (c == b'+')) (core_string v) (label_suffix v.pre)
    ∙ and_intro _ _ (all-core_string (λ c. not (c == b'+')) v refl (λ c d. ground arith)) (
        all-label_suffix (λ c. not (c == b'+')) false v.pre refl refl (λ c d. ground arith)
          h.pre_valid)

dashless_core : (v : NuGetVersion) → lacks b'-' (core_string v) ≡ true
dashless_core v = all-core_string (λ c. not (c == b'-')) v refl (λ c d. ground arith)

split_metadata_lem :
    (original s : Text) (m : Option Text)
    → lacks b'+' s ≡ true
    → ValidMetadata m
    → split_metadata original (s ++ metadata_suffix m) ≡ split_label original s m
unfolding split_metadata
split_metadata_lem original s none l h =
    rw append-nil (rw (split_once-lacks b'+' s l, split_metadata))
split_metadata_lem original s (some m) l h =
    rw (split_once-append b'+' s m l, split_metadata) (rw h)

split_label_lem :
    (original c : Text) (pre : List Text) (m : Option Text)
    → lacks b'-' c ≡ true
    → split_label original (c ++ label_suffix pre) m ≡ parse_parts original c (label_text pre) m
unfolding split_label
split_label_lem original c [] m l = rw append-nil (rw (split_once-lacks b'-' c l, split_label))
split_label_lem original c (p ∷ ps) m l =
    rw (split_once-append b'-' c (join b'.' (p ∷ ps)) l, split_label)

abbrev pub with_original : NuGetVersion → Text → NuGetVersion
with_original v s = record v { original = s }

-- The full string does not depend on the text that was parsed.
pub to_full_string-with_original :
    (v : NuGetVersion) (s : Text) → to_full_string (with_original v s) ≡ to_full_string v
unfolding to_full_string core_string
to_full_string-with_original v s = refl

within_length_lem :
    (v : NuGetVersion) → len (to_full_string v) ≤ max_version_chars → within_length v ≡ ok v
unfolding within_length
within_length_lem v h = ground arith

parse_parts_lem :
    (original : Text) (v : NuGetVersion)
    → IsValid v
    → parse_parts original (core_string v) (label_text v.pre) v.metadata
      ≡ ok (with_original v original)
unfolding parse_parts with_core
parse_parts_lem original v h = rw (read_core-core_string original v h) (
    rw (parse_label-label_text original v.pre h.pre_valid)
      (within_length_lem (with_original v original) (rw to_full_string-with_original h.short)))

split_metadata-to_full_string :
    (original : Text) (v : NuGetVersion)
    → IsValid v
    → split_metadata original (to_full_string v) ≡ ok (with_original v original)
unfolding to_full_string
split_metadata-to_full_string original v h = rw (← append_assoc) (
    split_metadata_lem original (core_string v ++ label_suffix v.pre) v.metadata
      (plusless_core_label v h) h.metadata_valid
    ∙ split_label_lem original (core_string v) v.pre v.metadata (dashless_core v)
    ∙ parse_parts_lem original v h)

is_empty-to_full_string : (v : NuGetVersion) → is_empty (to_full_string v) ≡ false
unfolding to_full_string
is_empty-to_full_string v =
    is_empty-core_string v (label_suffix v.pre ++ metadata_suffix v.metadata)

-- A valid version is read back from its full string, whatever text it was first read from.
pub parse-to_full_string :
    (v : NuGetVersion)
    → IsValid v
    → parse (to_full_string v) ≡ ok (with_original v (to_full_string v))
unfolding parse
parse-to_full_string v h =
    let fits : ltb max_input_chars (len (to_full_string v)) ≡ false = ground (arith, h.short) in
    rw (trim-to_full_string v h)
      (rw (is_empty-to_full_string v, fits) (split_metadata-to_full_string (to_full_string v) v h))
