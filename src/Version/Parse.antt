-- ===== src/Version/Parse.antt =====
-- `NuGetVersion::parse` and `NuGetVersion::parse_stored`.
use yanuget.Prelude.{
  ℕ, true, false, not, ◌||◌, Option, none, some, List, [], ◌∷◌, ltb, leb, ◌==◌, if◌then◌else◌, all,
  any, is_empty,
}
use yanuget.Prelude.Result.{Result, ok, err, ◌>>=◌, ok_or}
use yanuget.Text.{Text, is_ascii_digit, len, trim, drop_while, split, split_once, parse_u64}
use yanuget.Version.{
  NuGetVersion, Core, is_pre_char, valid_identifiers, to_full_string, max_component,
  max_version_chars, max_input_chars,
}

-- `VersionParseError` carries the trimmed input.
abbrev pub Parsed : Type 0 → Type 0
Parsed = Result Text

abbrev small_component : Option ℕ → Option ℕ
small_component none = none
small_component (some value) = if leb value max_component then some value else none

-- after the leading zeros
abbrev component_digits : Text → Option ℕ
component_digits [] = some 0
component_digits (c ∷ digits) = small_component (parse_u64 (c ∷ digits))

unfoldable pub parse_component : Text → Option ℕ
parse_component part =
    if is_empty part || not (all is_ascii_digit part)
    then none
    else component_digits (drop_while (λ c. c == b'0') part)

module _ (original : Text) (component : Text → Option ℕ) where
  -- one of minor, patch and revision: 0 if there is no such part
  unfoldable pub slot : List Text → Parsed (ℕ × List Text)
  slot [] = ok (0, [])
  slot (part ∷ parts) = do n ← ok_or original (component part); ok (n, parts)

  -- more than four parts are refused
  unfoldable pub no_more : List Text → Core → Parsed Core
  no_more [] c = ok c
  no_more (part ∷ parts) c = err original

  unfoldable pub read_core : List Text → Parsed Core
  unfolding slot no_more
  read_core [] = err original
  read_core (part ∷ parts) = do
    major ← ok_or original (component part)
    (minor, parts2) ← slot parts
    (patch, parts3) ← slot parts2
    (revision, parts4) ← slot parts3
    no_more parts4 (major, minor, patch, revision)

unfoldable pub with_core : Core → List Text → Option Text → Text → NuGetVersion
with_core c pre metadata original = record {
  major = c.0;
  minor = c.1;
  patch = c.2;
  revision = c.3;
  pre = pre;
  metadata = metadata;
  original = original;
}

unfoldable pub parse_label : Text → Option Text → Parsed (List Text)
parse_label original none = ok []
parse_label original (some p) =
    if not (valid_identifiers p false) then err original else ok (split b'.' p)

unfoldable pub within_length : NuGetVersion → Parsed NuGetVersion
within_length v = if ltb max_version_chars (len (to_full_string v)) then err v.original else ok v

-- from the core, the label and the metadata, each split off
unfoldable pub parse_parts : Text → Text → Option Text → Option Text → Parsed NuGetVersion
unfolding parse_label within_length with_core read_core
parse_parts original core pre_str metadata = do
  c ← read_core original parse_component (split b'.' core)
  pre ← parse_label original pre_str
  within_length (with_core c pre metadata original)

unfoldable pub split_label : Text → Text → Option Text → Parsed NuGetVersion
unfolding parse_parts
split_label original s metadata = elim (split_once b'-' s) [
  | none ↦ parse_parts original s none metadata
  | some (v, p) ↦ parse_parts original v (some p) metadata
]

unfoldable pub split_metadata : Text → Text → Parsed NuGetVersion
unfolding split_label
split_metadata original s = elim (split_once b'+' s) [
  | none ↦ split_label original s none
  | some (v, m) ↦
      if not (valid_identifiers m true) then err original else split_label original v (some m)
]

unfoldable pub parse : Text → Parsed NuGetVersion
unfolding split_metadata
parse input =
    let original = trim input in
    if is_empty original || ltb max_input_chars (len original)
    then err original
    else split_metadata original original

-- `strip_prefix(['v', 'V'])`, or the text itself
strip_v : Text → Text
strip_v [] = []
strip_v (c ∷ s) = if c == b'v' || c == b'V' then s else c ∷ s

stored_label : Text → Option Text → Parsed (List Text)
stored_label original none = ok []
stored_label original (some p) =
    let ids = split b'.' p in
    if any (λ id. is_empty id || not (all is_pre_char id)) ids then err original else ok ids

stored_parts : Text → Text → Option Text → Option Text → Parsed NuGetVersion
unfolding stored_label with_core read_core
stored_parts original core pre_str metadata = do
  c ← read_core original parse_u64 (split b'.' core)
  pre ← stored_label original pre_str
  ok (with_core c pre metadata original)

stored_split_label : Text → Text → Option Text → Parsed NuGetVersion
unfolding stored_parts
stored_split_label original s metadata = elim (split_once b'-' s) [
  | none ↦ stored_parts original s none metadata
  | some (v, p) ↦ stored_parts original v (some p) metadata
]

stored_split_metadata : Text → Text → Parsed NuGetVersion
unfolding stored_split_label
stored_split_metadata original s = elim (split_once b'+' s) [
  | none ↦ stored_split_label original s none
  | some (v, m) ↦ if is_empty m then err original else stored_split_label original v (some m)
]

-- what `parse_stored` does where `parse` refuses
unfoldable pub parse_lenient : Text → Parsed NuGetVersion
unfolding stored_split_metadata strip_v
parse_lenient original =
    let s = strip_v original in
    if is_empty s then err original else stored_split_metadata original s

unfoldable pub parse_stored : Text → Parsed NuGetVersion
unfolding parse parse_lenient
parse_stored input = elim (parse input) [
  | ok version ↦ ok version
  | err _ ↦ parse_lenient (trim input)
]
