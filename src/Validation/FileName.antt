-- ===== src/Validation/FileName.antt =====
-- crates/yanuget-pkg/src/files.rs: the names of files that are attached to a version.
pub mod Devices
pub mod Segment
use yanuget.Prelude.{
  ℕ, ◌≤◌, Bool, true, false, not, ◌||◌, Option, none, some, List, [], ◌∷◌, reverse, any, all, ltb,
  ◌==◌, if◌then◌else◌, is_empty, ◌≡◌, arith,
}
use yanuget.Text.{Text, text, len, split_once, drop_while, eq_ignore_case, is_ascii_alphanumeric}
use yanuget.Validation.{is_windows_device_name}

abbrev pub max_file_name_length : ℕ
max_file_name_length = 128

-- `trim_start_matches('.')` of the entries
unfoldable pub extension_allowed : List Text → Text → Bool
extension_allowed allowed ext =
    any (λ a. eq_ignore_case (drop_while (λ c. c == b'.') a) ext) allowed

abbrev pub is_file_char : ℕ → Bool
is_file_char c = is_ascii_alphanumeric c || (c == b'.' || (c == b'_' || c == b'-'))

abbrev pub starts_well : Text → Bool
starts_well [] = false
starts_well (c ∷ rest) = is_ascii_alphanumeric c

abbrev pub ends_badly : Text → Bool
ends_badly [] = false
ends_badly (c ∷ []) = c == b'.' || c == b'-'
ends_badly (c ∷ d ∷ rest) = ends_badly (d ∷ rest)

-- what is behind the last dot
abbrev pub extension : Text → Option Text
extension name = elim (split_once b'.' (reverse name)) [
  | none ↦ none
  | some parts ↦ some (reverse parts.0)
]

-- one constructor for each message
pub data NameProblem : Type 0 where
  bad_length : NameProblem
  bad_character : NameProblem
  bad_end : NameProblem
  device_name : NameProblem
  listing_name : NameProblem
  bad_extension : NameProblem

abbrev pub extension_problem : List Text → Option Text → Option NameProblem
extension_problem allowed none = some bad_extension
extension_problem allowed (some ext) =
    if extension_allowed allowed ext then none else some bad_extension

unfoldable pub file_name_problem : Text → List Text → Option NameProblem
file_name_problem name allowed =
    if is_empty name || ltb max_file_name_length (len name)
    then some bad_length
    else if not (all is_file_char name)
    then some bad_character
    else if not (starts_well name) || ends_badly name
    then some bad_end
    else if is_windows_device_name name
    then some device_name
    else if eq_ignore_case name (text "index.json")
    then some listing_name
    else extension_problem allowed (extension name)
