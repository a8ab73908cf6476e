-- ===== src/Validation.antt =====
-- src/validation.rs and crates/yanuget-pkg/src/files.rs: which names a package may have.
pub mod Grammar
pub mod FileName
mod Tests
use yanuget.Prelude.{
  ℕ, ◌-◌, Bool, true, false, not, ◌&&◌, ◌||◌, Option, none, some, List, [], ◌∷◌, map, ltb, ◌==◌,
  if◌then◌else◌, is_empty,
}
use yanuget.Prelude.Result.{Result, ok, err}
use yanuget.Text.{Text, text, text_eq, len, split, trim_end, within, is_ascii_alphanumeric}

abbrev pub max_id_length : ℕ
max_id_length = 100

-- `to_ascii_uppercase`
abbrev pub upper : Text → Text
upper = map (λ c. if within b'a' b'z' c then c - 32 else c)

-- the first piece of a split
abbrev pub first_piece : List Text → Text
first_piece [] = []
first_piece (piece ∷ pieces) = piece

-- a port: three letters, and a digit from 1 to 9
abbrev is_port : Text → Bool
is_port (a ∷ b ∷ c ∷ d ∷ []) =
    (text_eq (a ∷ b ∷ c ∷ []) (text "COM") || text_eq (a ∷ b ∷ c ∷ []) (text "LPT"))
    && within b'1' b'9' d
is_port other = false

abbrev pub is_device : Text → Bool
is_device stem =
    ((text_eq stem (text "CON") || text_eq stem (text "PRN"))
      || (text_eq stem (text "AUX") || text_eq stem (text "NUL")))
    || is_port stem

unfoldable pub is_windows_device_name : Text → Bool
is_windows_device_name segment = is_device (upper (trim_end (first_piece (split b'.' segment))))

abbrev pub is_word : ℕ → Bool
is_word c = is_ascii_alphanumeric c || c == b'_'

abbrev pub is_sep : ℕ → Bool
is_sep c = c == b'.' || c == b'-'

-- the loop over the bytes, with whether it is the first and whether the last was a separator, and the
-- test behind it
unfoldable pub well_separated : Bool → Bool → Text → Bool
well_separated first prev_sep [] = not prev_sep
well_separated first prev_sep (c ∷ rest) =
    let on_word = well_separated false false rest in
    let on_sep = well_separated false true rest in
    if is_word c then on_word else if is_sep c then not (first || prev_sep) && on_sep else false

-- one constructor for each message
pub data IdError : Type 0 where
  id_empty : IdError
  id_too_long : IdError
  id_malformed : IdError
  id_device : IdError

unfoldable pub validate_package_id : Text → Result {0, 0} IdError Unit
validate_package_id id =
    if is_empty id
    then err id_empty
    else if ltb max_id_length (len id)
    then err id_too_long
    else if not (well_separated true false id)
    then err id_malformed
    else if is_windows_device_name id
    then err id_device
    else ok tt
