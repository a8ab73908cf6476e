-- ===== src/Validation/FileName/Devices.antt =====
-- The names that is_windows_device_name of crates/yanuget-pkg/src/files.rs knows.
use yanuget.Prelude.{
  Bool, true, false, not, List, [], ◌∷◌, all, ◌≡◌, ◌≢◌, inl, inr, refl, sym, ap, ◌∙◌, Among, arith,
  all_mono,
}
use yanuget.Text.{Text, text, lower, lacks, split, trim_end, is_whitespace}
use yanuget.Text.Trim.{trim_end_id}
use yanuget.Validation.{upper, first_piece, is_device, is_windows_device_name}
use yanuget.Validation.FileName.{is_file_char}

-- the names that Windows keeps for devices, in upper case
abbrev pub devices : List Text
devices =
    text "CON"
    ∷ text "PRN"
    ∷ text "AUX"
    ∷ text "NUL"
    ∷ text "COM1"
    ∷ text "COM2"
    ∷ text "COM3"
    ∷ text "COM4"
    ∷ text "COM5"
    ∷ text "COM6"
    ∷ text "COM7"
    ∷ text "COM8"
    ∷ text "COM9"
    ∷ text "LPT1"
    ∷ text "LPT2"
    ∷ text "LPT3"
    ∷ text "LPT4"
    ∷ text "LPT5"
    ∷ text "LPT6"
    ∷ text "LPT7"
    ∷ text "LPT8"
    ∷ text "LPT9"
    ∷ []

plain_chars : (s : Text) → all is_file_char s ≡ true → all (λ c. not (is_whitespace c)) s ≡ true
unfolding is_whitespace
plain_chars s h = all_mono is_file_char _ s (λ c k. ground (arith, k)) h

upper-lower : (s : Text) → upper (lower s) ≡ upper s
upper-lower [] = refl
upper-lower (c ∷ s) = ground (arith, upper-lower s)

lacks_dot-lower : (s : Text) → lacks b'.' (lower s) ≡ lacks b'.' s
lacks_dot-lower [] = refl
lacks_dot-lower (c ∷ s) = ground (arith, lacks_dot-lower s)

all_at :
    {A : Type 0} (p : A → Bool) (x : A) (xs : List A) → all p xs ≡ true → Among x xs → p x ≡ true
all_at p x [] h m = absurd m
all_at p x (y ∷ ys) h (inl e) = ap p e ∙ ground (arith, h)
all_at p x (y ∷ ys) h (inr m) = all_at p x ys (ground (arith, h)) m

-- each of the listed names is one of `is_device`, and has no dot
device_listed : (d : Text) → Among d devices → (is_device (upper d) ≡ true) × (lacks b'.' d ≡ true)
device_listed d m =
    (all_at (λ t. is_device (upper t)) d devices refl m, all_at (lacks b'.') d devices refl m)

-- what stands before the first dot of an accepted name
pub no_device_of :
    (name stem d : Text)
    → first_piece (split b'.' name) ≡ stem
    → all is_file_char stem ≡ true
    → is_windows_device_name name ≡ false
    → Among d devices
    → lower stem ≢ lower d
unfolding is_windows_device_name
no_device_of name stem d piece plain h m e =
    let listed = device_listed d m in
    let bare : trim_end stem ≡ stem = trim_end_id stem (plain_chars stem plain) in
    let same : upper stem ≡ upper d = sym (upper-lower stem) ∙ ap upper e ∙ upper-lower d in
    let found : is_device (upper (trim_end (first_piece (split b'.' name)))) ≡ true =
      ap (λ t. is_device (upper (trim_end t))) piece
      ∙ ap (λ t. is_device (upper t)) bare
      ∙ ap is_device same
      ∙ listed.0 in
    ground (arith, found, h)

pub lacks_dot_of : (stem d : Text) → Among d devices → lower stem ≡ lower d → lacks b'.' stem ≡ true
lacks_dot_of stem d m e =
    sym (lacks_dot-lower stem) ∙ ap (lacks b'.') e ∙ lacks_dot-lower d ∙ (device_listed d m).1
