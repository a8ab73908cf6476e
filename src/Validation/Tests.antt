-- ===== src/Validation/Tests.antt =====
-- Runs of the validation of ids, and the theorem at one.
use yanuget.Prelude.{◌∷◌, [], ◌≡◌, ◌↔◌, refl}
use yanuget.Prelude.Result.{ok, err}
use yanuget.Text.{Text, split_once, text, len, split, trim_end, is_whitespace}
use yanuget.Validation.{
  validate_package_id, well_separated, is_windows_device_name, id_malformed, id_device,
}
use yanuget.Validation.FileName.{file_name_problem, extension_allowed}
use yanuget.Validation.FileName.Segment.{IsSegment, file_name_problem-IsSegment}
use yanuget.Validation.Grammar.{IsAccepted, validate_package_id-IsAccepted}

accepts : validate_package_id (text "Newtonsoft.Json-x_1") ≡ ok tt
unfolding validate_package_id well_separated is_windows_device_name len split trim_end is_whitespace
accepts = refl

refuses_two : validate_package_id (text "A..B") ≡ err id_malformed
unfolding validate_package_id well_separated is_windows_device_name len split trim_end is_whitespace
refuses_two = refl

refuses_device : validate_package_id (text "com1.Sdk") ≡ err id_device
unfolding validate_package_id well_separated is_windows_device_name len split trim_end is_whitespace
refuses_device = refl

validate_package_id-IsAccepted_example :
    (validate_package_id (text "Newtonsoft.Json") ≡ ok tt) ↔ IsAccepted (text "Newtonsoft.Json")
validate_package_id-IsAccepted_example = validate_package_id-IsAccepted (text "Newtonsoft.Json")

abbrev setup : Text
setup = text "Git-2.51.0-64-bit.EXE"

file_name_problem-IsSegment_example : IsSegment setup (text ".exe" ∷ [])
unfolding file_name_problem extension_allowed is_windows_device_name len split split_once trim_end
    is_whitespace
file_name_problem-IsSegment_example = file_name_problem-IsSegment setup (text ".exe" ∷ []) refl
