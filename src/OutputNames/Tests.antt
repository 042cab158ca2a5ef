-- ===== src/OutputNames/Tests.antt =====
-- File names of the repository's own tests, and the theorems of this component at them.
use document_studio.Base.{ℕ, ◌≡◌, refl, arith, ok, err}
use document_studio.Base.Text.{Text, codes, text_eq, utf16_count, ascii_upper, strip_prefix}
use document_studio.OutputNames.Policy.{
  validate_output_name, has_unsafe_shape, is_reserved, device_stem, first_segment, reserved_number,
  is_unsafe_character, ends_with_dot_or_space, unsafe_file_name,
}
use document_studio.OutputNames.Decimal.{decimal}
use document_studio.OutputNames.Collision.{
  collision_name, last_dot, split_file_name, counter, numbered,
}
use document_studio.OutputNames.Collision.Distinct.{collision_name-injective}
use document_studio.OutputNames.Collision.Extension.{extension, extension-collision_name}
use document_studio.OutputNames.Attempts.{collision_name-valid}

abbrev report : Text
report = codes "report.v2.pdf"

report_valid : validate_output_name report ≡ ok tt
unfolding validate_output_name has_unsafe_shape is_reserved device_stem first_segment
    reserved_number is_unsafe_character ends_with_dot_or_space text_eq utf16_count ascii_upper
    strip_prefix
report_valid = refl

device_refused : validate_output_name (codes "lpt7.tar.gz") ≡ err unsafe_file_name
unfolding validate_output_name has_unsafe_shape is_reserved device_stem first_segment
    reserved_number is_unsafe_character ends_with_dot_or_space text_eq utf16_count ascii_upper
    strip_prefix
device_refused = refl

twelfth_attempt : collision_name report 12 ≡ codes "report.v2 (12).pdf"
unfolding collision_name numbered split_file_name last_dot text_eq counter decimal
twelfth_attempt = refl

no_extension : collision_name (codes ".profile") 1 ≡ codes ".profile (1)"
unfolding collision_name numbered split_file_name last_dot text_eq counter decimal
no_extension = refl

collision_name-injective_example : ◌≡◌ {A = ℕ} 12 12
collision_name-injective_example = collision_name-injective report 12 12 refl

extension-collision_name_example : extension (collision_name report 12) ≡ extension report
unfolding ends_with_dot_or_space
extension-collision_name_example = extension-collision_name report 12 refl

collision_name-valid_example : validate_output_name (collision_name report 999) ≡ ok tt
unfolding utf16_count
collision_name-valid_example =
    collision_name-valid report 999 (omega arith) (omega arith) report_valid
