-- ===== src/Helpers.antt =====
-- app/services/_memory_helpers.py, without the cursors.
mod Floats
pub use Floats.{Float, nan, infinity, neg_infinity, pos, neg}
unfoldable pub use Floats.{between}
use me.Base.{ℕ, Option, none, some, List, ltb, if◌then◌else◌, Text, is_empty, take, length}
use me.Text.{strip, utf8, first_paragraph}
use me.Platform.{Platform}
use me.Errors.{
  Result, ok, err, memory_validation_error, empty_tz, unknown_tz, location_unpaired,
  lat_out_of_range, lng_out_of_range,
}

unfoldable pub canonical_hash : Platform → Text → List ℕ
canonical_hash p text = p.sha256 (utf8 (p.lower (strip (p.nfc text))))

unfoldable pub validate_tz : Platform → Text → Result Text
validate_tz p name =
    if is_empty name
    then err (memory_validation_error empty_tz)
    else if p.zone_info name
    then ok name
    else err (memory_validation_error unknown_tz)

unfoldable pub validate_location_pair : Option Float → Option Float → Result (Unit {0})
validate_location_pair none none = ok tt
validate_location_pair none (some lng) = err (memory_validation_error location_unpaired)
validate_location_pair (some lat) none = err (memory_validation_error location_unpaired)
validate_location_pair (some lat) (some lng) =
    if between 90 lat
    then (if between 180 lng then ok tt else err (memory_validation_error lng_out_of_range))
    else err (memory_validation_error lat_out_of_range)

unfoldable pub text_preview : ℕ → Text → Text
text_preview max_chars text =
    if is_empty text
    then text
    else let head = first_paragraph text in
      if ltb max_chars (length head) then take max_chars head else head
