-- ===== src/Contracts/SkipReason.antt =====
-- `BalancedCompressionSkipReason` of contracts.rs: why an image was left as it is.
use document_studio.Base.{String, List, [], ◌∷◌, Option, some, ◌≡◌, refl}
use document_studio.Contracts.Wire.{Wire, IsExact, match_str, IsExact-of_arms}

pub data BalancedCompressionSkipReason : Type 0 where
  below_minimum unsupported_filter decode_parameters unsupported_colorspace non_rgb8
        mask_or_transparency :
      BalancedCompressionSkipReason
  external_or_alternate unsafe_resource_ancestry ambiguous_shared_use inline_image
        candidate_not_smaller candidate_quality :
      BalancedCompressionSkipReason
  candidate_decode : BalancedCompressionSkipReason

unfoldable pub as_str : BalancedCompressionSkipReason → String
as_str below_minimum = "below-minimum"
as_str unsupported_filter = "unsupported-filter"
as_str decode_parameters = "decode-parameters"
as_str unsupported_colorspace = "unsupported-colorspace"
as_str non_rgb8 = "non-rgb8"
as_str mask_or_transparency = "mask-or-transparency"
as_str external_or_alternate = "external-or-alternate"
as_str unsafe_resource_ancestry = "unsafe-resource-ancestry"
as_str ambiguous_shared_use = "ambiguous-shared-use"
as_str inline_image = "inline-image"
as_str candidate_not_smaller = "candidate-not-smaller"
as_str candidate_quality = "candidate-quality"
as_str candidate_decode = "candidate-decode"

abbrev arms : List (String × BalancedCompressionSkipReason)
arms =
    ("below-minimum", below_minimum)
    ∷ ("unsupported-filter", unsupported_filter)
    ∷ ("decode-parameters", decode_parameters)
    ∷ ("unsupported-colorspace", unsupported_colorspace)
    ∷ ("non-rgb8", non_rgb8)
    ∷ ("mask-or-transparency", mask_or_transparency)
    ∷ ("external-or-alternate", external_or_alternate)
    ∷ ("unsafe-resource-ancestry", unsafe_resource_ancestry)
    ∷ ("ambiguous-shared-use", ambiguous_shared_use)
    ∷ ("inline-image", inline_image)
    ∷ ("candidate-not-smaller", candidate_not_smaller)
    ∷ ("candidate-quality", candidate_quality)
    ∷ ("candidate-decode", candidate_decode)
    ∷ []

unfoldable pub from_contract : String → Option BalancedCompressionSkipReason
from_contract value = match_str value arms

abbrev pub wire : Wire BalancedCompressionSkipReason
wire = record { as_str = as_str; from_contract = from_contract }

as_str-accepted : (a : BalancedCompressionSkipReason) → from_contract (as_str a) ≡ some a
unfolding as_str from_contract
as_str-accepted below_minimum = refl
as_str-accepted unsupported_filter = refl
as_str-accepted decode_parameters = refl
as_str-accepted unsupported_colorspace = refl
as_str-accepted non_rgb8 = refl
as_str-accepted mask_or_transparency = refl
as_str-accepted external_or_alternate = refl
as_str-accepted unsafe_resource_ancestry = refl
as_str-accepted ambiguous_shared_use = refl
as_str-accepted inline_image = refl
as_str-accepted candidate_not_smaller = refl
as_str-accepted candidate_quality = refl
as_str-accepted candidate_decode = refl

pub wire-IsExact : IsExact wire
unfolding as_str from_contract
wire-IsExact = IsExact-of_arms wire arms (λ v. refl) refl as_str-accepted
