-- ===== src/Registry/Limits.antt =====
-- `validate_create_request` of operation_registry.rs against the manifests that `all_manifests` lists.
use document_studio.Base.{
  ℕ, String, Bool, true, false, ◌&&◌, List, [], ◌∷◌, length, map, if◌then◌else◌, within, str_eq,
  eq_iff, Option, none, some, ok, arith, ◌≡◌, sym, map_err_iff, ◌↔◌, subst,
}
use document_studio.Base.Text.{Text, codes, ascii_lower, ends_with}
use document_studio.Contracts.Manifests.{OperationManifest, JobsCreateRequest}
use document_studio.Contracts.Operations.{
  diagnostic_copy_operation_id, pdf_merge_operation_id, pdf_compress_lossless_operation_id,
  image_to_pdf_operation_id,
}
use document_studio.OutputNames.Policy.{validate_output_name}
use document_studio.Registry.Manifests.{
  manifest, diagnostic_copy_manifest, pdf_merge_manifest, pdf_compress_lossless_manifest,
  pdf_compress_balanced_manifest, image_to_pdf_manifest,
}
use document_studio.Registry.Requests.{
  OperationKind, invalid_output_name, all_manifests, with_pdf_name, match_operation,
  validate_create_request,
}
use document_studio.Registry.Requests.OperationKind.{
  diagnostic_copy, pdf_merge, pdf_compress_lossless, image_to_pdf,
}

unfoldable pub operation_id_of : OperationKind → String
operation_id_of diagnostic_copy = diagnostic_copy_operation_id
operation_id_of pdf_merge = pdf_merge_operation_id
operation_id_of pdf_compress_lossless = pdf_compress_lossless_operation_id
operation_id_of image_to_pdf = image_to_pdf_operation_id

-- The first manifest of a list with an identifier.
abbrev pub find_manifest : String → List OperationManifest → Option OperationManifest
find_manifest id [] = none
find_manifest id (m ∷ ms) = if str_eq m.id id then some m else find_manifest id ms

-- What a manifest asks of a request: a number of inputs in its range, and a name with the extension
-- of the output where that is a PDF.
unfoldable pub admits : Option OperationManifest → ℕ → Text → Bool
admits none inputs name = false
admits (some m) inputs name =
    within m.inputs.minimum m.inputs.maximum inputs
    && (if str_eq m.outputs.mime_type "application/pdf"
        then ends_with (codes ".pdf") (map ascii_lower name)
        else true)

match_operation_sound :
    (id : String) (inputs : ℕ) (name : Text) (kind : OperationKind)
    → match_operation id inputs name ≡ ok kind
    → operation_id_of kind ≡ id
unfolding match_operation with_pdf_name operation_id_of
match_operation_sound id inputs name kind h = ground (
  arith,
  eq_iff id diagnostic_copy_operation_id,
  eq_iff id pdf_merge_operation_id,
  eq_iff id pdf_compress_lossless_operation_id,
  eq_iff id image_to_pdf_operation_id,
)

pub match_operation-admits :
    (kind : OperationKind) (inputs : ℕ) (name : Text)
    → (match_operation (operation_id_of kind) inputs name ≡ ok kind)
      ↔ (admits (find_manifest (operation_id_of kind) all_manifests) inputs name ≡ true)
unfolding match_operation with_pdf_name operation_id_of all_manifests admits manifest
    diagnostic_copy_manifest pdf_merge_manifest pdf_compress_lossless_manifest
    pdf_compress_balanced_manifest image_to_pdf_manifest
match_operation-admits diagnostic_copy inputs name = ground arith
match_operation-admits pdf_merge inputs name = ground arith
match_operation-admits pdf_compress_lossless inputs name = ground arith
match_operation-admits image_to_pdf inputs name = ground arith

match_operation_iff :
    (id : String) (inputs : ℕ) (name : Text) (kind : OperationKind)
    → (match_operation id inputs name ≡ ok kind)
      ↔ ((operation_id_of kind ≡ id) × (admits (find_manifest id all_manifests) inputs name ≡ true))
match_operation_iff id inputs name kind = (
  λ h.
      let same = match_operation_sound id inputs name kind h in
      (
        same,
        subst (λ i. admits (find_manifest i all_manifests) inputs name ≡ true) same
            ((match_operation-admits kind inputs name).0
              (subst (λ i. match_operation i inputs name ≡ ok kind) (sym same) h)),
      ),
  λ h.
      subst (λ i. match_operation i inputs name ≡ ok kind) (h.0)
        ((match_operation-admits kind inputs name).1 (
          subst (λ i. admits (find_manifest i all_manifests) inputs name ≡ true) (sym (h.0))
            (h.1))),
)

-- A create request is accepted as an operation exactly when its name is a safe file name, its
-- identifier is that operation's, and the manifest that the program lists for this identifier
-- admits it: as many inputs as the manifest allows, and a name that ends in `.pdf`, in any case,
-- where the manifest's output is a PDF.
pub validate_create_request_iff :
    (request : JobsCreateRequest) (kind : OperationKind)
    → (validate_create_request request ≡ ok kind) ↔ (
        (validate_output_name request.requested_output_name ≡ ok tt)
        × (operation_id_of kind ≡ request.operation_id)
        × (admits
              (find_manifest request.operation_id all_manifests)
              (length request.input_paths)
              request.requested_output_name
            ≡ true))
unfolding validate_create_request
validate_create_request_iff request kind =
    let named =
      map_err_iff {value = kind} (λ _. invalid_output_name)
        (validate_output_name request.requested_output_name)
        (match_operation request.operation_id (length request.input_paths)
          request.requested_output_name) in
    let matched =
      match_operation_iff request.operation_id (length request.input_paths)
        request.requested_output_name kind in
    (
      λ h. let found = matched.0 ((named.0 h).1) in ((named.0 h).0, found.0, found.1),
      λ h. named.1 (h.0, matched.1 (h.1, h.2)),
    )
