-- ===== src/Registry/Manifests.antt =====
-- The manifests of operation_registry.rs outside the page operations.
use document_studio.Base.{ℕ, String, true, false, List, [], ◌∷◌}
use document_studio.Contracts.OperationStage
use document_studio.Contracts.Manifests.{
  bool, number, string, array, object, items, fields, OperationManifest,
}
use document_studio.Contracts.Operations.{
  balanced_compression_operation_id, balanced_compression_profile, balanced_compression_version,
  diagnostic_copy_operation_id, diagnostic_copy_version, image_to_pdf_max_inputs,
  image_to_pdf_operation_id, image_to_pdf_version, pdf_compress_lossless_operation_id,
  pdf_compress_lossless_version, pdf_merge_max_inputs, pdf_merge_min_inputs, pdf_merge_operation_id,
  pdf_merge_version, pdf_to_images_max_outputs, pdf_to_images_operation_id, pdf_to_images_version,
  qpdf_dependency_id, text_to_pdf_operation_id, text_to_pdf_version,
}

unfoldable pub manifest :
    String
    → String
    → String
    → String
    → String
    → List String
    → ℕ
    → ℕ
    → String
    → List String
    → List String
    → OperationManifest
manifest id version name category description accepted_mime_types minimum maximum output_mime_type
      dependencies verification =
    record {
      id = id;
      version = version;
      name = name;
      category = category;
      description = description;
      risk = "normal";
      locality = "local";
      inputs = record {
        accepted_mime_types = accepted_mime_types;
        minimum = minimum;
        maximum = maximum;
        allow_directories = false;
      };
      settings_schema = object (
          fields (
            ("type", string "object")
            ∷ ("additionalProperties", bool false)
            ∷ ("properties", object (fields []))
            ∷ []));
      outputs = record { mime_type = output_mime_type; multiplicity = "single" };
      dependencies = dependencies;
      verification = verification;
      stages =
          OperationStage.inspect ∷ OperationStage.preflight ∷ OperationStage.estimate
          ∷ OperationStage.plan ∷ OperationStage.execute ∷ OperationStage.verify
          ∷ OperationStage.publish ∷ OperationStage.audit ∷ OperationStage.cleanup ∷ [];
    }

unfoldable pub diagnostic_copy_manifest : OperationManifest
diagnostic_copy_manifest =
    manifest diagnostic_copy_operation_id diagnostic_copy_version "Diagnostic copy" "diagnostics"
      "Streams, verifies, and safely publishes one local file." ("application/octet-stream" ∷ []) 1
      1 "application/octet-stream" ("document-studio-core" ∷ []) ("sha256" ∷ "size" ∷ "reopen" ∷ [])

unfoldable pub pdf_merge_manifest : OperationManifest
pdf_merge_manifest =
    manifest pdf_merge_operation_id pdf_merge_version "PDF Merge" "pdf"
      "Merges 2–128 local PDFs in exact order into one verified page-only PDF."
      ("application/pdf" ∷ []) pdf_merge_min_inputs pdf_merge_max_inputs "application/pdf"
      (qpdf_dependency_id ∷ [])
      ("regular-file" ∷ "pdf-magic" ∷ "sha256" ∷ "qpdf-strict-check" ∷ "unencrypted" ∷ "page-count"
        ∷ "reopen" ∷ "publication-hash" ∷ [])

unfoldable pub pdf_compress_lossless_manifest : OperationManifest
pdf_compress_lossless_manifest =
    manifest pdf_compress_lossless_operation_id pdf_compress_lossless_version
      "Lossless PDF Compression" "optimize"
      "Losslessly recompresses one local PDF while preserving its referenced document structure."
      ("application/pdf" ∷ []) 1 1 "application/pdf" (qpdf_dependency_id ∷ [])
      ("regular-file" ∷ "pdf-magic" ∷ "sha256" ∷ "qpdf-strict-check" ∷ "unencrypted" ∷ "page-count"
        ∷ "structural-inventory" ∷ "reopen" ∷ "publication-hash" ∷ "source-immutability" ∷ [])

unfoldable pub pdf_compress_balanced_manifest : OperationManifest
pdf_compress_balanced_manifest =
    let value : OperationManifest =
      manifest balanced_compression_operation_id balanced_compression_version
        "Balanced PDF Compression" "optimize"
        "Conservatively recompresses safe RGB images and publishes only a verified, meaningfully smaller PDF."
        ("application/pdf" ∷ []) 1 1 "application/pdf"
        ("document-studio-core" ∷ "pdfjs" ∷ qpdf_dependency_id ∷ [])
        ("regular-file" ∷ "pdf-magic" ∷ "sha256" ∷ "qpdf-strict-check" ∷ "unencrypted" ∷ "unsigned"
          ∷ "bounded-resource-graph" ∷ "rgb8-image-allow-list" ∷ "structural-inventory"
          ∷ "pdfjs-page-visual-gate" ∷ "ssim" ∷ "psnr" ∷ "changed-pixel-ratio"
          ∷ "source-immutability" ∷ "publication-hash" ∷ []) in
    record value {
      settings_schema = object (
          fields (
            ("type", string "object")
            ∷ ("additionalProperties", bool false)
            ∷ ("required", array (items (string "profile" ∷ [])))
            ∷ (
              "properties",
              object (
                  fields (
                    (
                      "profile",
                      object (fields (("const", string balanced_compression_profile) ∷ [])),
                    )
                    ∷ [])),
            )
            ∷ []));
      outputs = record value.outputs { multiplicity = "zero-or-one" };
    }

unfoldable pub image_to_pdf_manifest : OperationManifest
image_to_pdf_manifest =
    manifest image_to_pdf_operation_id image_to_pdf_version "Images to PDF" "convert"
      "Creates one verified PDF page per selected JPEG, PNG, or WebP image in exact order."
      ("image/jpeg" ∷ "image/png" ∷ "image/webp" ∷ []) 1 image_to_pdf_max_inputs "application/pdf"
      ("document-studio-core" ∷ qpdf_dependency_id ∷ [])
      ("regular-file" ∷ "content-codec" ∷ "sha256" ∷ "dimension-cap" ∷ "pixel-cap"
        ∷ "qpdf-strict-check" ∷ "unencrypted" ∷ "page-count" ∷ "selected-order"
        ∷ "source-immutability" ∷ "publication-hash" ∷ [])

unfoldable pub text_to_pdf_manifest : OperationManifest
text_to_pdf_manifest =
    let value : OperationManifest =
      manifest text_to_pdf_operation_id text_to_pdf_version "TXT to PDF" "convert"
        "Converts one strict UTF-8 TXT file into a verified local PDF using fixed packaged fonts."
        ("text/plain" ∷ []) 1 1 "application/pdf" ("document-studio-core" ∷ qpdf_dependency_id ∷ [])
        ("regular-non-reparse-file" ∷ "strict-utf8" ∷ "bounded-unicode" ∷ "approved-font-cmap"
          ∷ "intercepted-webview2-resources" ∷ "network-denial" ∷ "qpdf-strict-check"
          ∷ "pdf-security-inventory" ∷ "embedded-font-inventory" ∷ "source-immutability"
          ∷ "publication-hash" ∷ "final-reopen" ∷ []) in
    record value {
      settings_schema = object (
          fields (
            ("type", string "object")
            ∷ ("additionalProperties", bool false)
            ∷ ("required", array (items (string "pageSize" ∷ string "orientation" ∷ [])))
            ∷ (
              "properties",
              object (
                  fields (
                    (
                      "pageSize",
                      object (
                          fields
                            (("enum", array (items (string "a4" ∷ string "letter" ∷ []))) ∷ [])),
                    )
                    ∷ (
                      "orientation",
                      object (
                          fields (
                            ("enum", array (items (string "portrait" ∷ string "landscape" ∷ [])))
                            ∷ [])),
                    )
                    ∷ [])),
            )
            ∷ []));
    }

unfoldable pub pdf_to_images_manifest : OperationManifest
pdf_to_images_manifest =
    let value : OperationManifest =
      manifest pdf_to_images_operation_id pdf_to_images_version "PDF to Images" "convert"
        "Renders 1–128 selected PDF pages in exact order to verified local JPEG, PNG, or lossless WebP images."
        ("application/pdf" ∷ []) 1 1 "image/*"
        ("document-studio-core" ∷ "pdfjs" ∷ qpdf_dependency_id ∷ [])
        ("regular-file" ∷ "pdf-magic" ∷ "sha256" ∷ "qpdf-strict-check" ∷ "unencrypted" ∷ "page-plan"
          ∷ "dimension-cap" ∷ "pixel-cap" ∷ "aggregate-pixel-budget" ∷ "authenticated-binary-ipc"
          ∷ "content-codec" ∷ "decoded-dimensions" ∷ "opaque-white" ∷ "publication-hash"
          ∷ "source-immutability" ∷ []) in
    record value {
      settings_schema = object (
          fields (
            ("type", string "object")
            ∷ ("additionalProperties", bool false)
            ∷ (
              "required",
              array (
                  items
                    (string "pages" ∷ string "format" ∷ string "dpi" ∷ string "outputStem" ∷ [])),
            )
            ∷ (
              "properties",
              object (
                  fields (
                    (
                      "pages",
                      object (
                          fields (
                            ("type", string "array")
                            ∷ ("minItems", number 1)
                            ∷ ("maxItems", number pdf_to_images_max_outputs)
                            ∷ ("uniqueItems", bool true)
                            ∷ (
                              "items",
                              object (
                                  fields (
                                    ("type", string "integer")
                                    ∷ ("minimum", number 0)
                                    ∷ ("maximum", number 4095)
                                    ∷ [])),
                            )
                            ∷ [])),
                    )
                    ∷ (
                      "format",
                      object (
                          fields (
                            (
                              "enum",
                              array (items (string "jpeg" ∷ string "png" ∷ string "webp" ∷ [])),
                            )
                            ∷ [])),
                    )
                    ∷ (
                      "dpi",
                      object (
                          fields (
                            ("enum", array (items (number 72 ∷ number 150 ∷ number 300 ∷ [])))
                            ∷ [])),
                    )
                    ∷ (
                      "outputStem",
                      object (
                          fields (
                            ("type", string "string")
                            ∷ ("minLength", number 1)
                            ∷ ("maxLength", number 96)
                            ∷ [])),
                    )
                    ∷ [])),
            )
            ∷ []));
      outputs = record value.outputs { multiplicity = "multiple" };
    }
