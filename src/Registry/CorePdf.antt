-- ===== src/Registry/CorePdf.antt =====
-- The manifests of the page operations.
use document_studio.Base.{String, true, [], ◌∷◌}
use document_studio.Contracts.Manifests.{
  Value, bool, number, string, array, object, items, fields, closed_object, integer_between,
  OperationManifest,
}
use document_studio.Contracts.Operations.{
  pdf_extract_operation_id, pdf_remove_operation_id, pdf_reorder_operation_id,
  pdf_rotate_operation_id, pdf_split_operation_id, qpdf_dependency_id, core_pdf_operation_version,
}
use document_studio.Registry.Manifests.{manifest}

unfoldable pub core_pdf_manifest : String → String → String → String → Value → OperationManifest
core_pdf_manifest id name description multiplicity settings_schema =
    let value : OperationManifest =
      manifest id core_pdf_operation_version name "pdf" description ("application/pdf" ∷ []) 1 1
        "application/pdf" (qpdf_dependency_id ∷ [])
        ("regular-file" ∷ "pdf-magic" ∷ "sha256" ∷ "qpdf-strict-check" ∷ "unencrypted"
          ∷ "page-count" ∷ "plan-invariants" ∷ "publication-hash" ∷ []) in
    record value {
      settings_schema = settings_schema;
      outputs = record value.outputs { multiplicity = multiplicity };
    }

abbrev pub output_name_schema : Value
output_name_schema = object (
    fields (
      ("type", string "string")
      ∷ ("minLength", number 5)
      ∷ ("maxLength", number 255)
      ∷ ("pattern", string "\\.[pP][dD][fF]$")
      ∷ []))

unfoldable pub extract_pages_manifest : OperationManifest
extract_pages_manifest =
    core_pdf_manifest pdf_extract_operation_id "Extract pages"
      "Exports selected pages once, in the selected order, to one verified PDF." "single"
      (closed_object ("selectedPageIndexes" ∷ "outputName" ∷ []) (
        (
          "selectedPageIndexes",
          object (
              fields (
                ("type", string "array")
                ∷ ("minItems", number 1)
                ∷ ("maxItems", number 4096)
                ∷ ("uniqueItems", bool true)
                ∷ ("items", integer_between 0 4095)
                ∷ [])),
        )
        ∷ ("outputName", output_name_schema)
        ∷ []))

unfoldable pub remove_pages_manifest : OperationManifest
remove_pages_manifest =
    core_pdf_manifest pdf_remove_operation_id "Remove pages"
      "Exports the complement of the selected pages while keeping at least one page." "single"
      (closed_object ("removedPageIndexes" ∷ "outputName" ∷ []) (
        (
          "removedPageIndexes",
          object (
              fields (
                ("type", string "array")
                ∷ ("minItems", number 1)
                ∷ ("maxItems", number 4095)
                ∷ ("uniqueItems", bool true)
                ∷ ("items", integer_between 0 4095)
                ∷ [])),
        )
        ∷ ("outputName", output_name_schema)
        ∷ []))

unfoldable pub reorder_pages_manifest : OperationManifest
reorder_pages_manifest =
    core_pdf_manifest pdf_reorder_operation_id "Reorder pages"
      "Exports one exact permutation containing every source page once." "single"
      (closed_object ("orderedPageIndexes" ∷ "outputName" ∷ []) (
        (
          "orderedPageIndexes",
          object (
              fields (
                ("type", string "array")
                ∷ ("minItems", number 1)
                ∷ ("maxItems", number 4096)
                ∷ ("uniqueItems", bool true)
                ∷ ("items", integer_between 0 4095)
                ∷ [])),
        )
        ∷ ("outputName", output_name_schema)
        ∷ []))

unfoldable pub rotate_pages_manifest : OperationManifest
rotate_pages_manifest =
    core_pdf_manifest pdf_rotate_operation_id "Rotate pages"
      "Applies clockwise 90, 180, or 270 degree output rotations to selected pages." "single"
      (closed_object ("rotations" ∷ "outputName" ∷ []) (
        (
          "rotations",
          object (
              fields (
                ("type", string "array")
                ∷ ("minItems", number 1)
                ∷ ("maxItems", number 4096)
                ∷ (
                  "items",
                  closed_object ("pageIndex" ∷ "clockwiseDegrees" ∷ []) (
                      ("pageIndex", integer_between 0 4095)
                      ∷ (
                        "clockwiseDegrees",
                        object (
                            fields (
                              ("enum", array (items (number 90 ∷ number 180 ∷ number 270 ∷ [])))
                              ∷ [])),
                      )
                      ∷ []),
                )
                ∷ [])),
        )
        ∷ ("outputName", output_name_schema)
        ∷ []))

unfoldable pub split_manifest : OperationManifest
split_manifest =
    core_pdf_manifest pdf_split_operation_id "Split PDF"
      "Exports 1–128 explicit, ordered, non-overlapping page ranges as independently verified PDFs."
      "multiple"
      (closed_object ("ranges" ∷ []) (
        (
          "ranges",
          object (
              fields (
                ("type", string "array")
                ∷ ("minItems", number 1)
                ∷ ("maxItems", number 128)
                ∷ (
                  "items",
                  closed_object ("startPageIndex" ∷ "endPageIndex" ∷ "outputName" ∷ []) (
                      ("startPageIndex", integer_between 0 4095)
                      ∷ ("endPageIndex", integer_between 0 4095)
                      ∷ ("outputName", output_name_schema)
                      ∷ []),
                )
                ∷ [])),
        )
        ∷ []))
