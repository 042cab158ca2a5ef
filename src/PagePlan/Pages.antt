-- ===== src/PagePlan/Pages.antt =====
-- What an accepted page plan does to the pages of the document.
use mathlib.Core.List.{Perm}
use document_studio.Base.{
  ℕ, ◌<◌, true, false, List, [], ◌∷◌, ◌≡◌, refl, ap, ◌∙◌, inl, inr, ◌↔◌, arith, length, All, ok,
  err, Result-cases, is_ok,
}
use document_studio.Contracts.PagePlans.{
  OutputRotation, split, reorder, ReorderPagesPlan, SplitPlan,
}
use document_studio.Contracts.Errors.{OperationError}
use document_studio.PagePlan.{
  PlannedOutput, range_from, collect_ranges, plan_outputs, validate_unique_indexes,
}
use document_studio.PagePlan.Indexes.{
  AllBelow, IsDistinct, IsDistinct-perm, validate_unique_indexes_iff,
}
use document_studio.PagePlan.Outputs.{
  IsPdfName, validate_output_iff, pages_of, lower_names, DistinctNames, collect_ranges-RowOfRanges,
}

-- What a split promises of the outputs that it plans.
pub record IsPartition (n : ℕ) (outputs : List PlannedOutput) : Type 0 where
  pub every_page_once : pages_of outputs ≡ range_from 0 n
  pub filled : All (λ o. 0 < length o.page_indexes) outputs
  pub named : All (λ o. IsPdfName o.output_name) outputs
  pub apart : DistinctNames (lower_names outputs)

split_ranges :
    (plan : SplitPlan) (n : ℕ) (outputs : List PlannedOutput)
    {rotations : List (ℕ × OutputRotation)}
    → plan_outputs "pdf.split" (split plan) n ≡ ok (outputs, rotations)
    → collect_ranges [] 0 n plan.ranges ≡ ok (outputs, n)
unfolding plan_outputs
split_ranges plan n outputs h = elim (Result-cases (collect_ranges [] 0 n plan.ranges)) [
  | inl ((rest, l), e) ↦ rw e (ground (arith, h, e))
  | inr (x, e) ↦ absurd (ground (arith, h, e))
]

-- The outputs of an accepted split of a document of `n` pages partition its pages: the pages of the
-- outputs, in the order of the outputs, are the pages of the document from the first to the last,
-- no output is empty, every output has a safe name with the extension `.pdf`, and no two names are
-- equal up to ASCII case.
pub split-IsPartition :
    (plan : SplitPlan) (n : ℕ) (outputs : List PlannedOutput)
    (rotations : List (ℕ × OutputRotation))
    → plan_outputs "pdf.split" (split plan) n ≡ ok (outputs, rotations)
    → IsPartition n outputs
split-IsPartition plan n outputs rotations h =
    let row =
      collect_ranges-RowOfRanges [] 0 n plan.ranges outputs n (split_ranges plan n outputs h) in
    record {
      every_page_once = row.covers ∙ ap (range_from 0) (omega arith);
      filled = row.filled;
      named = row.named;
      apart = row.apart;
    }

-- With the length of the document asked for as well.
unique_indexes-permutation :
    (is : List ℕ) (n : ℕ)
    → (validate_unique_indexes is n true ≡ ok tt)
      ↔ ((validate_unique_indexes is n false ≡ ok tt) × (length is ≡ n))
unfolding validate_unique_indexes
unique_indexes-permutation is n =
    (λ h. (ground (arith, h), ground (arith, h)), λ h. ground (arith, h.0, h.1))

-- A reorder has one output, with the indexes as they are.
abbrev pub reordered : ReorderPagesPlan → List PlannedOutput
reordered plan =
    record { output_name = plan.output_name; page_indexes = plan.ordered_page_indexes } ∷ []

accepted_order :
    (plan : ReorderPagesPlan) (n : ℕ)
    → IsPdfName plan.output_name
    → validate_unique_indexes plan.ordered_page_indexes n true ≡ ok tt
    → plan_outputs "pdf.reorder-pages" (reorder plan) n ≡ ok (reordered plan, [])
unfolding plan_outputs
accepted_order plan n named e = rw ((validate_output_iff plan.output_name).1 named, e) refl

refused_order :
    (plan : ReorderPagesPlan) (n : ℕ) (x : OperationError)
    → IsPdfName plan.output_name
    → validate_unique_indexes plan.ordered_page_indexes n true ≡ err x
    → plan_outputs "pdf.reorder-pages" (reorder plan) n ≡ err x
unfolding plan_outputs
refused_order plan n x named e = rw ((validate_output_iff plan.output_name).1 named, e) refl

-- What is asked of an order.
abbrev pub IsOrderOf : List ℕ → ℕ → Type 0
IsOrderOf is n = (0 < n) × (length is ≡ n) × AllBelow n is × IsDistinct is

unique_indexes-IsOrderOf :
    (is : List ℕ) (n : ℕ) → (validate_unique_indexes is n true ≡ ok tt) ↔ IsOrderOf is n
unique_indexes-IsOrderOf is n = (
  λ h.
      let (valid, long) = (unique_indexes-permutation is n).0 h in
      let (filled, _, below, distinct) = (validate_unique_indexes_iff is n).0 valid in
      (omega (arith, filled, long), long, below, distinct),
  λ h. (unique_indexes-permutation is n).1 (
    (validate_unique_indexes_iff is n).1 (omega (arith, h.0, h.1), omega (arith, h.1), h.2, h.3),
    h.1,
  ),
)

-- A new order of a document of `n` pages is accepted, under a safe name with the extension `.pdf`,
-- exactly when the document has a page and the order names as many pages as it has, all of them
-- there and none twice; an accepted order has one output, with the order's pages, and they are a
-- permutation of the pages of the document.
pub reorder-decides :
    (plan : ReorderPagesPlan) (n : ℕ)
    → IsPdfName plan.output_name
    → ((plan_outputs "pdf.reorder-pages" (reorder plan) n ≡ ok (reordered plan, []))
        ↔ IsOrderOf plan.ordered_page_indexes n)
      × (is_ok (plan_outputs "pdf.reorder-pages" (reorder plan) n) ≡ true
          → (plan_outputs "pdf.reorder-pages" (reorder plan) n ≡ ok (reordered plan, []))
            × Perm plan.ordered_page_indexes (range_from 0 n))
reorder-decides plan n named =
    let order = unique_indexes-IsOrderOf plan.ordered_page_indexes n in
    elim (Result-cases (validate_unique_indexes plan.ordered_page_indexes n true)) [
      | inl (u, e) ↦
          let accepted = accepted_order plan n named e in
          let (some_page, long, below, distinct) = order.0 e in
          (
            (λ h. (some_page, long, below, distinct), λ h. accepted),
            λ h. (accepted, IsDistinct-perm n plan.ordered_page_indexes below distinct long),
          )
      | inr (x, e) ↦
          let refused = refused_order plan n x named e in
          (
            (λ h. absurd (cc (h, refused)), λ h. absurd (cc (order.1 h, e))),
            λ h. absurd (ground (arith, h, refused)),
          )
    ]
