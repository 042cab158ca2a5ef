-- ===== src/PagePlan/Removal.antt =====
-- Which pages are left when pages are removed.
use document_studio.Base.{
  ℕ, zero, suc, ◌+◌, ◌<◌, Bool, false, not, ◌&&◌, List, [], ◌∷◌, ◌≡◌, refl, ◌∙◌, inl, inr, arith,
  filter_if, ltb, leb, ◌==◌, ==_iff, length, ok, Bool-cases, Result-cases,
}
use document_studio.Contracts.PagePlans.{OutputRotation, RemovePagesPlan, remove}
use document_studio.PagePlan.{
  PlannedOutput, range_from, contains, plan_outputs, validate_output, validate_unique_indexes,
}
use document_studio.PagePlan.Indexes.{AllBelow, IsDistinct, validate_unique_indexes_iff}
use document_studio.PagePlan.Outputs.{IsPdfName, validate_output_iff}

contains-filter_if :
    (i : ℕ) (p : ℕ → Bool) (js : List ℕ) → contains i (filter_if p js) ≡ (contains i js && p i)
unfolding contains
contains-filter_if i p [] = refl
contains-filter_if i p (j ∷ js) = elim (Bool-cases (j == i)) [
  | inl same ↦
      let here : j ≡ i = (==_iff j i).0 same in rw here (ground (arith, contains-filter_if i p js))
  | inr other ↦ ground (arith, contains-filter_if i p js, other)
]

contains-range_from :
    (i first n : ℕ) → contains i (range_from first n) ≡ (leb first i && ltb i (first + n))
unfolding contains range_from
contains-range_from i first zero = ground arith
contains-range_from i first (suc n) = ground (arith, contains-range_from i (first + 1) n)

-- The pages that are left.
abbrev pub pages_left : RemovePagesPlan → ℕ → List ℕ
pages_left plan n = filter_if (λ i. not (contains i plan.removed_page_indexes)) (range_from 0 n)

-- When a removal is accepted for a document of `n` pages, its name is a safe PDF name; the removed
-- pages are some of the document's, none twice and fewer than all; and there is one output, which
-- has a page exactly when the document has it and it is not among the removed ones.
pub remove_keeps_others :
    (plan : RemovePagesPlan) (n : ℕ) (outputs : List PlannedOutput)
    (rotations : List (ℕ × OutputRotation))
    → plan_outputs "pdf.remove-pages" (remove plan) n ≡ ok (outputs, rotations)
    → IsPdfName plan.output_name
      × (length plan.removed_page_indexes < n)
      × AllBelow n plan.removed_page_indexes
      × IsDistinct plan.removed_page_indexes
      × (outputs ≡ record { output_name = plan.output_name; page_indexes = pages_left plan n } ∷ [])
      × ((i : ℕ)
          → contains i (pages_left plan n)
            ≡ (ltb i n && not (contains i plan.removed_page_indexes)))
unfolding plan_outputs
remove_keeps_others plan n outputs rotations h =
    elim (Result-cases (validate_output plan.output_name)) [
      | inl (u, e) ↦
          elim (Result-cases (validate_unique_indexes plan.removed_page_indexes n false)) [
            | inl (v, f) ↦
                let (_, _, below, distinct) =
                  (validate_unique_indexes_iff plan.removed_page_indexes n).0 f in
                (
                  (validate_output_iff plan.output_name).0 e,
                  ground (arith, h, e, f),
                  below,
                  distinct,
                  ground (arith, h, e, f),
                  λ i.
                      contains-filter_if i (λ j. not (contains j plan.removed_page_indexes))
                        (range_from 0 n)
                      ∙ rw (contains-range_from i 0 n) (ground arith),
                )
            | inr (x, f) ↦ absurd (ground (arith, h, e, f))
          ]
      | inr (x, e) ↦ absurd (ground (arith, h, e))
    ]
