-- ===== src/PagePlan/Outputs.antt =====
-- The output names of a plan, and the ranges of a split: what their acceptance says.
use document_studio.Base.{
  ℕ, suc, ◌+◌, ◌-◌, ◌≤◌, ◌<◌, true, false, List, [], ◌∷◌, ◌++◌, ◌≡◌, refl, ap, inl, inr, ◌↔◌, arith,
  length, All, map, ok, Result-cases,
}
use document_studio.Base.Text.{Text, codes, text_eq_iff, ascii_lower, ends_with}
use document_studio.Contracts.PagePlans.{SplitOutputRange}
use document_studio.OutputNames.Policy.{validate_output_name}
use document_studio.PagePlan.{
  PlannedOutput, range_from, range_inclusive, contains_text, validate_output, checked_add_u32,
  collect_ranges,
}
use document_studio.PagePlan.Ranges.{range_from-append, length-range_from}

-- A name that a PDF output may have: a safe file name with the extension `.pdf` in any case.
abbrev pub IsPdfName : Text → Type 0
IsPdfName name =
    (validate_output_name name ≡ ok tt) × (ends_with (codes ".pdf") (map ascii_lower name) ≡ true)

pub validate_output_iff : (name : Text) → (validate_output name ≡ ok tt) ↔ IsPdfName name
unfolding validate_output
validate_output_iff name = elim (Result-cases (validate_output_name name)) [
  | inl (u, e) ↦ (λ h. (ground (arith, e), ground (arith, e)), λ h. ground (arith, e, h.0, h.1))
  | inr (x, e) ↦ (λ h. ground (arith, e), λ h. ground (arith, e, h.0))
]

-- What one accepted range contributes.
record FirstRange (names : List Text) (expected n : ℕ) (r : SplitOutputRange)
    (ranges : List SplitOutputRange) (outputs : List PlannedOutput) (last : ℕ) : Type 0 where
  rest : List PlannedOutput
  others :
      collect_ranges (map ascii_lower r.output_name ∷ names) (r.end_page_index + 1) n ranges
      ≡ ok (rest, last)
  named : validate_output r.output_name ≡ ok tt
  new_name : contains_text (map ascii_lower r.output_name) names ≡ false
  starts : r.start_page_index ≡ expected
  ordered : r.start_page_index ≤ r.end_page_index
  inside : r.end_page_index < n
  head :
      outputs
      ≡ record {
        output_name = r.output_name;
        page_indexes = range_inclusive r.start_page_index r.end_page_index;
      }
        ∷ rest

collect_ranges-cons :
    (names : List Text) (expected n : ℕ) (r : SplitOutputRange) (ranges : List SplitOutputRange)
    {outputs : List PlannedOutput} {last : ℕ}
    → collect_ranges names expected n (r ∷ ranges) ≡ ok (outputs, last)
    → FirstRange names expected n r ranges outputs last
unfolding collect_ranges checked_add_u32
collect_ranges-cons names expected n r ranges h =
    elim (Result-cases
      (collect_ranges (map ascii_lower r.output_name ∷ names) (r.end_page_index + 1) n ranges)) [
        | inl ((rest, l), e) ↦ record {
          rest = rest;
          others = ground (arith, e);
          named = ground (arith, e);
          new_name = ground (arith, e);
          starts = ground (arith, e);
          ordered = ground (arith, e);
          inside = ground (arith, e);
          head = ground (arith, e);
        }
        | inr (x, e) ↦ absurd (ground (arith, e))
      ]

-- The pages of all outputs, in order.
abbrev pub pages_of : List PlannedOutput → List ℕ
pages_of [] = []
pages_of (o ∷ outputs) = o.page_indexes ++ pages_of outputs

-- The names, as Windows compares ASCII ones.
abbrev pub lower_names : List PlannedOutput → List Text
lower_names = map (λ o. map ascii_lower o.output_name)

abbrev pub DistinctNames : List Text → Type 0
DistinctNames [] = Unit {0}
DistinctNames (t ∷ ts) = (contains_text t ts ≡ false) × DistinctNames ts

abbrev pub AbsentNames : List Text → List Text → Type 0
AbsentNames names = All (λ t. contains_text t names ≡ false)

AbsentNames-cons :
    (t : Text) (names ts : List Text)
    → AbsentNames (t ∷ names) ts
    → (contains_text t ts ≡ false) × AbsentNames names ts
unfolding contains_text
AbsentNames-cons t names [] h = (refl, tt)
AbsentNames-cons t names (u ∷ ts) h =
    let (rest, absent) = AbsentNames-cons t names ts h.1 in
    (ground (arith, rest, h.0, text_eq_iff t u, text_eq_iff u t), (ground (arith, h.0), absent))

-- What the outputs of accepted ranges are, from the page `first` up to `last`.
pub record RowOfRanges (names : List Text) (first n : ℕ) (outputs : List PlannedOutput) (last : ℕ)
    : Type 0 where
  pub forward : first ≤ last
  pub within_document : first ≤ n → last ≤ n
  pub covers : pages_of outputs ≡ range_from first (last - first)
  pub filled : All (λ o. 0 < length o.page_indexes) outputs
  pub named : All (λ o. IsPdfName o.output_name) outputs
  pub apart : DistinctNames (lower_names outputs)
  pub absent : AbsentNames names (lower_names outputs)

no_ranges : (names : List Text) (first n : ℕ) → RowOfRanges names first n [] first
no_ranges names first n = record {
  forward = omega arith;
  within_document = λ h. h;
  covers =
      let none_left : first - first ≡ 0 = omega arith in rw none_left (unfold range_from in refl);
  filled = tt;
  named = tt;
  apart = tt;
  absent = tt;
}

more_ranges :
    (names : List Text) (first n : ℕ) (r : SplitOutputRange) (rest : List PlannedOutput) (last : ℕ)
    → first ≤ r.end_page_index
    → r.end_page_index < n
    → contains_text (map ascii_lower r.output_name) names ≡ false
    → IsPdfName r.output_name
    → RowOfRanges (map ascii_lower r.output_name ∷ names) (r.end_page_index + 1) n rest last
    → RowOfRanges names first n
        (record {
          output_name = r.output_name;
          page_indexes = range_inclusive first r.end_page_index;
        }
          ∷ rest)
        last
unfolding range_inclusive
more_ranges names first n r rest last ordered inside new_name named row =
    let (fresh, absent) = AbsentNames-cons _ names (lower_names rest) row.absent in
    record {
      forward = omega (arith, row.forward);
      within_document = λ h. row.within_document (omega arith);
      covers =
          let further : first + (suc r.end_page_index - first) ≡ r.end_page_index + 1 =
            omega arith in
          let all_pages : last - first
              ≡ (suc r.end_page_index - first) + (last - (r.end_page_index + 1)) =
            omega (arith, row.forward) in
          rw all_pages (
            rw
              (range_from-append first (suc r.end_page_index - first)
                (last - (r.end_page_index + 1)))
              (rw further
                (ap (λ t. range_from first (suc r.end_page_index - first) ++ t) row.covers)));
      filled = (omega (arith, length-range_from first (suc r.end_page_index - first)), row.filled);
      named = (named, row.named);
      apart = (fresh, row.apart);
      absent = (new_name, absent);
    }

-- Accepted ranges cover the pages from the expected start up to the last one, in order and without
-- a gap, in outputs that are not empty and have PDF names that differ by more than ASCII case.
pub collect_ranges-RowOfRanges :
    (names : List Text) (expected n : ℕ) (ranges : List SplitOutputRange)
    (outputs : List PlannedOutput) (last : ℕ)
    → collect_ranges names expected n ranges ≡ ok (outputs, last)
    → RowOfRanges names expected n outputs last
collect_ranges-RowOfRanges names expected n [] outputs last h =
    let same_outputs : outputs ≡ [] = unfold collect_ranges in ground (arith, h) in
    let same_last : last ≡ expected = unfold collect_ranges in ground (arith, h) in
    rw same_outputs (rw same_last (no_ranges names expected n))
collect_ranges-RowOfRanges names expected n (r ∷ ranges) outputs last h =
    let first = collect_ranges-cons names expected n r ranges h in
    let others =
      collect_ranges-RowOfRanges (map ascii_lower r.output_name ∷ names) (r.end_page_index + 1) n
        ranges first.rest last first.others in
    rw first.head (
      rw first.starts (
        more_ranges names expected n r first.rest last (omega (arith, first.starts, first.ordered))
          first.inside first.new_name ((validate_output_iff r.output_name).0 first.named) others))
