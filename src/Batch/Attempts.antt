-- ===== src/Batch/Attempts.antt =====
-- Which attempt the plan of a batch takes.
use document_studio.Base.{
  ℕ, zero, suc, ◌+◌, ◌≤◌, ◌<◌, ◌≡◌, refl, subst, Bool, true, false, List, none, some, inl, inr, ◌⊎◌,
  arith, Bool-cases, ◌==◌, ==_iff,
}
use document_studio.Base.Text.{Text}
use document_studio.OutputNames.Collision.{collision_name}
use document_studio.Batch.{is_available, select_name}

module _ (windows_file_names_equal : Text → Text → Bool) (reserved existing_names : List Text)
    (requested_name : Text) where
  -- Whether an attempt may be taken.
  abbrev pub IsOpen : ℕ → Type 0
  IsOpen i =
      is_available windows_file_names_equal reserved existing_names
        (collision_name requested_name i)
      ≡ true

  abbrev pub IsShut : ℕ → Type 0
  IsShut i =
      is_available windows_file_names_equal reserved existing_names
        (collision_name requested_name i)
      ≡ false

  IsShut-below :
      (first : ℕ)
      → IsShut first
      → (bound : ℕ) → ((i : ℕ) → first + 1 ≤ i → i < bound → IsShut i)
      → (i : ℕ) → first ≤ i
      → i < bound
      → IsShut i
  IsShut-below first shut bound others i from below = elim (Bool-cases (first == i)) [
    | inl same ↦ subst IsShut ((==_iff first i).0 same) shut
    | inr other ↦ others i (ground (arith, from, other)) below
  ]

  -- The first open attempt of the `left` ones from `first` is selected, or all of them are shut and
  -- none is selected.
  abbrev pub SelectsLeast : ℕ → ℕ → Type 0
  SelectsLeast first left =
      ((k : ℕ) × (select_name windows_file_names_equal reserved existing_names requested_name first
            left
          ≡ some (collision_name requested_name k, k))
        × IsOpen k
        × (k < first + left)
        × ((i : ℕ) → first ≤ i → i < k → IsShut i))
      ⊎ ((select_name windows_file_names_equal reserved existing_names requested_name first left
            ≡ none)
          × ((i : ℕ) → first ≤ i → i < first + left → IsShut i))

  -- From any attempt on and with any number of attempts left, the name that is selected for a
  -- requested name is the first of these attempts that is safe and not taken, and when nothing is
  -- selected, each of them is unsafe or taken.
  pub select_name-SelectsLeast : (first left : ℕ) → SelectsLeast first left
  unfolding select_name
  select_name-SelectsLeast first zero =
      inr (refl, λ i from below. absurd (omega (arith, from, below)))
  select_name-SelectsLeast first (suc left) =
      elim (Bool-cases (
        is_available windows_file_names_equal reserved existing_names
          (collision_name requested_name first))) [
            | inl hit ↦ inl (
              first,
              rw hit refl,
              hit,
              omega arith,
              λ i from below. absurd (omega (arith, from, below)),
            )
            | inr shut ↦
                let longer : first + 1 + left ≡ first + suc left = omega arith in
                elim (select_name-SelectsLeast (first + 1) left) [
                  | inl (k, found, hit, small, others) ↦ inl (
                    k,
                    rw shut found,
                    hit,
                    omega (arith, small),
                    IsShut-below first shut k others,
                  )
                  | inr (nothing, others) ↦ inr (
                    rw shut nothing,
                    IsShut-below first shut (first + suc left)
                        (λ i from below. others i from (omega (arith, below))),
                  )
                ]
          ]
