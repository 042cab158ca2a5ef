-- ===== src/Batch/Collisions.antt =====
-- The planned names of a batch: safe, free and apart from each other.
use document_studio.Base.{
  ℕ, zero, suc, ◌+◌, ◌≤◌, ◌<◌, ◌^◌, Bool, true, false, List, [], ◌∷◌, none, some, any, All, ◌≡◌,
  refl, ap, sym, subst, inl, inr, arith, if◌then◌else◌, ltb, ok, ok_or, map, Bool-cases,
  Result-cases, >>=-eq-ok, ok-injective,
}
use document_studio.Base.Text.{Text}
use document_studio.Contracts.Errors.{OperationError}
use document_studio.OutputNames.Policy.{validate_output_name}
use document_studio.OutputNames.Collision.{collision_name}
use document_studio.Batch.{
  CollisionPlanEntry, collision_exhausted, invalid_request, max_collision_attempts, is_available,
  select_name, plan_names, plan_collisions_against_names,
}

-- The ordinals count up from a number.
abbrev pub AreNumbered : ℕ → List CollisionPlanEntry → Type 0
AreNumbered n [] = Unit {0}
AreNumbered n (e ∷ es) = (e.ordinal ≡ n) × AreNumbered (n + 1) es

module _ (windows_file_names_equal : Text → Text → Bool) where
  abbrev pub IsTaken : List Text → Text → Type 0
  IsTaken names candidate = any (λ name. windows_file_names_equal name candidate) names ≡ true

  abbrev pub IsFree : List Text → Text → Type 0
  IsFree names candidate = any (λ name. windows_file_names_equal name candidate) names ≡ false

  -- No planned name is equal to an earlier one.
  abbrev pub AreApart : List CollisionPlanEntry → Type 0
  AreApart [] = Unit {0}
  AreApart (e ∷ es) =
      All (λ later. windows_file_names_equal e.planned_name later.planned_name ≡ false) es
      × AreApart es

  -- A chosen name is an attempt at the requested one, safe, and not there already.
  pub record IsChosen (existing_names : List Text) (e : CollisionPlanEntry) : Type 0 where
    pub attempt : e.planned_name ≡ collision_name e.requested_name e.collision_index
    pub in_range : e.collision_index < 1000
    pub safe_name : validate_output_name e.planned_name ≡ ok tt
    pub not_there : IsFree existing_names e.planned_name

  -- What a selected name is.
  record Selected (reserved existing_names : List Text) (requested_name : Text) (first left : ℕ)
      (choice : Text × ℕ) : Type 0 where
    attempt : choice.0 ≡ collision_name requested_name choice.1
    from_first : first ≤ choice.1
    in_range : choice.1 < first + left
    safe_name : validate_output_name choice.0 ≡ ok tt
    apart : IsFree reserved choice.0
    not_there : IsFree existing_names choice.0

  available :
      (reserved existing_names : List Text) (candidate : Text)
      → is_available windows_file_names_equal reserved existing_names candidate ≡ true
      → (validate_output_name candidate ≡ ok tt)
        × IsFree reserved candidate
        × IsFree existing_names candidate
  unfolding is_available
  available reserved existing_names candidate h =
      elim (Result-cases (validate_output_name candidate)) [
        | inl (u, e) ↦ (ground (arith, e), ground (arith, h, e), ground (arith, h, e))
        | inr (x, e) ↦ absurd (ground (arith, h, e))
      ]

  select_name-Selected :
      (reserved existing_names : List Text) (requested_name : Text) (first left : ℕ)
      (choice : Text × ℕ)
      → select_name windows_file_names_equal reserved existing_names requested_name first left
        ≡ some choice
      → Selected reserved existing_names requested_name first left choice
  unfolding select_name
  select_name-Selected reserved existing_names requested_name first zero choice h = cc
  select_name-Selected reserved existing_names requested_name first (suc left) choice h =
      let candidate = collision_name requested_name first in
      elim (Bool-cases (is_available windows_file_names_equal reserved existing_names candidate)) [
        | inl hit ↦
            let same : choice ≡ (candidate, first) = ground (arith, h, hit) in
            let (safe_name, apart, not_there) = available reserved existing_names candidate hit in
            subst (Selected reserved existing_names requested_name first (suc left)) (sym same)
              (record {
                attempt = refl;
                from_first = omega arith;
                in_range = omega arith;
                safe_name = safe_name;
                apart = apart;
                not_there = not_there;
              })
        | inr miss ↦
            let later =
              select_name-Selected reserved existing_names requested_name (first + 1) left choice
                (ground (arith, h, miss)) in
            record {
              attempt = later.attempt;
              from_first = omega (arith, later.from_first);
              in_range = omega (arith, later.in_range);
              safe_name = later.safe_name;
              apart = later.apart;
              not_there = later.not_there;
            }
      ]

  -- What the plan is, with the names that were reserved before.
  record PlannedAfter (reserved existing_names : List Text) (index : ℕ)
      (requested_names : List Text) (entries : List CollisionPlanEntry) : Type 0 where
    requests : map (λ e. e.requested_name) entries ≡ requested_names
    numbered : AreNumbered index entries
    chosen : All (IsChosen existing_names) entries
    apart : AreApart entries
    after : All (λ e. IsFree reserved e.planned_name) entries

  -- Free of one more reserved name.
  free_of_more :
      (t : Text) (reserved : List Text) (entries : List CollisionPlanEntry)
      → All (λ e. IsFree (t ∷ reserved) e.planned_name) entries
      → All (λ e. windows_file_names_equal t e.planned_name ≡ false) entries
        × All (λ e. IsFree reserved e.planned_name) entries
  free_of_more t reserved [] h = (tt, tt)
  free_of_more t reserved (e ∷ es) h =
      let (apart, free) = free_of_more t reserved es h.1 in
      ((ground (arith, h.0), apart), (ground (arith, h.0), free))

  plan_names-PlannedAfter :
      (reserved existing_names : List Text) (index : ℕ) (requested_names : List Text)
      (entries : List CollisionPlanEntry)
      → plan_names windows_file_names_equal reserved existing_names index requested_names
        ≡ ok entries
      → PlannedAfter reserved existing_names index requested_names entries
  unfolding plan_names
  plan_names-PlannedAfter reserved existing_names index [] entries h =
      subst (PlannedAfter reserved existing_names index []) (ok-injective {E = OperationError} h)
        (record { requests = refl; numbered = tt; chosen = tt; apart = tt; after = tt })
  plan_names-PlannedAfter reserved existing_names index (r ∷ rs) entries h =
      let (choice, e1, h1) =
        >>=-eq-ok
          (ok_or
            (select_name windows_file_names_equal reserved existing_names r 0
              max_collision_attempts)
            collision_exhausted)
          _ h in
      let (ordinal, e2, h2) =
        >>=-eq-ok (ok_or (if ltb index (2 ^ 32) then some index else none) invalid_request) _ h1 in
      let (rest, e3, h3) =
        >>=-eq-ok
          (plan_names windows_file_names_equal (choice.0 ∷ reserved) existing_names (index + 1) rs)
          _ h2 in
      let chosen =
        select_name-Selected reserved existing_names r 0 1000 choice (ground (arith, e1)) in
      let others =
        plan_names-PlannedAfter (choice.0 ∷ reserved) existing_names (index + 1) rs rest e3 in
      let (apart, after) = free_of_more choice.0 reserved rest others.after in
      subst (PlannedAfter reserved existing_names index (r ∷ rs))
        (ok-injective {E = OperationError} h3)
        (record {
          requests = ap (λ t. r ∷ t) others.requests;
          numbered = (ground (arith, e2), others.numbered);
          chosen = (
            record {
              attempt = chosen.attempt;
              in_range = omega (arith, chosen.in_range);
              safe_name = chosen.safe_name;
              not_there = chosen.not_there;
            },
            others.chosen,
          );
          apart = (apart, others.apart);
          after = (chosen.apart, after);
        })

  -- What a plan of output names promises.
  pub record IsCollisionFree (requested_names existing_names : List Text)
      (entries : List CollisionPlanEntry) : Type 0 where
    pub requests : map (λ e. e.requested_name) entries ≡ requested_names
    pub numbered : AreNumbered 0 entries
    pub chosen : All (IsChosen existing_names) entries
    pub apart : AreApart entries

  -- A plan that is made has one entry for each requested name, in their order and numbered from 0;
  -- each planned name is one of the thousand attempts at its requested name, a safe name, and equal
  -- to no name in the destination and to no name planned before it, by whatever comparison Windows
  -- has.
  pub plan_collisions_against_names-IsCollisionFree :
      (requested_names existing_names : List Text) (entries : List CollisionPlanEntry)
      → plan_collisions_against_names windows_file_names_equal requested_names existing_names
        ≡ ok entries
      → IsCollisionFree requested_names existing_names entries
  unfolding plan_collisions_against_names
  plan_collisions_against_names-IsCollisionFree requested_names existing_names entries h =
      let planned = plan_names-PlannedAfter [] existing_names 0 requested_names entries h in
      record {
        requests = planned.requests;
        numbered = planned.numbered;
        chosen = planned.chosen;
        apart = planned.apart;
      }
