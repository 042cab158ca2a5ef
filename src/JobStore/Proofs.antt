-- ===== src/JobStore/Proofs.antt =====
-- What the tables hold when a job is completed.
use document_studio.Base.{
  ℕ, ◌≤◌, ◌<◌, String, Bool, true, not, ◌&&◌, ◌||◌, List, [], ◌∷◌, none, is_some, is_none, All, ◌≡◌,
  refl, ap, sym, subst, arith, str_eq, eq_iff, ◌==◌, ok, ok_or, count_if, >>=-eq-ok,
}
use document_studio.Contracts.JobState.{JobState}
use document_studio.Contracts.CompletionKind
use document_studio.JobEngine.{state_eq, next_u64}
use document_studio.JobStore.Tables.{
  job_conflict, OutputRow, OutcomeRow, Database, job_row_is_valid, metadata_i64,
}
use document_studio.JobStore.Sql.{update, query_row}
use document_studio.JobStore.Evidence.{count_outputs, count_outcomes, is_fully_published}
use document_studio.JobStore.Changes.{
  complete_published_from_state, validate_completion_timestamp, completed_row,
}
use document_studio.Base.{ok-injective, refused_not}

module _ {A : Type 0} (p q : A → Bool) where
  count_at_most : (xs : List A) → count_if (λ x. p x && q x) xs ≤ count_if p xs
  count_at_most [] = omega arith
  count_at_most (x ∷ xs) = ground (arith, count_at_most xs)

  -- When as many satisfy both tests as the first one, the second follows from the first.
  pub count-All :
      (xs : List A)
      → count_if (λ x. p x && q x) xs ≡ count_if p xs
      → All (λ x. p x ≡ true → q x ≡ true) xs
  count-All [] h = tt
  count-All (x ∷ xs) h = (
    λ hit. ground (arith, h, hit, count_at_most xs),
    count-All xs (ground (arith, h, count_at_most xs)),
  )

str_eq_refl : (s : String) → str_eq s s ≡ true
str_eq_refl s = (eq_iff s s).1 refl

one_outcome :
    (id : String) (row : OutcomeRow) (outcomes : List OutcomeRow)
    → row.job_id ≡ id
    → count_outcomes id outcomes ≡ 0
    → count_outcomes id (row ∷ outcomes) ≡ 1
unfolding count_outcomes
one_outcome id row outcomes same none_yet =
    let here : str_eq row.job_id id ≡ true = rw same (str_eq_refl id) in
    ground (arith, here, none_yet)

-- Every output of the job has all that `complete_published_from_state` asks for.
abbrev pub AllPublished : String → List OutputRow → Type 0
AllPublished id = All (λ o. str_eq o.job_id id ≡ true → is_fully_published o.output ≡ true)

module _ (parse_from_rfc3339 : String → Bool) where
  -- When a job is completed as published, from whichever state, it has at least one output; every
  -- output of it is published, verified and hashed, with its name, size and final path and without
  -- a staging or partial path; no outcome of it was there and exactly one is there now; the outputs
  -- are as before, and the answer is the next version.
  pub published_evidence :
      (id : String) (expected : JobState) (version : ℕ) (timestamp : String) (db new : Database)
      (answer : ℕ)
      → complete_published_from_state parse_from_rfc3339 id expected version timestamp db
        ≡ ok (new, answer)
      → (0 < count_outputs id db.job_outputs)
        × AllPublished id db.job_outputs
        × (count_outcomes id db.job_completion_outcomes ≡ 0)
        × (count_outcomes id new.job_completion_outcomes ≡ 1)
        × (new.job_outputs ≡ db.job_outputs)
        × (answer ≡ next_u64 version)
  unfolding complete_published_from_state count_outcomes count_outputs
  published_evidence id expected version timestamp db new answer h =
      let (_, _, h1) = >>=-eq-ok (validate_completion_timestamp parse_from_rfc3339 timestamp) _ h in
      let (v, _, h2) = >>=-eq-ok (metadata_i64 version "job version") _ h1 in
      let (header, _, h3) =
        >>=-eq-ok (ok_or (query_row (λ j. str_eq j.id id) db.jobs) job_conflict) _ h2 in
      let (_, h4) =
        refused_not
          (not (state_eq header.state expected)
            || (not (header.version == version) || is_some header.cancellation_requested_at))
          _ _ h3 in
      let (_, h5) = refused_not (is_none header.resolved_output_name) _ _ h4 in
      let (enough, h6) =
        refused_not
          ((count_outputs id db.job_outputs == 0)
            || not (
                count_if (λ o. str_eq o.job_id id && is_fully_published o.output) db.job_outputs
                == count_outputs id db.job_outputs))
          _ _ h5 in
      let (first, h7) =
        refused_not (not (count_outcomes id db.job_completion_outcomes == 0)) _ _ h6 in
      let (u, _, h8) =
        >>=-eq-ok
          (update job_row_is_valid
            (λ j.
              str_eq j.id id
              && (state_eq j.state expected
                  && ((j.version == v)
                      && (is_none j.cancellation_requested_at && is_some j.resolved_output_name))))
            (completed_row timestamp) db.jobs)
          _ h7 in
      let (_, h9) = refused_not (not (u.1 == 1)) _ _ h8 in
      let done = ok-injective h9 in
      (
        ground (arith, enough),
        count-All (λ o. str_eq o.job_id id) (λ o. is_fully_published o.output) db.job_outputs
            (ground (arith, enough)),
        ground (arith, first),
        subst (λ os. count_outcomes id os ≡ 1) (ap (λ p. p.0.job_completion_outcomes) done)
            (one_outcome id
              (record {
                job_id = id;
                completion_kind = CompletionKind.published;
                reason = none;
                created_at = timestamp;
              })
              db.job_completion_outcomes refl (ground (arith, first))),
        sym (ap (λ p. p.0.job_outputs) done),
        sym (ap (λ p. p.1) done),
      )
