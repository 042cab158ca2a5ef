-- ===== src/JobStore/Outcomes.antt =====
-- The completion outcomes that the calls of database.rs record.
use document_studio.Base.{
  ℕ, String, Bool, false, not, ◌||◌, List, [], ◌∷◌, none, some, ◌≡◌, refl, ◌∙◌, subst, inl, inr,
  arith, str_eq, eq_iff, Result, ok, err, ok-injective, refused_not, Result-cases, Bool-cases,
}
use document_studio.Contracts.JobState.{JobState, publishing, interrupted}
use document_studio.Contracts.CompletionKind
use document_studio.Contracts.CompletionReason.{JobCompletionReason}
use document_studio.JobEngine.{state_eq}
use document_studio.JobStore.Tables.{DatabaseError, Database, OutcomeRow}
use document_studio.JobStore.Evidence.{count_outcomes}
use document_studio.JobStore.Changes.{
  transition_job, complete_no_benefit, complete_published_from_state, complete_published,
  complete_recovered_published, request_cancellation, update_progress,
}
use document_studio.JobStore.Publication.{
  set_output_staging_at, reserve_publication_attempt_at, clear_owned_partial_at,
  clear_staging_path_at, clear_unpublished_intent_at, set_publication_intent_at,
  begin_publication_at, set_output_published_at,
}
use document_studio.JobStore.Balanced.{register_verified_balanced_output}
use document_studio.JobStore.Recovery.{
  activate_owned_partial_at, record_recovery_result_once, mark_interrupted,
}
use document_studio.JobStore.Steps
use document_studio.JobStore.Steps.{Call, call, run, tables}
use document_studio.JobStore.History.{call-Evolves}
use document_studio.JobStore.Refusal.{
  IsCancelled, IsCancelled-Evolves, Fails, Fails-refuse_if, complete_no_benefit-Fails,
  complete_published_from_state-Fails,
}

-- A call that records one outcome of one job, when it succeeds.
abbrev Adds : String → Database → Result DatabaseError (Database × ℕ) → Type 0
Adds id db r =
    (new : Database) (answer : ℕ)
    → r ≡ ok (new, answer)
    → (row : OutcomeRow) × (row.job_id ≡ id)
      × (new.job_completion_outcomes ≡ row ∷ db.job_completion_outcomes)

-- It records none of a job for which it fails.
other_outcome :
    (id' id : String) (r : Result DatabaseError (Database × ℕ)) (db new : Database)
    → Adds id db r
    → (id ≡ id' → Fails r)
    → tables r ≡ ok new
    → count_outcomes id' new.job_completion_outcomes ≡ count_outcomes id' db.job_completion_outcomes
unfolding count_outcomes
other_outcome id' id (err e) db new adds fails h = cc
other_outcome id' id (ok (d, a)) db new adds fails h =
    let (row, own, more) = adds d a refl in
    let same : d ≡ new = ok-injective {A = Database} h in
    elim (Bool-cases (str_eq id id')) [
      | inl mine ↦ cc (fails ((eq_iff id id').0 mine))
      | inr other ↦
          let another : str_eq row.job_id id' ≡ false = rw own other in
          subst {A = Database}
            (λ t.
              count_outcomes id' t.job_completion_outcomes
              ≡ count_outcomes id' db.job_completion_outcomes)
            same (rw (more, another) (omega arith))
    ]

module _ (parse_from_rfc3339 : String → Bool) where
  complete_no_benefit-Adds :
      (id : String) (version : ℕ) (reason : JobCompletionReason) (timestamp : String)
      (db : Database)
      → Adds id db (complete_no_benefit parse_from_rfc3339 id version reason timestamp db)
  unfolding complete_no_benefit
  complete_no_benefit-Adds id version reason timestamp db new answer h = (
    record {
      job_id = id;
      completion_kind = CompletionKind.no_benefit;
      reason = some reason;
      created_at = timestamp;
    },
    refl,
    ground (arith, h),
  )

  complete_published-Adds :
      (id : String) (expected : JobState) (version : ℕ) (timestamp : String) (db : Database)
      → Adds id db
          (complete_published_from_state parse_from_rfc3339 id expected version timestamp db)
  unfolding complete_published_from_state
  complete_published-Adds id expected version timestamp db new answer h = (
    record {
      job_id = id;
      completion_kind = CompletionKind.published;
      reason = none;
      created_at = timestamp;
    },
    refl,
    ground (arith, h),
  )

  complete_recovered-Adds :
      (now id : String) (expected : JobState) (version : ℕ) (db : Database)
      → Adds id db (complete_recovered_published parse_from_rfc3339 now id expected version db)
  unfolding complete_recovered_published
  complete_recovered-Adds now id expected version db new answer h =
      let (_, e) =
        refused_not (not (state_eq expected publishing || state_eq expected interrupted)) _ _ h in
      complete_published-Adds id expected version now db new answer e

  pub complete_recovered_published-Fails :
      (now id : String) (expected : JobState) (version : ℕ) (db : Database)
      → IsCancelled id db.jobs
      → Fails (complete_recovered_published parse_from_rfc3339 now id expected version db)
  unfolding complete_recovered_published
  complete_recovered_published-Fails now id expected version db c =
      Fails-refuse_if (not (state_eq expected publishing || state_eq expected interrupted)) _ _
        (λ _. complete_published_from_state-Fails parse_from_rfc3339 id expected version now db c)

  -- No call records an outcome of a job that is to be cancelled.
  call-outcomes :
      (id' : String) (now : String) (c : Call) (db new : Database)
      → IsCancelled id' db.jobs
      → call parse_from_rfc3339 now c db ≡ ok new
      → count_outcomes id' new.job_completion_outcomes
        ≡ count_outcomes id' db.job_completion_outcomes
  unfolding call transition_job request_cancellation update_progress set_output_staging_at
      reserve_publication_attempt_at clear_owned_partial_at clear_staging_path_at
      clear_unpublished_intent_at set_publication_intent_at begin_publication_at
      set_output_published_at register_verified_balanced_output activate_owned_partial_at
      record_recovery_result_once mark_interrupted complete_published
  call-outcomes id' now (Steps.transition id expected version next stage) db new s h =
      ground (arith, h)
  call-outcomes id' now (Steps.no_benefit id version reason timestamp) db new s h =
      other_outcome id' id (complete_no_benefit parse_from_rfc3339 id version reason timestamp db)
        db new (complete_no_benefit-Adds id version reason timestamp db)
        (λ same.
          complete_no_benefit-Fails parse_from_rfc3339 id version reason timestamp db (rw same s))
        h
  call-outcomes id' now (Steps.published id version timestamp) db new s h =
      other_outcome id' id
        (complete_published_from_state parse_from_rfc3339 id publishing version timestamp db) db new
        (complete_published-Adds id publishing version timestamp db)
        (λ same.
          complete_published_from_state-Fails parse_from_rfc3339 id publishing version timestamp db
            (rw same s))
        h
  call-outcomes id' now (Steps.recovered id expected version) db new s h =
      other_outcome id' id
        (complete_recovered_published parse_from_rfc3339 now id expected version db) db new
        (complete_recovered-Adds now id expected version db)
        (λ same. complete_recovered_published-Fails now id expected version db (rw same s)) h
  call-outcomes id' now (Steps.cancel id) db new s h = ground (arith, h)
  call-outcomes id' now (Steps.progress id expected stage done total unit) db new s h =
      ground (arith, h)
  call-outcomes id' now (Steps.stage_output id ordinal path size sha256 verified_at) db new s h =
      ground (arith, h)
  call-outcomes id' now (Steps.reserve id ordinal name final_path partial_path size sha256) db new s
        h =
      ground (arith, h)
  call-outcomes id' now (Steps.clear_partial id ordinal path) db new s h = ground (arith, h)
  call-outcomes id' now (Steps.activate id ordinal path code) db new s h = ground (arith, h)
  call-outcomes id' now (Steps.clear_staging id ordinal path) db new s h = ground (arith, h)
  call-outcomes id' now (Steps.clear_intent id ordinal) db new s h = ground (arith, h)
  call-outcomes id' now (Steps.intend id ordinal name final_path size sha256) db new s h =
      ground (arith, h)
  call-outcomes id' now (Steps.begin id ordinal name final_path size sha256) db new s h =
      ground (arith, h)
  call-outcomes id' now (Steps.publish_output id ordinal name final_path size sha256 path) db new s
        h =
      ground (arith, h)
  call-outcomes id' now (Steps.interrupt id expected) db new s h = ground (arith, h)
  call-outcomes id' now (Steps.record_recovery id code) db new s h = ground (arith, h)
  call-outcomes id' now (Steps.register id version output) db new s h = ground (arith, h)

  pub run-outcomes :
      (id : String) (calls : List (String × Call)) (db : Database)
      → IsCancelled id db.jobs
      → count_outcomes id (run parse_from_rfc3339 calls db).job_completion_outcomes
        ≡ count_outcomes id db.job_completion_outcomes
  unfolding run
  run-outcomes id [] db c = refl
  run-outcomes id ((now, k) ∷ calls) db c = elim (Result-cases (call parse_from_rfc3339 now k db)) [
    | inl (new, e) ↦
        let kept =
          IsCancelled-Evolves id db.jobs new.jobs (call-Evolves parse_from_rfc3339 now k db new e)
            c in
        rw (e, run) (run-outcomes id calls new kept ∙ call-outcomes id now k db new c e)
    | inr (x, e) ↦ rw (e, run) (run-outcomes id calls db c)
  ]
