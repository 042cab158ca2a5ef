-- ===== src/JobStore/Endings.antt =====
-- The calls that end a job, and the outputs of the jobs that have ended.
use document_studio.Base.{
  ℕ, String, Bool, true, not, ◌&&◌, ◌||◌, is_some, is_none, ◌≡◌, subst, ap, arith, str_eq, ◌==◌,
  Option, Result, err, ok, ok_or, count_if, if◌then◌else◌, >>=-eq-ok, ok-injective, refused_not,
}
use document_studio.Contracts.JobState.{
  JobState, verifying, publishing, interrupted, completed, is_terminal,
}
use document_studio.Contracts.OperationStage.{OperationStage}
use document_studio.Contracts.CompletionReason.{JobCompletionReason}
use document_studio.JobEngine.{can_transition, state_eq}
use document_studio.JobStore.Tables.{
  DatabaseError, job_conflict, OutputRow, Database, job_row_is_valid, metadata_i64,
}
use document_studio.JobStore.Sql.{update, query_row}
use document_studio.JobStore.Evidence.{
  count_outputs, count_outcomes, count_errors, is_fully_published, terminal_evidence_is_ready,
}
use document_studio.JobStore.Changes.{
  transition_job, complete_no_benefit, complete_published_from_state, complete_published,
  complete_recovered_published, validate_completion_timestamp,
}
use document_studio.JobStore.Steps
use document_studio.JobStore.Steps.{Call, call, tables}
use document_studio.JobStore.Clean.{
  IsTidy, IsDelivered, OfJob, IsClean, AllClean, fully-IsTidy, fully-IsDelivered, OfJob-map,
  ready_evidence, update-All, completed_ends, is_completed, clean_row, no_outputs,
}
use document_studio.JobStore.Proofs.{count-All}

-- The calls that may end a job.
abbrev pub IsEnding : Call → Type 0
IsEnding (Steps.transition id expected version next stage) = Unit {0}
IsEnding (Steps.no_benefit id version reason timestamp) = Unit {0}
IsEnding (Steps.published id version timestamp) = Unit {0}
IsEnding (Steps.recovered id expected version) = Unit {0}
IsEnding _ = ⊥

transition_job-AllClean :
    (now id : String) (expected : JobState) (version : ℕ) (next : JobState)
    (stage : Option OperationStage) (db new : Database) (answer : ℕ)
    → AllClean db
    → transition_job now id expected version next stage db ≡ ok (new, answer)
    → AllClean new
unfolding transition_job
transition_job-AllClean now id expected version next stage db new answer clean h =
    let (_, h1) = refused_not (not (can_transition expected next)) _ _ h in
    let (is_ready, e, h2) =
      >>=-eq-ok (if is_terminal next then terminal_evidence_is_ready id next db else ok true) _
        h1 in
    let (ready, h3) = refused_not (not is_ready) _ _ h2 in
    let (v, _, h4) = >>=-eq-ok (metadata_i64 version "job version") _ h3 in
    let (u, changed, h5) = >>=-eq-ok (update job_row_is_valid _ _ db.jobs) _ h4 in
    let (_, h6) = refused_not (not (u.1 == 1)) _ _ h5 in
    let evidence : is_terminal next ≡ true
        → OfJob IsTidy id db.job_outputs
          × (state_eq next completed ≡ true → OfJob IsDelivered id db.job_outputs) =
      λ ends. ready_evidence id next db (ground (arith, e, ends, ready)) in
    subst AllClean (ap (λ p. p.0) (ok-injective h6)) (
      update-All (IsClean db.job_outputs) job_row_is_valid _ _ db.jobs
        (λ j hit.
          clean_row id db.job_outputs j.id next (ground (arith, hit)) (λ ends. (evidence ends).0)
            (λ last. (evidence (completed_ends next last)).1 (is_completed next last)))
        clean u changed)

module _ (parse_from_rfc3339 : String → Bool) where
  complete_no_benefit-AllClean :
      (id : String) (version : ℕ) (reason : JobCompletionReason) (timestamp : String)
      (db new : Database) (answer : ℕ)
      → AllClean db
      → complete_no_benefit parse_from_rfc3339 id version reason timestamp db ≡ ok (new, answer)
      → AllClean new
  unfolding complete_no_benefit
  complete_no_benefit-AllClean id version reason timestamp db new answer clean h =
      let (_, _, h1) = >>=-eq-ok (validate_completion_timestamp parse_from_rfc3339 timestamp) _ h in
      let (v, _, h2) = >>=-eq-ok (metadata_i64 version "job version") _ h1 in
      let (header, _, h3) =
        >>=-eq-ok (ok_or (query_row (λ j. str_eq j.id id) db.jobs) job_conflict) _ h2 in
      let (_, h4) =
        refused_not
          (not (state_eq header.state verifying)
            || (not (header.version == version) || is_some header.cancellation_requested_at))
          _ _ h3 in
      let (_, h5) = refused_not (is_some header.resolved_output_name) _ _ h4 in
      let (empty, h6) =
        refused_not
          (not (count_outputs id db.job_outputs == 0) || not (count_errors id db.job_errors == 0)) _
          _ h5 in
      let (_, h7) = refused_not (not (count_outcomes id db.job_completion_outcomes == 0)) _ _ h6 in
      let (u, changed, h8) = >>=-eq-ok (update job_row_is_valid _ _ db.jobs) _ h7 in
      let (_, h9) = refused_not (not (u.1 == 1)) _ _ h8 in
      let zero : count_outputs id db.job_outputs ≡ 0 = ground (arith, empty) in
      subst AllClean (ap (λ p. p.0) (ok-injective h9)) (
        update-All (IsClean db.job_outputs) job_row_is_valid _ _ db.jobs
          (λ j hit.
            clean_row id db.job_outputs j.id completed (ground (arith, hit))
              (λ _. no_outputs IsTidy id db.job_outputs zero)
              (λ _. no_outputs IsDelivered id db.job_outputs zero))
          clean u changed)

  complete_published_from_state-AllClean :
      (id : String) (expected : JobState) (version : ℕ) (timestamp : String) (db new : Database)
      (answer : ℕ)
      → AllClean db
      → complete_published_from_state parse_from_rfc3339 id expected version timestamp db
        ≡ ok (new, answer)
      → AllClean new
  unfolding complete_published_from_state
  complete_published_from_state-AllClean id expected version timestamp db new answer clean h =
      let (_, _, h1) = >>=-eq-ok (validate_completion_timestamp parse_from_rfc3339 timestamp) _ h in
      let (v, _, h2) = >>=-eq-ok (metadata_i64 version "job version") _ h1 in
      let (header, _, h3) =
        >>=-eq-ok (ok_or (query_row (λ j. str_eq j.id id) db.jobs) job_conflict) _ h2 in
      let (_, h4) =
        refused_not
          (not (state_eq header.state expected)
            || (not (header.version == version) || is_some header.cancellation_requested_at))
          _ _ h3 in
      let (_, h5) = refused_not (is_none header.resolved_output_name) _ _ h4 in
      let mine : OutputRow → Bool = λ o. str_eq o.job_id id in
      let (enough, h6) =
        refused_not
          ((count_outputs id db.job_outputs == 0)
            || not (
                count_if (λ o. mine o && is_fully_published o.output) db.job_outputs
                == count_outputs id db.job_outputs))
          _ _ h5 in
      let (_, h7) = refused_not (not (count_outcomes id db.job_completion_outcomes == 0)) _ _ h6 in
      let (u, changed, h8) = >>=-eq-ok (update job_row_is_valid _ _ db.jobs) _ h7 in
      let (_, h9) = refused_not (not (u.1 == 1)) _ _ h8 in
      let every : count_if (λ o. mine o && is_fully_published o.output) db.job_outputs
          ≡ count_outputs id db.job_outputs =
        ground (arith, enough) in
      let all =
        count-All mine (λ o. is_fully_published o.output) db.job_outputs
          (unfold count_outputs in every) in
      subst AllClean (ap (λ p. p.0) (ok-injective h9)) (
        update-All (IsClean db.job_outputs) job_row_is_valid _ _ db.jobs
          (λ j hit.
            clean_row id db.job_outputs j.id completed (ground (arith, hit))
              (λ _. OfJob-map is_fully_published true IsTidy id db.job_outputs fully-IsTidy all)
              (λ _.
                OfJob-map is_fully_published true IsDelivered id db.job_outputs fully-IsDelivered
                  all))
          clean u changed)

  call_tables :
      {A : Type 0} (r : Result DatabaseError (Database × A)) (new : Database)
      → tables r ≡ ok new
      → (a : A) × (r ≡ ok (new, a))
  call_tables (ok (d, a)) new h =
      (a, ap {A = Database} (λ t. ok (t, a)) (ok-injective {A = Database} h))
  call_tables (err e) new h = cc

  -- When, of every job that has ended, no output has a staging path or a partial path, and of every
  -- completed job each output is published with a final path, a size, a hash and the time of its
  -- publication, then both still hold after any call that can end a job and succeeds: a transition
  -- to whichever state, the end without a benefit, and the end of a publication or of a recovered
  -- one.
  pub call-AllClean :
      (now : String) (c : Call) (db new : Database)
      → IsEnding c
      → AllClean db
      → call parse_from_rfc3339 now c db ≡ ok new
      → AllClean new
  unfolding call complete_published complete_recovered_published
  call-AllClean now (Steps.transition id expected version next stage) db new ends clean h =
      let (answer, e) = call_tables (transition_job now id expected version next stage db) new h in
      transition_job-AllClean now id expected version next stage db new answer clean e
  call-AllClean now (Steps.no_benefit id version reason timestamp) db new ends clean h =
      let (answer, e) =
        call_tables (complete_no_benefit parse_from_rfc3339 id version reason timestamp db) new h in
      complete_no_benefit-AllClean id version reason timestamp db new answer clean e
  call-AllClean now (Steps.published id version timestamp) db new ends clean h =
      let (answer, e) =
        call_tables
          (complete_published_from_state parse_from_rfc3339 id publishing version timestamp db) new
          h in
      complete_published_from_state-AllClean id publishing version timestamp db new answer clean e
  call-AllClean now (Steps.recovered id expected version) db new ends clean h =
      let (answer, e) =
        call_tables (complete_recovered_published parse_from_rfc3339 now id expected version db) new
          h in
      let (_, e1) =
        refused_not (not (state_eq expected publishing || state_eq expected interrupted)) _ _ e in
      complete_published_from_state-AllClean id expected version now db new answer clean e1
  call-AllClean now (Steps.cancel _) db new ends clean h = absurd ends
  call-AllClean now (Steps.progress _ _ _ _ _ _) db new ends clean h = absurd ends
  call-AllClean now (Steps.stage_output _ _ _ _ _ _) db new ends clean h = absurd ends
  call-AllClean now (Steps.reserve _ _ _ _ _ _ _) db new ends clean h = absurd ends
  call-AllClean now (Steps.clear_partial _ _ _) db new ends clean h = absurd ends
  call-AllClean now (Steps.activate _ _ _ _) db new ends clean h = absurd ends
  call-AllClean now (Steps.clear_staging _ _ _) db new ends clean h = absurd ends
  call-AllClean now (Steps.clear_intent _ _) db new ends clean h = absurd ends
  call-AllClean now (Steps.intend _ _ _ _ _ _) db new ends clean h = absurd ends
  call-AllClean now (Steps.begin _ _ _ _ _ _) db new ends clean h = absurd ends
  call-AllClean now (Steps.publish_output _ _ _ _ _ _ _) db new ends clean h = absurd ends
  call-AllClean now (Steps.interrupt _ _) db new ends clean h = absurd ends
  call-AllClean now (Steps.record_recovery _ _) db new ends clean h = absurd ends
  call-AllClean now (Steps.register _ _ _) db new ends clean h = absurd ends
