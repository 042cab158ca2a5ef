-- ===== src/JobStore/Lifecycle.antt =====
-- The operations on the tables and the lifecycle of a job.
pub mod Completions
use document_studio.Base.{
  ℕ, ◌+◌, String, Bool, true, false, not, ◌&&◌, ◌||◌, List, [], ◌∷◌, All, sym, subst, eq_iff,
  Option, is_some, is_none, ◌≡◌, refl, arith, str_eq, ◌==◌, ok, ◌>>◌, refuse_if, ok_or, count_if,
  if◌then◌else◌,
}
use document_studio.Contracts.JobState.{JobState, verifying, completed, is_terminal}
use document_studio.Contracts.OperationStage.{OperationStage}
use document_studio.Contracts.ProgressUnit.{ProgressUnit}
use document_studio.Contracts.CompletionReason.{JobCompletionReason}
use document_studio.JobEngine.{can_transition, state_eq}
use document_studio.JobStore.Tables.{
  DatabaseError, sqlite, job_conflict, metadata_i64, Database, JobRow,
}
use document_studio.JobStore.Sql.{query_row}
use document_studio.JobStore.Evidence.{
  terminal_evidence_is_ready, count_outputs, count_outcomes, count_errors, is_fully_published,
}
use document_studio.JobStore.Changes.{
  transition_job, complete_no_benefit, complete_published_from_state, request_cancellation,
  update_progress, completed_row, validate_completion_timestamp,
}
use document_studio.JobStore.Rows.{
  HasNothing, Follows, Related, Moves, Moves-update, Moves-refuse_if, Moves->>=, Moves-ok,
  same_state,
}

pub same_states : (a b : JobState) → state_eq a b ≡ true → a ≡ b
unfolding state_eq
same_states a b h = ground arith

-- A change of a row that leaves the state, and does not take a cancellation back.
pub same_state_Follows :
    {db : Database} (j new : JobRow)
    → new.id ≡ j.id
    → new.state ≡ j.state
    → new.version ≡ j.version + 1
    → (is_some j.cancellation_requested_at ≡ true
        → new.cancellation_requested_at ≡ j.cancellation_requested_at)
    → Follows db j new
same_state_Follows j new same kept grows stays =
    let state : state_eq j.state new.state ≡ true = rw kept (same_state j.state) in
    record {
      same_id = same;
      legal = ground (arith, state);
      version_grows = omega (arith, grows);
      version_moves = λ h. absurd (cc (h, state));
      cancellation_stays = stays;
      no_completion_of_cancelled = λ h h'. absurd (cc (h', state));
      no_completion_with_an_output = λ h h'. absurd (cc (h', state));
    }

-- A change of state by an edge of the lifecycle.
pub edge_Follows :
    {db : Database} (j new : JobRow) (from next : JobState)
    → new.id ≡ j.id
    → new.state ≡ next
    → new.version ≡ j.version + 1
    → new.cancellation_requested_at ≡ j.cancellation_requested_at
    → state_eq j.state from ≡ true
    → can_transition from next ≡ true
    → Follows db j new
edge_Follows j new from next same moved version kept at_from edge =
    let here : j.state ≡ from = same_states j.state from at_from in
    let along : can_transition j.state new.state ≡ true = rw (here, moved) edge in
    record {
      same_id = same;
      legal = ground (arith, along);
      version_grows = omega (arith, version);
      version_moves = λ h. version;
      cancellation_stays = λ h. kept;
      no_completion_of_cancelled = λ h h'. absurd (cc (h, along));
      no_completion_with_an_output = λ h h'. absurd (cc (h, along));
    }

-- The last steps of an operation: the count, and the new tables.
pub one_changed-Moves :
    {A : Type 0} (db new : Database) (refused : Bool) (e : DatabaseError) (a : A)
    → Related (Follows db) db.jobs new.jobs
    → Moves {A = Database × A} db (λ p. p.0) (refuse_if refused e >> ok (new, a))
one_changed-Moves db new refused e a related =
    Moves-refuse_if db (λ p. p.0) refused e (ok (new, a))
      (λ _. Moves-ok db (λ p. p.0) (new, a) related)

pub request_cancellation-Moves :
    (now id : String) (db : Database) → Moves db (λ p. p.0) (request_cancellation now id db)
unfolding request_cancellation
request_cancellation-Moves now id db =
    Moves-update db (λ p. p.0) _ _ _ _
      (λ j hit. same_state_Follows j _ refl refl refl (λ h. absurd (ground (arith, h, hit))))
      (λ u related. Moves-ok db (λ p. p.0) _ related)

pub update_progress-Moves :
    (now id : String) (expected : JobState) (stage : OperationStage) (done total : ℕ)
    (unit : ProgressUnit) (db : Database)
    → Moves db (λ p. p.0) (update_progress now id expected stage done total unit db)
unfolding update_progress
update_progress-Moves now id expected stage done total unit db =
    Moves->>= db (λ p. p.0) (metadata_i64 done "completed units") _
      (λ d _.
        Moves->>= db (λ p. p.0) (metadata_i64 total "total units") _
          (λ t _.
            Moves-update db (λ p. p.0) _ _ _ _
              (λ j hit. same_state_Follows j _ refl refl refl (λ h. refl))
              (λ u related.
                Moves-refuse_if db (λ p. p.0) (not (u.1 == 1)) _ _
                  (λ _.
                    Moves->>= db (λ p. p.0) (ok_or (query_row (λ j. str_eq j.id id) u.0) sqlite) _
                      (λ row _. Moves-ok db (λ p. p.0) _ related)))))

pub transition_job-Moves :
    (now id : String) (expected : JobState) (version : ℕ) (next : JobState)
    (stage : Option OperationStage) (db : Database)
    → Moves db (λ p. p.0) (transition_job now id expected version next stage db)
unfolding transition_job
transition_job-Moves now id expected version next stage db =
    Moves-refuse_if db (λ p. p.0) (not (can_transition expected next)) _ _
      (λ edge.
        Moves->>= db (λ p. p.0)
          (if is_terminal next then terminal_evidence_is_ready id next db else ok true) _
          (λ is_ready _.
            Moves-refuse_if db (λ p. p.0) (not is_ready) _ _
              (λ _.
                Moves->>= db (λ p. p.0) (metadata_i64 version "job version") _
                  (λ v _.
                    Moves-update db (λ p. p.0) _ _ _ _
                      (λ j hit.
                        edge_Follows j _ expected next refl refl refl refl (ground (arith, hit))
                          (ground (arith, edge)))
                      (λ u related. one_changed-Moves db _ (not (u.1 == 1)) _ _ related)))))
