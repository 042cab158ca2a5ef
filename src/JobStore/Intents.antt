-- ===== src/JobStore/Intents.antt =====
-- The operations on the outputs of a job keep to its lifecycle, and so does an interruption.
use document_studio.Base.{
  ℕ, String, Bool, true, not, ◌&&◌, ◌||◌, List, Option, ◌≡◌, refl, inl, inr, arith, str_eq, ◌==◌,
  Result, ok, ◌>>=◌, ◌>>◌, refuse_if, ok_or, Bool-cases,
}
use document_studio.Contracts.JobState.{JobState, verifying, publishing, interrupted}
use document_studio.JobEngine.{can_transition, state_eq}
use document_studio.JobStore.Tables.{
  DatabaseError, job_conflict, Database, OutputRow, metadata_i64, output_row_is_valid,
}
use document_studio.JobStore.Sql.{update, query_row}
use document_studio.JobStore.Publication.{
  set_output_staging_at, reserve_publication_attempt_at, clear_owned_partial_at,
  clear_staging_path_at, clear_unpublished_intent_at, set_publication_intent_at,
  begin_publication_at, set_output_published_at,
}
use document_studio.JobStore.Recovery.{
  activate_owned_partial_at, record_recovery_result_once, mark_interrupted, has_run, is_publish,
  is_recovery,
}
use document_studio.JobStore.Rows.{
  Follows, Follows-refl, Related, Related-refl, Moves, Moves-update, Moves-refuse_if, Moves->>=,
  Moves-ok,
}
use document_studio.JobStore.Lifecycle.{same_state_Follows, edge_Follows}

-- An `UPDATE job_outputs` before the rest of an operation.
outputs-Moves :
    (db : Database) (where_clause : OutputRow → Bool) (set : OutputRow → OutputRow)
    (f : List OutputRow × ℕ → Result DatabaseError Database)
    → ((u : List OutputRow × ℕ) → Moves db (λ d. d) (f u))
    → Moves db (λ d. d) (update output_row_is_valid where_clause set db.job_outputs >>= f)
outputs-Moves db where_clause set f m =
    Moves->>= db (λ d. d) (update output_row_is_valid where_clause set db.job_outputs) f
      (λ u e. m u)

-- The last steps: the counts, and the new tables.
checked-Moves :
    (db new : Database) (refused : Bool) (e : DatabaseError)
    → Related (Follows db) db.jobs new.jobs
    → Moves {A = Database} db (λ d. d) (refuse_if refused e >> ok new)
checked-Moves db new refused e related =
    Moves-refuse_if db (λ d. d) refused e (ok new) (λ _. Moves-ok db (λ d. d) new related)

no_job_changed : (db : Database) → Related (Follows db) db.jobs db.jobs
no_job_changed db = Related-refl (Follows db) Follows-refl db.jobs

pub set_output_staging_at-Moves :
    (id : String) (ordinal : ℕ) (path : String) (size : ℕ) (sha256 verified_at : String)
    (db : Database)
    → Moves {A = Database} db
        (λ d. d)
        (set_output_staging_at id ordinal path size sha256 verified_at db)
unfolding set_output_staging_at
set_output_staging_at-Moves id ordinal path size sha256 verified_at db =
    Moves->>= db (λ d. d) (metadata_i64 size "output size") _
      (λ s _.
        outputs-Moves db _ _ _ (λ u. checked-Moves db _ (not (u.1 == 1)) _ (no_job_changed db)))

pub reserve_publication_attempt_at-Moves :
    (now id : String) (ordinal : ℕ) (name final_path partial_path : String) (size : ℕ)
    (sha256 : String) (db : Database)
    → Moves {A = Database} db
        (λ d. d)
        (reserve_publication_attempt_at now id ordinal name final_path partial_path size sha256 db)
unfolding reserve_publication_attempt_at
reserve_publication_attempt_at-Moves now id ordinal name final_path partial_path size sha256 db =
    Moves->>= db (λ d. d) (metadata_i64 size "output size") _
      (λ s _. outputs-Moves db _ _ _ (λ o.
        Moves-update db (λ d. d) _ _ _ _
          (λ j hit. same_state_Follows j _ refl refl refl (λ h. refl))
          (λ u related. checked-Moves db _ (not (o.1 == 1) || not (u.1 == 1)) _ related)))

pub clear_owned_partial_at-Moves :
    (id : String) (ordinal : ℕ) (path : String) (db : Database)
    → Moves {A = Database} db (λ d. d) (clear_owned_partial_at id ordinal path db)
unfolding clear_owned_partial_at
clear_owned_partial_at-Moves id ordinal path db =
    outputs-Moves db _ _ _ (λ u. checked-Moves db _ (not (u.1 == 1)) _ (no_job_changed db))

pub clear_staging_path_at-Moves :
    (id : String) (ordinal : ℕ) (path : Option String) (db : Database)
    → Moves {A = Database} db (λ d. d) (clear_staging_path_at id ordinal path db)
unfolding clear_staging_path_at
clear_staging_path_at-Moves id ordinal path db =
    outputs-Moves db _ _ _ (λ u. checked-Moves db _ (not (u.1 == 1)) _ (no_job_changed db))

pub clear_unpublished_intent_at-Moves :
    (now id : String) (ordinal : ℕ) (db : Database)
    → Moves {A = Database} db (λ d. d) (clear_unpublished_intent_at now id ordinal db)
unfolding clear_unpublished_intent_at
clear_unpublished_intent_at-Moves now id ordinal db = outputs-Moves db _ _ _ (λ o.
    Moves-update db (λ d. d) _ _ _ _ (λ j hit. same_state_Follows j _ refl refl refl (λ h. refl))
      (λ u related. checked-Moves db _ (not (o.1 == 1) || not (u.1 == 1)) _ related))

pub set_publication_intent_at-Moves :
    (now id : String) (ordinal : ℕ) (name final_path : String) (size : ℕ) (sha256 : String)
    (db : Database)
    → Moves {A = Database} db
        (λ d. d)
        (set_publication_intent_at now id ordinal name final_path size sha256 db)
unfolding set_publication_intent_at
set_publication_intent_at-Moves now id ordinal name final_path size sha256 db =
    Moves->>= db (λ d. d) (metadata_i64 size "output size") _
      (λ s _. outputs-Moves db _ _ _ (λ o.
        Moves-update db (λ d. d) _ _ _ _
          (λ j hit. same_state_Follows j _ refl refl refl (λ h. refl))
          (λ u related. checked-Moves db _ (not (o.1 == 1) || not (u.1 == 1)) _ related)))

publish_edge : can_transition verifying publishing ≡ true
unfolding can_transition
publish_edge = refl

pub begin_publication_at-Moves :
    (now id : String) (ordinal : ℕ) (name final_path : String) (size : ℕ) (sha256 : String)
    (db : Database)
    → Moves {A = Database} db
        (λ d. d)
        (begin_publication_at now id ordinal name final_path size sha256 db)
unfolding begin_publication_at
begin_publication_at-Moves now id ordinal name final_path size sha256 db =
    Moves->>= db (λ d. d) (metadata_i64 size "output size") _
      (λ s _.
        Moves->>= db (λ d. d)
          (ok_or (query_row (λ j. str_eq j.id id && state_eq j.state verifying) db.jobs)
            job_conflict)
          _
          (λ current _. outputs-Moves db _ _ _ (λ o.
            Moves-update db (λ d. d) _ _ _ _
              (λ j hit.
                edge_Follows j _ verifying publishing refl refl refl refl (ground (arith, hit))
                  publish_edge)
              (λ u related. checked-Moves db _ (not (o.1 == 1) || not (u.1 == 1)) _ related))))

pub set_output_published_at-Moves :
    (now id : String) (ordinal : ℕ) (name final_path : String) (size : ℕ) (sha256 : String)
    (path : Option String) (db : Database)
    → Moves {A = Database} db
        (λ d. d)
        (set_output_published_at now id ordinal name final_path size sha256 path db)
unfolding set_output_published_at
set_output_published_at-Moves now id ordinal name final_path size sha256 path db =
    Moves->>= db (λ d. d) (metadata_i64 size "output size") _
      (λ s _.
        outputs-Moves db _ _ _ (λ u. checked-Moves db _ (not (u.1 == 1)) _ (no_job_changed db)))

pub activate_owned_partial_at-Moves :
    (now id : String) (ordinal : ℕ) (path code : String) (db : Database)
    → Moves {A = Database} db (λ d. d) (activate_owned_partial_at now id ordinal path code db)
unfolding activate_owned_partial_at
activate_owned_partial_at-Moves now id ordinal path code db =
    checked-Moves db _ _ _ (elim (Bool-cases (has_run id is_publish code db.job_stage_runs)) [
      | inl seen ↦ rw seen (no_job_changed db)
      | inr new ↦ rw new (no_job_changed db)
    ])

pub record_recovery_result_once-jobs :
    (now id code : String) (db : Database)
    → Related (Follows db) db.jobs (record_recovery_result_once now id code db).jobs
unfolding record_recovery_result_once
record_recovery_result_once-jobs now id code db =
    elim (Bool-cases (has_run id is_recovery code db.job_stage_runs)) [
      | inl seen ↦ rw seen (no_job_changed db)
      | inr new ↦ rw new (no_job_changed db)
    ]

pub mark_interrupted-Moves :
    (now id : String) (expected : JobState) (db : Database)
    → Moves {A = Database} db (λ d. d) (mark_interrupted now id expected db)
unfolding mark_interrupted
mark_interrupted-Moves now id expected db = elim (Bool-cases (state_eq expected interrupted)) [
  | inl already ↦ rw already (
      Moves-update db (λ d. d) _ _ _ _ (λ j hit. same_state_Follows j _ refl refl refl (λ h. refl))
        (λ u related. Moves-ok db (λ d. d) _ related))
  | inr first ↦ rw first (
      Moves-refuse_if db (λ d. d) (not (can_transition expected interrupted)) _ _
        (λ edge.
          Moves-update db (λ d. d) _ _ _ _
            (λ j hit.
              edge_Follows j _ expected interrupted refl refl refl refl (ground (arith, hit))
                (ground (arith, edge)))
            (λ u related. checked-Moves db _ (not (u.1 == 1)) _ related)))
]
