-- ===== src/JobStore/Balanced/Moves.antt =====
-- `register_verified_balanced_output` of database.rs and the lifecycle of a job.
use document_studio.Base.{ℕ, String, not, ◌&&◌, refl, str_eq, ◌==◌, any}
use document_studio.Contracts.Records.{JobOutput}
use document_studio.JobStore.Tables.{Database, output_row_is_valid, metadata_i64}
use document_studio.JobStore.Evidence.{count_outputs}
use document_studio.JobStore.Balanced.{
  is_verified_output, unwrapped, verified_row, register_verified_balanced_output,
}
use document_studio.JobStore.Rows.{Moves, Moves-update, Moves-refuse_if, Moves->>=, Moves-ok}
use document_studio.JobStore.Lifecycle.{same_state_Follows}

pub register_verified_balanced_output-Moves :
    (now id : String) (version : ℕ) (output : JobOutput) (db : Database)
    → Moves db (λ p. p.0) (register_verified_balanced_output now id version output db)
unfolding register_verified_balanced_output
register_verified_balanced_output-Moves now id version output db =
    Moves-refuse_if db (λ p. p.0) (not (is_verified_output output)) _ _
      (λ _.
        Moves->>= db (λ p. p.0) (metadata_i64 version "job version") _
          (λ v _.
            Moves->>= db (λ p. p.0) (metadata_i64 (unwrapped output.size_bytes) "output size") _
              (λ size _.
                Moves-refuse_if db (λ p. p.0) (not (count_outputs id db.job_outputs == 0)) _ _
                  (λ _.
                    Moves-refuse_if db (λ p. p.0)
                      (not (
                        output_row_is_valid (verified_row id output size)
                        && any (λ j. str_eq j.id id) db.jobs))
                      _ _
                      (λ _.
                        Moves-update db (λ p. p.0) _ _ _ _
                          (λ j hit. same_state_Follows j _ refl refl refl (λ h. refl))
                          (λ u related.
                            Moves-refuse_if db (λ p. p.0) (not (u.1 == 1)) _ _
                              (λ _. Moves-ok db (λ p. p.0) _ related)))))))
