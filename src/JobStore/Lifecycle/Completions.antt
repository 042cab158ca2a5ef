-- ===== src/JobStore/Lifecycle/Completions.antt =====
-- The completions with an outcome, and the lifecycle of a job.
use document_studio.Base.{
  ℕ, String, Bool, true, false, not, ◌&&◌, ◌||◌, List, [], ◌∷◌, All, sym, subst, eq_iff, is_some,
  is_none, ◌≡◌, refl, arith, str_eq, ◌==◌, ok_or, count_if,
}
use document_studio.Contracts.JobState.{JobState, verifying, completed}
use document_studio.Contracts.CompletionReason.{JobCompletionReason}
use document_studio.JobEngine.{can_transition, state_eq}
use document_studio.JobStore.Tables.{job_conflict, metadata_i64, Database, JobRow}
use document_studio.JobStore.Sql.{query_row}
use document_studio.JobStore.Evidence.{
  count_outputs, count_outcomes, count_errors, is_fully_published,
}
use document_studio.JobStore.Changes.{
  complete_no_benefit, complete_published_from_state, completed_row, validate_completion_timestamp,
}
use document_studio.JobStore.Rows.{
  HasNothing, Follows, Moves, Moves-update, Moves-refuse_if, Moves->>=, same_state,
}
use document_studio.JobStore.Lifecycle.{edge_Follows, one_changed-Moves}

none_counted {ℓ} :
    {A : Type ℓ} (p : A → Bool) (xs : List A) → count_if p xs ≡ 0 → All (λ x. p x ≡ false) xs
none_counted p [] h = tt
none_counted p (x ∷ xs) h = (ground (arith, h), none_counted p xs (ground (arith, h)))

counted-HasNothing :
    (id : String) (db : Database)
    → count_outputs id db.job_outputs ≡ 0
    → count_errors id db.job_errors ≡ 0
    → HasNothing id db
unfolding count_outputs count_errors
counted-HasNothing id db outputs errors =
    (none_counted _ db.job_outputs outputs, none_counted _ db.job_errors errors)

-- The end of a job that verified a result and kept none.
no_benefit_Follows :
    (db : Database) (id : String) (j : JobRow) (timestamp : String)
    → str_eq j.id id ≡ true
    → state_eq j.state verifying ≡ true
    → is_none j.cancellation_requested_at ≡ true
    → HasNothing id db
    → Follows db j (completed_row timestamp j)
no_benefit_Follows db id j timestamp same at_verifying free nothing = record {
  same_id = refl;
  legal = ground (arith, at_verifying, same_state completed);
  version_grows = omega arith;
  version_moves = λ h. refl;
  cancellation_stays = λ h. refl;
  no_completion_of_cancelled = λ h h'. free;
  no_completion_with_an_output =
      λ h h'. subst (λ i. HasNothing i db) (sym ((eq_iff j.id id).0 same)) nothing;
}

module _ (parse_from_rfc3339 : String → Bool) where
  pub complete_no_benefit-Moves :
      (id : String) (version : ℕ) (reason : JobCompletionReason) (timestamp : String)
      (db : Database)
      → Moves db (λ p. p.0) (complete_no_benefit parse_from_rfc3339 id version reason timestamp db)
  unfolding complete_no_benefit
  complete_no_benefit-Moves id version reason timestamp db =
      Moves->>= db (λ p. p.0) (validate_completion_timestamp parse_from_rfc3339 timestamp) _
        (λ _ _.
          Moves->>= db (λ p. p.0) (metadata_i64 version "job version") _
            (λ v _.
              Moves->>= db (λ p. p.0) (ok_or (query_row (λ j. str_eq j.id id) db.jobs) job_conflict)
                _
                (λ header _.
                  Moves-refuse_if db (λ p. p.0)
                    (not (state_eq header.state verifying)
                      || (not (header.version == version)
                          || is_some header.cancellation_requested_at))
                    _ _
                    (λ _.
                      Moves-refuse_if db (λ p. p.0) (is_some header.resolved_output_name) _ _
                        (λ _.
                          Moves-refuse_if db (λ p. p.0)
                            (not (count_outputs id db.job_outputs == 0)
                              || not (count_errors id db.job_errors == 0))
                            _ _
                            (λ empty.
                              Moves-refuse_if db (λ p. p.0)
                                (not (count_outcomes id db.job_completion_outcomes == 0)) _ _
                                (λ _.
                                  Moves-update db (λ p. p.0) _ _ _ _
                                    (λ j hit.
                                      no_benefit_Follows db id j timestamp (ground (arith, hit))
                                        (ground (arith, hit)) (ground (arith, hit))
                                        (counted-HasNothing id db (ground (arith, empty))
                                          (ground (arith, empty))))
                                    (λ u related.
                                      one_changed-Moves db _ (not (u.1 == 1)) _ _ related))))))))

  pub complete_published_from_state-Moves :
      (id : String) (expected : JobState) (version : ℕ) (timestamp : String) (db : Database)
      → can_transition expected completed ≡ true
      → Moves db
          (λ p. p.0)
          (complete_published_from_state parse_from_rfc3339 id expected version timestamp db)
  unfolding complete_published_from_state
  complete_published_from_state-Moves id expected version timestamp db edge =
      Moves->>= db (λ p. p.0) (validate_completion_timestamp parse_from_rfc3339 timestamp) _
        (λ _ _.
          Moves->>= db (λ p. p.0) (metadata_i64 version "job version") _
            (λ v _.
              Moves->>= db (λ p. p.0) (ok_or (query_row (λ j. str_eq j.id id) db.jobs) job_conflict)
                _
                (λ header _.
                  Moves-refuse_if db (λ p. p.0)
                    (not (state_eq header.state expected)
                      || (not (header.version == version)
                          || is_some header.cancellation_requested_at))
                    _ _
                    (λ _.
                      Moves-refuse_if db (λ p. p.0) (is_none header.resolved_output_name) _ _
                        (λ _.
                          Moves-refuse_if db (λ p. p.0)
                            ((count_outputs id db.job_outputs == 0)
                              || not (
                                  count_if (λ o. str_eq o.job_id id && is_fully_published o.output)
                                    db.job_outputs
                                  == count_outputs id db.job_outputs))
                            _ _
                            (λ _.
                              Moves-refuse_if db (λ p. p.0)
                                (not (count_outcomes id db.job_completion_outcomes == 0)) _ _
                                (λ _.
                                  Moves-update db (λ p. p.0) _ _ _ _
                                    (λ j hit.
                                      edge_Follows j _ expected completed refl refl refl refl
                                        (ground (arith, hit)) edge)
                                    (λ u related.
                                      one_changed-Moves db _ (not (u.1 == 1)) _ _ related))))))))
