-- ===== src/JobStore/Refusal.antt =====
-- A job with a request to cancel it is not completed with an outcome.
use document_studio.Base.{
  ℕ, String, Bool, true, false, not, ◌&&◌, ◌||◌, List, [], ◌∷◌, is_some, is_none, All, ◌≡◌, refl,
  subst, inl, inr, arith, str_eq, ◌==◌, Result, ok, err, ◌>>=◌, ◌>>◌, refuse_if, ok_or, is_ok,
  count_if, Bool-cases,
}
use document_studio.Contracts.JobState.{JobState, verifying}
use document_studio.Contracts.CompletionReason.{JobCompletionReason}
use document_studio.JobEngine.{state_eq}
use document_studio.JobStore.Tables.{DatabaseError, job_conflict, JobRow, Database, metadata_i64}
use document_studio.JobStore.Sql.{update, query_row}
use document_studio.JobStore.Evidence.{
  count_outputs, count_outcomes, count_errors, is_fully_published,
}
use document_studio.JobStore.Changes.{
  complete_no_benefit, complete_published_from_state, validate_completion_timestamp,
}
use document_studio.JobStore.Rows.{Related}
use document_studio.JobStore.History.{Evolves}

-- `jobs.id` is a primary key.
abbrev pub IsKeyed : List JobRow → Type 0
IsKeyed [] = Unit {0}
IsKeyed (j ∷ js) = All (λ k. str_eq k.id j.id ≡ false) js × IsKeyed js

-- Every row of the job has a request to cancel it.
abbrev pub IsCancelled : String → List JobRow → Type 0
IsCancelled id = All (λ j. str_eq j.id id ≡ true → is_some j.cancellation_requested_at ≡ true)

-- A statement about rows that an update does not select.
pub nothing_selected :
    (is_valid where_clause : JobRow → Bool) (set : JobRow → JobRow) (rows : List JobRow)
    → All (λ j. where_clause j ≡ false) rows
    → update is_valid where_clause set rows ≡ ok (rows, 0)
unfolding update
nothing_selected is_valid where_clause set [] h = refl
nothing_selected is_valid where_clause set (j ∷ js) h =
    rw (nothing_selected is_valid where_clause set js h.1, h.0) refl

pub IsCancelled-Evolves :
    (id : String) (old new : List JobRow)
    → Related Evolves old new
    → IsCancelled id old
    → IsCancelled id new
IsCancelled-Evolves id [] [] e c = tt
IsCancelled-Evolves id (j ∷ js) (k ∷ ks) e c = (
  λ h.
      let asked : is_some j.cancellation_requested_at ≡ true =
        c.0 (subst (λ i. str_eq i id ≡ true) e.0.same_id h) in
      rw (e.0.stays_cancelled asked) asked,
  IsCancelled-Evolves id js ks e.1 c.1,
)
IsCancelled-Evolves id [] (k ∷ ks) e c = absurd e
IsCancelled-Evolves id (j ∷ js) [] e c = absurd e

-- A condition that asks for a row of the job without a request to cancel it.
abbrev WantsFree : String → (JobRow → Bool) → Type 0
WantsFree id where_clause =
    (j : JobRow)
    → where_clause j ≡ true
    → (str_eq j.id id ≡ true) × (is_none j.cancellation_requested_at ≡ true)

none_is_free :
    (id : String) (where_clause : JobRow → Bool) (rows : List JobRow)
    → WantsFree id where_clause
    → IsCancelled id rows
    → All (λ j. where_clause j ≡ false) rows
none_is_free id where_clause [] w c = tt
none_is_free id where_clause (j ∷ js) w c = (
  elim (Bool-cases (where_clause j)) [
    | inl hit ↦ let (same, free) = w j hit in absurd (ground (arith, c.0 same, free))
    | inr miss ↦ miss
  ],
  none_is_free id where_clause js w c.1,
)

abbrev pub Fails : {A : Type 0} → Result DatabaseError A → Type 0
Fails r = is_ok r ≡ false

pub Fails-refuse_if :
    {A : Type 0} (refused : Bool) (e : DatabaseError) (r : Result DatabaseError A)
    → (refused ≡ false → Fails r)
    → Fails (refuse_if refused e >> r)
Fails-refuse_if false e r f = f refl
Fails-refuse_if true e r f = refl

Fails->>= :
    {A B : Type 0} (r : Result DatabaseError A) (f : A → Result DatabaseError B)
    → ((a : A) → Fails (f a))
    → Fails (r >>= f)
Fails->>= (ok a) f h = h a
Fails->>= (err e) f h = refl

-- An update that needs a free row fails, since its count is 0.
Fails-update :
    {B : Type 0} (id : String) (rows : List JobRow) (is_valid where_clause : JobRow → Bool)
    (set : JobRow → JobRow) (f : List JobRow × ℕ → Result DatabaseError B)
    → IsCancelled id rows
    → WantsFree id where_clause
    → Fails (f (rows, 0))
    → Fails (update is_valid where_clause set rows >>= f)
Fails-update id rows is_valid where_clause set f c w h =
    rw (nothing_selected is_valid where_clause set rows (none_is_free id where_clause rows w c)) h

module _ (parse_from_rfc3339 : String → Bool) where
  pub complete_no_benefit-Fails :
      (id : String) (version : ℕ) (reason : JobCompletionReason) (timestamp : String)
      (db : Database)
      → IsCancelled id db.jobs
      → Fails (complete_no_benefit parse_from_rfc3339 id version reason timestamp db)
  unfolding complete_no_benefit
  complete_no_benefit-Fails id version reason timestamp db c =
      Fails->>= (validate_completion_timestamp parse_from_rfc3339 timestamp) _ (λ _.
        Fails->>= (metadata_i64 version "job version") _ (λ v.
          Fails->>= (ok_or (query_row (λ j. str_eq j.id id) db.jobs) job_conflict) _ (λ header.
            Fails-refuse_if
              (not (state_eq header.state verifying)
                || (not (header.version == version) || is_some header.cancellation_requested_at))
              _ _
              (λ _. Fails-refuse_if (is_some header.resolved_output_name) _ _ (λ _.
                Fails-refuse_if
                  (not (count_outputs id db.job_outputs == 0)
                    || not (count_errors id db.job_errors == 0))
                  _ _
                  (λ _.
                    Fails-refuse_if (not (count_outcomes id db.job_completion_outcomes == 0)) _ _
                      (λ _.
                        Fails-update id db.jobs _ _ _ _ c
                          (λ j hit. (ground (arith, hit), ground (arith, hit))) refl)))))))

  pub complete_published_from_state-Fails :
      (id : String) (expected : JobState) (version : ℕ) (timestamp : String) (db : Database)
      → IsCancelled id db.jobs
      → Fails (complete_published_from_state parse_from_rfc3339 id expected version timestamp db)
  unfolding complete_published_from_state
  complete_published_from_state-Fails id expected version timestamp db c =
      Fails->>= (validate_completion_timestamp parse_from_rfc3339 timestamp) _ (λ _.
        Fails->>= (metadata_i64 version "job version") _ (λ v.
          Fails->>= (ok_or (query_row (λ j. str_eq j.id id) db.jobs) job_conflict) _ (λ header.
            Fails-refuse_if
              (not (state_eq header.state expected)
                || (not (header.version == version) || is_some header.cancellation_requested_at))
              _ _
              (λ _. Fails-refuse_if (is_none header.resolved_output_name) _ _ (λ _.
                Fails-refuse_if
                  ((count_outputs id db.job_outputs == 0)
                    || not (
                        count_if (λ o. str_eq o.job_id id && is_fully_published o.output)
                          db.job_outputs
                        == count_outputs id db.job_outputs))
                  _ _
                  (λ _.
                    Fails-refuse_if (not (count_outcomes id db.job_completion_outcomes == 0)) _ _
                      (λ _.
                        Fails-update id db.jobs _ _ _ _ c
                          (λ j hit. (ground (arith, hit), ground (arith, hit))) refl)))))))
