-- ===== src/JobStore/Completion.antt =====
-- What an accepted cancellation means for the calls after it.
use document_studio.Base.{
  ℕ, ◌+◌, String, Bool, true, false, ◌&&◌, List, [], ◌∷◌, some, is_some, is_none, All, ◌≡◌, refl,
  ◌∙◌, ap, sym, subst, inl, inr, arith, str_eq, eq_iff, ◌==◌, ==_iff, >>=-eq-ok, ok, is_ok,
  Bool-cases,
}
use document_studio.Contracts.JobState.{JobState, publishing}
use document_studio.Contracts.CompletionReason.{JobCompletionReason}
use document_studio.JobEngine.{is_cancellable}
use document_studio.JobStore.Tables.{JobRow, Database, job_row_is_valid}
use document_studio.JobStore.Sql.{update}
use document_studio.JobStore.Changes.{
  complete_no_benefit, complete_published_from_state, complete_published,
  complete_recovered_published, request_cancellation,
}
use document_studio.JobStore.Steps.{Call, run}
use document_studio.JobStore.Rows.{update-cons}
use document_studio.Base.{ok-injective}
use document_studio.JobStore.Refusal.{
  IsKeyed, IsCancelled, nothing_selected, IsCancelled-Evolves, complete_no_benefit-Fails,
  complete_published_from_state-Fails,
}
use document_studio.JobStore.Evidence.{count_outcomes}
use document_studio.JobStore.Outcomes.{run-outcomes, complete_recovered_published-Fails}
use document_studio.JobStore.History.{run-Evolves}

not_of_job :
    (id : String) (j : JobRow) (js : List JobRow)
    → str_eq j.id id ≡ true
    → All (λ k. str_eq k.id j.id ≡ false) js
    → All (λ k. str_eq k.id id ≡ false) js
not_of_job id j js same others =
    subst (λ i. All (λ k. str_eq k.id i ≡ false) js) ((eq_iff j.id id).0 same) others

others_are-IsCancelled :
    (id : String) (js : List JobRow) → All (λ k. str_eq k.id id ≡ false) js → IsCancelled id js
others_are-IsCancelled id [] o = tt
others_are-IsCancelled id (k ∷ ks) o = (λ h. absurd (cc (h, o.0)), others_are-IsCancelled id ks o.1)

unselected :
    (id : String) (also : JobRow → Bool) (js : List JobRow)
    → All (λ k. str_eq k.id id ≡ false) js
    → All (λ k. (str_eq k.id id && also k) ≡ false) js
unselected id also [] o = tt
unselected id also (k ∷ ks) o = (rw o.0 refl, unselected id also ks o.1)

-- A request that is accepted leaves the job's only row with a request.
accepted_IsCancelled :
    (id : String) (is_valid also : JobRow → Bool) (set : JobRow → JobRow) (rows : List JobRow)
    → IsKeyed rows
    → ((j : JobRow) → is_some (set j).cancellation_requested_at ≡ true)
    → (u : List JobRow × ℕ) → update is_valid (λ j. str_eq j.id id && also j) set rows ≡ ok u
    → u.1 ≡ 1
    → IsCancelled id u.0
accepted_IsCancelled id is_valid also set [] keyed asks u h one =
    let nothing : u.1 ≡ 0 = unfold update in ground (arith, h) in
    absurd (omega (arith, one, nothing))
accepted_IsCancelled id is_valid also set (j ∷ js) keyed asks u h one =
    let (rest, e, moved, counted) = update-cons is_valid _ set j js u h in
    subst (IsCancelled id) (sym moved) (elim (Bool-cases (str_eq j.id id)) [
      | inl same ↦
          let others = not_of_job id j js same keyed.0 in
          let kept = nothing_selected is_valid _ set js (unselected id also js others) in
          let rest_rows : rest.0 ≡ js = ground (arith, e, kept) in
          let rest_count : rest.1 ≡ 0 = ground (arith, e, kept) in
          elim (Bool-cases (also j)) [
            | inl hit ↦ rw (same, hit, rest_rows) (λ _. asks j, others_are-IsCancelled id js others)
            | inr miss ↦ absurd (ground (arith, same, miss, one, counted, rest_count))
          ]
      | inr other ↦
          let rest_one : rest.1 ≡ 1 = ground (arith, other, one, counted) in
          rw other (
            λ g. absurd (cc (g, other)),
            accepted_IsCancelled id is_valid also set js keyed.1 asks rest e rest_one,
          )
    ])

-- What `request_cancellation` answers with `true`.
request_cancellation-IsCancelled :
    (now id : String) (db new : Database)
    → IsKeyed db.jobs
    → request_cancellation now id db ≡ ok (new, true)
    → IsCancelled id new.jobs
unfolding request_cancellation
request_cancellation-IsCancelled now id db new keyed h =
    let also : JobRow → Bool = λ j. is_cancellable j.state && is_none j.cancellation_requested_at in
    let set : JobRow → JobRow = λ j. record j {
      cancellation_requested_at = some now;
      updated_at = now;
      version = j.version + 1;
    } in
    let (u, e, g) =
      >>=-eq-ok (update job_row_is_valid (λ j. str_eq j.id id && also j) set db.jobs) _ h in
    let pair : ◌≡◌ {A = Database × Bool} (record db { jobs = u.0 }, u.1 == 1) (new, true) =
      ok-injective g in
    let one : u.1 ≡ 1 = (==_iff u.1 1).0 (ap (λ p. p.1) pair) in
    let rows : u.0 ≡ new.jobs = ap (λ p. p.0.jobs) pair in
    subst (IsCancelled id) rows
      (accepted_IsCancelled id job_row_is_valid also set db.jobs keyed (λ j. refl) u e one)

request_cancellation-outcomes :
    (now id : String) (db new : Database)
    → request_cancellation now id db ≡ ok (new, true)
    → count_outcomes id new.job_completion_outcomes ≡ count_outcomes id db.job_completion_outcomes
unfolding request_cancellation
request_cancellation-outcomes now id db new h = ground (arith, h)

module _ (parse_from_rfc3339 : String → Bool) where
  -- No completion outcome is recorded for a job after its cancellation was accepted: when ids are
  -- unique and `request_cancellation` has answered `true` for a job, then after any further calls,
  -- in any order and whichever of them fail, the job has as many outcomes as before the request, and
  -- `complete_no_benefit`, `complete_published`, `complete_recovered_published` and the completion
  -- from any other expected state all fail for it. Of `transition_job` only this is stated, that it
  -- records no outcome.
  pub no_outcome_after_cancellation :
      (now id : String) (db new : Database)
      → IsKeyed db.jobs
      → request_cancellation now id db ≡ ok (new, true)
      → (calls : List (String × Call)) (version : ℕ) (reason : JobCompletionReason)
        (expected : JobState) (timestamp : String)
      → let later = run parse_from_rfc3339 calls new in
        (count_outcomes id later.job_completion_outcomes
          ≡ count_outcomes id db.job_completion_outcomes)
        × (is_ok (complete_no_benefit parse_from_rfc3339 id version reason timestamp later) ≡ false)
        × (is_ok (complete_published parse_from_rfc3339 id version timestamp later) ≡ false)
        × (is_ok
              (complete_recovered_published parse_from_rfc3339 timestamp id expected version later)
            ≡ false)
        × (is_ok
              (complete_published_from_state parse_from_rfc3339 id expected version timestamp later)
            ≡ false)
  no_outcome_after_cancellation now id db new keyed h calls version reason expected timestamp =
      let later = run parse_from_rfc3339 calls new in
      let first = request_cancellation-IsCancelled now id db new keyed h in
      let asked =
        IsCancelled-Evolves id new.jobs later.jobs (run-Evolves parse_from_rfc3339 calls new)
          first in
      (
        run-outcomes parse_from_rfc3339 id calls new first
            ∙ request_cancellation-outcomes now id db new h,
        complete_no_benefit-Fails parse_from_rfc3339 id version reason timestamp later asked,
        unfold complete_published in
            complete_published_from_state-Fails parse_from_rfc3339 id publishing version timestamp
              later asked,
        complete_recovered_published-Fails parse_from_rfc3339 timestamp id expected version later
            asked,
        complete_published_from_state-Fails parse_from_rfc3339 id expected version timestamp later
            asked,
      )
