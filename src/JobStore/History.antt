-- ===== src/JobStore/History.antt =====
-- What any sequence of calls does to the jobs of the tables.
use document_studio.Base.{
  ℕ, ◌≤◌, String, Bool, true, false, not, ◌||◌, List, [], ◌∷◌, is_some, ◌≡◌, refl, sym, ◌∙◌, inl,
  inr, arith, ok, Result-cases, Bool-cases,
}
use document_studio.Contracts.JobState.{
  JobState, queued, inspecting, preflight, ready, running, verifying, publishing, completed, failed,
  cancelled, interrupted, is_terminal,
}
use document_studio.JobEngine.{can_transition, state_eq}
use document_studio.JobStore.Tables.{Database, JobRow}
use document_studio.JobStore.Changes.{complete_published, complete_recovered_published}
use document_studio.JobStore.Steps
use document_studio.JobStore.Steps.{Call, call, run, committed, tables}
use document_studio.JobStore.Rows.{
  is_legal, Follows, Related, Related-refl, Moves, Moves-refuse_if, Moves-ok, Moves-tables,
}
use document_studio.JobStore.Lifecycle.{
  same_states, request_cancellation-Moves, update_progress-Moves, transition_job-Moves,
}
use document_studio.JobStore.Lifecycle.Completions.{
  complete_no_benefit-Moves, complete_published_from_state-Moves,
}
use document_studio.JobStore.Balanced.Moves.{register_verified_balanced_output-Moves}
use document_studio.JobStore.Intents.{
  set_output_staging_at-Moves, reserve_publication_attempt_at-Moves, clear_owned_partial_at-Moves,
  clear_staging_path_at-Moves, clear_unpublished_intent_at-Moves, set_publication_intent_at-Moves,
  begin_publication_at-Moves, set_output_published_at-Moves, activate_owned_partial_at-Moves,
  record_recovery_result_once-jobs, mark_interrupted-Moves,
}

completing :
    (s : JobState)
    → (state_eq s publishing || state_eq s interrupted) ≡ true
    → can_transition s completed ≡ true
unfolding can_transition state_eq
completing queued h = cc
completing inspecting h = cc
completing preflight h = cc
completing ready h = cc
completing running h = cc
completing verifying h = cc
completing publishing h = refl
completing completed h = cc
completing failed h = cc
completing cancelled h = cc
completing interrupted h = refl

module _ (parse_from_rfc3339 : String → Bool) where
  complete_published-Moves :
      (id : String) (version : ℕ) (timestamp : String) (db : Database)
      → Moves db (λ p. p.0) (complete_published parse_from_rfc3339 id version timestamp db)
  unfolding complete_published
  complete_published-Moves id version timestamp db =
      complete_published_from_state-Moves parse_from_rfc3339 id publishing version timestamp db
        (completing publishing (unfold state_eq in refl))

  complete_recovered_published-Moves :
      (now id : String) (expected : JobState) (version : ℕ) (db : Database)
      → Moves db
          (λ p. p.0)
          (complete_recovered_published parse_from_rfc3339 now id expected version db)
  unfolding complete_recovered_published
  complete_recovered_published-Moves now id expected version db =
      Moves-refuse_if db (λ p. p.0)
        (not (state_eq expected publishing || state_eq expected interrupted)) _ _
        (λ h.
          complete_published_from_state-Moves parse_from_rfc3339 id expected version now db
            (completing expected (ground (arith, h))))

  call-Moves :
      (now : String) (c : Call) (db : Database)
      → Moves {A = Database} db (λ d. d) (call parse_from_rfc3339 now c db)
  unfolding call
  call-Moves now (Steps.transition id expected version next stage) db =
      Moves-tables db _ (transition_job-Moves now id expected version next stage db)
  call-Moves now (Steps.no_benefit id version reason timestamp) db =
      Moves-tables db _
        (complete_no_benefit-Moves parse_from_rfc3339 id version reason timestamp db)
  call-Moves now (Steps.published id version timestamp) db =
      Moves-tables db _ (complete_published-Moves id version timestamp db)
  call-Moves now (Steps.recovered id expected version) db =
      Moves-tables db _ (complete_recovered_published-Moves now id expected version db)
  call-Moves now (Steps.cancel id) db = Moves-tables db _ (request_cancellation-Moves now id db)
  call-Moves now (Steps.progress id expected stage done total unit) db =
      Moves-tables db _ (update_progress-Moves now id expected stage done total unit db)
  call-Moves now (Steps.stage_output id ordinal path size sha256 verified_at) db =
      set_output_staging_at-Moves id ordinal path size sha256 verified_at db
  call-Moves now (Steps.reserve id ordinal name final_path partial_path size sha256) db =
      reserve_publication_attempt_at-Moves now id ordinal name final_path partial_path size sha256
        db
  call-Moves now (Steps.clear_partial id ordinal path) db =
      clear_owned_partial_at-Moves id ordinal path db
  call-Moves now (Steps.activate id ordinal path code) db =
      activate_owned_partial_at-Moves now id ordinal path code db
  call-Moves now (Steps.clear_staging id ordinal path) db =
      clear_staging_path_at-Moves id ordinal path db
  call-Moves now (Steps.clear_intent id ordinal) db =
      clear_unpublished_intent_at-Moves now id ordinal db
  call-Moves now (Steps.intend id ordinal name final_path size sha256) db =
      set_publication_intent_at-Moves now id ordinal name final_path size sha256 db
  call-Moves now (Steps.begin id ordinal name final_path size sha256) db =
      begin_publication_at-Moves now id ordinal name final_path size sha256 db
  call-Moves now (Steps.publish_output id ordinal name final_path size sha256 path) db =
      set_output_published_at-Moves now id ordinal name final_path size sha256 path db
  call-Moves now (Steps.register id version output) db =
      Moves-tables db _ (register_verified_balanced_output-Moves now id version output db)
  call-Moves now (Steps.interrupt id expected) db = mark_interrupted-Moves now id expected db
  call-Moves now (Steps.record_recovery id code) db =
      Moves-ok db (λ d. d) _ (record_recovery_result_once-jobs now id code db)

  -- When a call (one of those of `Call`) succeeds, no job is added or removed, and the row of every
  -- job keeps its id, keeps its state or moves along an edge of the lifecycle or from `verifying` to
  -- `completed`, never goes back in its version, adds exactly 1 to it when the state changes, and
  -- keeps a cancellation that was asked for. A job that changes its state without an edge had no
  -- cancellation asked for, no output and no error.
  pub call-Follows :
      (now : String) (c : Call) (db new : Database)
      → call parse_from_rfc3339 now c db ≡ ok new
      → Related (Follows db) db.jobs new.jobs
  call-Follows now c db new h = call-Moves now c db new h

-- What is left of a change when other changes come after it.
pub record Evolves (old new : JobRow) : Type 0 where
  pub same_id : new.id ≡ old.id
  pub version_grows : old.version ≤ new.version
  pub stays_ended : is_terminal old.state ≡ true → new.state ≡ old.state
  pub stays_cancelled :
      is_some old.cancellation_requested_at ≡ true
      → new.cancellation_requested_at ≡ old.cancellation_requested_at

no_edge : (a b : JobState) → is_terminal a ≡ true → can_transition a b ≡ false
unfolding is_terminal can_transition
no_edge completed b h = refl
no_edge failed b h = refl
no_edge cancelled b h = refl
no_edge queued b h = cc
no_edge inspecting b h = cc
no_edge preflight b h = cc
no_edge ready b h = cc
no_edge running b h = cc
no_edge verifying b h = cc
no_edge publishing b h = cc
no_edge interrupted b h = cc

verifying_goes_on : is_terminal verifying ≡ false
unfolding is_terminal
verifying_goes_on = refl

still_verifying : (a : JobState) → is_terminal a ≡ true → state_eq a verifying ≡ false
still_verifying a h = elim (Bool-cases (state_eq a verifying)) [
  | inl hit ↦
      let same : a ≡ verifying = same_states a verifying hit in
      absurd (cc (h, same, verifying_goes_on))
  | inr miss ↦ miss
]

no_way_out : (a b : JobState) → is_legal a b ≡ true → is_terminal a ≡ true → b ≡ a
no_way_out a b h t =
    let stays : state_eq a b ≡ true = ground (arith, h, no_edge a b t, still_verifying a t) in
    sym (same_states a b stays)

Evolves-refl : (j : JobRow) → Evolves j j
Evolves-refl j = record {
  same_id = refl;
  version_grows = omega arith;
  stays_ended = λ h. refl;
  stays_cancelled = λ h. refl;
}

Follows-Evolves : {db : Database} (a b c : JobRow) → Follows db a b → Evolves b c → Evolves a c
Follows-Evolves a b c f e = record {
  same_id = e.same_id ∙ f.same_id;
  version_grows = omega (arith, f.version_grows, e.version_grows);
  stays_ended = λ h.
      let here : b.state ≡ a.state = no_way_out a.state b.state f.legal h in
      e.stays_ended (rw here h) ∙ here;
  stays_cancelled = λ h.
      let here : b.cancellation_requested_at ≡ a.cancellation_requested_at =
        f.cancellation_stays h in
      e.stays_cancelled (rw here h) ∙ here;
}

Related-trans :
    (db : Database) (js ks ls : List JobRow)
    → Related (Follows db) js ks
    → Related Evolves ks ls
    → Related Evolves js ls
Related-trans db [] [] [] f e = tt
Related-trans db (a ∷ js) (b ∷ ks) (c ∷ ls) f e =
    (Follows-Evolves a b c f.0 e.0, Related-trans db js ks ls f.1 e.1)
Related-trans db [] [] (c ∷ ls) f e = absurd e
Related-trans db [] (b ∷ ks) ls f e = absurd f
Related-trans db (a ∷ js) [] ls f e = absurd f
Related-trans db (a ∷ js) (b ∷ ks) [] f e = absurd e

module _ (parse_from_rfc3339 : String → Bool) where
  pub call-Evolves :
      (now : String) (c : Call) (db new : Database)
      → call parse_from_rfc3339 now c db ≡ ok new
      → Related Evolves db.jobs new.jobs
  call-Evolves now c db new h =
      Related-trans db db.jobs new.jobs new.jobs (call-Follows parse_from_rfc3339 now c db new h)
        (Related-refl Evolves Evolves-refl new.jobs)

  -- However calls follow each other and whichever of them fail, no job is lost, a job that has
  -- ended keeps its state for good, no version goes back and no cancellation is taken back.
  pub run-Evolves :
      (calls : List (String × Call)) (db : Database)
      → Related Evolves db.jobs (run parse_from_rfc3339 calls db).jobs
  unfolding run
  run-Evolves [] db = Related-refl Evolves Evolves-refl db.jobs
  run-Evolves ((now, c) ∷ calls) db = elim (Result-cases (call parse_from_rfc3339 now c db)) [
    | inl (new, e) ↦
        rw (e, run)
          (Related-trans db db.jobs new.jobs _ (call-Follows parse_from_rfc3339 now c db new e)
            (run-Evolves calls new))
    | inr (x, e) ↦ rw (e, run) (run-Evolves calls db)
  ]
