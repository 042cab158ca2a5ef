-- ===== src/Cancellation/Tests.antt =====
-- Two interleavings of app_state.rs, and the theorems of this component at them.
use document_studio.Base.{false, List, [], ◌∷◌, none, some, All, ◌≡◌, refl, arith}
use document_studio.Cancellation.{
  Registry, requested, not_running, Op, registers, requests, unregisters, commits, polls,
  request_answered, commit_answered, poll_answered, new_registry, register, unregister,
  request_cancellation, is_cancelled, try_begin_publication_commit, step, run, get, insert,
}
use document_studio.Cancellation.Race.{Verdict, Agrees, content_of, race_one_verdict}
use document_studio.Cancellation.Lookup.{request_reaches_registered}

-- A registry in which one job has a token.
abbrev one_job : Registry
unfolding new_registry register insert
one_job = (register new_registry "job").0

abbrev cancel_first : List Op
cancel_first = polls 0 ∷ requests "job" ∷ commits 0 ∷ requests "job" ∷ []

cancel_first_events :
    (run one_job cancel_first).1
    ≡ poll_answered 0 false
      ∷ request_answered (some 0) requested
      ∷ commit_answered 0 false
      ∷ request_answered (some 0) requested
      ∷ []
unfolding run step get one_job request_cancellation is_cancelled try_begin_publication_commit
cancel_first_events = refl

race_one_verdict_example :
    (w : Verdict) × ((run one_job cancel_first).0.cell 0 ≡ content_of w)
    × All (Agrees 0 w) (run one_job cancel_first).1
unfolding one_job
race_one_verdict_example = race_one_verdict 0 one_job cancel_first refl (omega arith)

abbrev others : List Op
others = registers "other" ∷ requests "job" ∷ unregisters "other" ∷ commits 0 ∷ []

-- The job is registered a second time, which gives it the token 1.
request_reaches_registered_example :
    let r2 = (run (register one_job "job").0 others).0 in
    let r3 = (run (unregister one_job "job") others).0 in
    ((step r2 (requests "job")).1 ≡ request_answered (some 1) (request_cancellation (r2.cell 1)).1)
    × (step r3 (requests "job") ≡ (r3, request_answered none not_running))
unfolding one_job register
request_reaches_registered_example =
    request_reaches_registered one_job "job" others (refl, (refl, (refl, (refl, tt))))
