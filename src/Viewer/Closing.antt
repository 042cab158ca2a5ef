-- ===== src/Viewer/Closing.antt =====
-- A session of viewer_sessions.rs that is closed stays closed.
use document_studio.Base.{
  ℕ, ◌+◌, ◌^◌, ◌≤◌, ◌<◌, String, false, ◌==◌, ==_iff, List, [], ◌∷◌, length, All-map, All-both,
  str_eq, Option, none, some, Option-cases, ◌⊎◌, inl, inr, Result, ok, err, arith, ◌≡◌, ◌≢◌, refl,
}
use document_studio.Base.Maps.{find_key, remove_key, remove_key-All, find_key-All}
use document_studio.Contracts.Errors.{OperationError}
use document_studio.Viewer.Errors.{session_expired}
use document_studio.Viewer.Sessions.{
  ViewerSession, ViewerSessionManager, deactivate, remove_session, drop_expired, of_generation,
  find_session, contains_generation, get, close,
}
use document_studio.Viewer.Calls.{Call, perform, run}
use document_studio.Viewer.Limits.{
  IsEntry, Keeps, deactivate-Keeps, remove_session-Keeps, drop_expired-Keeps,
}
use document_studio.Viewer.Generations.{perform-IsNext, run-Keeps, new_manager, IsSound}

-- Under the identifier, no session has the generation.
abbrev IsGone : String → ℕ → String → ℕ → Type 0
IsGone id generation key g = (str_eq key id ≡ false) ⊎ (g ≢ generation)

not_found :
    (m : ViewerSessionManager) (id : String) (generation : ℕ)
    → Keeps (IsGone id generation) m
    → find_session m id generation ≡ none
unfolding find_session of_generation
not_found m id generation kept = elim (Option-cases (find_key id m.sessions)) [
  | inl e ↦ rw (e, find_session) refl
  | inr (address, e) ↦
      let (k, same, entry) =
        find_key-All (IsEntry (IsGone id generation) m) id m.sessions address (kept.1) e in
      let other : ((m.cell address).generation == generation) ≡ false =
        ground (arith, same, entry.2, ==_iff (m.cell address).generation generation) in
      rw (e, find_session) (rw other refl)
]

found_below :
    (m : ViewerSessionManager) (id : String) (generation address : ℕ)
    → IsSound m
    → find_session m id generation ≡ some address
    → generation < m.next_generation
unfolding find_session of_generation
found_below m id generation address sound found = elim (Option-cases (find_key id m.sessions)) [
  | inl e ↦
      let never : ◌≡◌ {A = Option ℕ} none (some address) = rw (e, find_session) at found in
      cc (never)
  | inr (a, e) ↦
      let (k, same, entry) = find_key-All (IsEntry (λ id g. Unit) m) id m.sessions a (sound.1) e in
      let picked : of_generation m generation (some a) ≡ some address = rw e at found in
      ground (arith, picked, entry.1, ==_iff (m.cell a).generation generation)
]

closed-Keeps :
    (m : ViewerSessionManager) (id : String) (generation address : ℕ)
    → IsSound m
    → Keeps (IsGone id generation) (remove_session id (deactivate address m))
unfolding remove_session deactivate
closed-Keeps m id generation address sound =
    let kept =
      remove_session-Keeps (λ id g. Unit) id (deactivate address m)
        (deactivate-Keeps (λ id g. Unit) address m sound) in
    (
      kept.0,
      All-map _ _ (remove_key id m.sessions) (λ entry h. (h.0.0, h.0.1, inl (h.1)))
          (All-both _ _ (remove_key id m.sessions) (kept.1) (remove_key-All id m.sessions)),
    )

find-drop_expired :
    (now : ℕ) (id : String) (found : Option ℕ) (m : ViewerSessionManager) (generation : ℕ)
    → Keeps (IsGone id generation) m
    → find_session (drop_expired now id found m) id generation ≡ none
find-drop_expired now id found m generation kept =
    not_found (drop_expired now id found m) id generation
      (drop_expired-Keeps (IsGone id generation) now id found m kept)

next-run :
    (calls : List Call) (m : ViewerSessionManager)
    → m.next_generation + length calls < 2 ^ 64
    → (run calls m).next_generation ≤ m.next_generation + length calls
unfolding run
next-run [] m room = omega arith
next-run (call ∷ calls) m room =
    let step = perform-IsNext call m in
    let one_more : (perform call m).next_generation ≤ m.next_generation + 1 =
      ground (arith, room, step) in
    omega (arith, one_more, next-run calls (perform call m) (omega (arith, room, one_more)))

gone :
    (m : ViewerSessionManager) (id : String) (generation now : ℕ)
    → Keeps (IsGone id generation) m
    → ((get now id generation m).1 ≡ err session_expired)
      × (contains_generation m id generation ≡ false)
unfolding get contains_generation
gone m id generation now kept = (
  rw (find-drop_expired now id (find_key id m.sessions) m generation kept, get) refl,
  rw (not_found m id generation kept, contains_generation) refl,
)

close-Keeps-IsGone :
    (m : ViewerSessionManager) (id : String) (generation : ℕ) (after : List Call)
    → IsSound m
    → m.next_generation + length after < 2 ^ 64
    → (close id generation m).1 ≡ ok tt
    → Keeps (IsGone id generation) (run after ((close id generation m).0))
unfolding close
close-Keeps-IsGone m id generation after sound room closed =
    elim (Option-cases (find_session m id generation)) [
      | inl e ↦
          let never : ◌≡◌ {A = Result OperationError (Unit {0})} (err session_expired) (ok tt) =
            rw (e, close) at closed in
          cc (never)
      | inr (address, e) ↦
          let below = found_below m id generation address sound e in
          rw (e, close)
            (run-Keeps (IsGone id generation) after (remove_session id (deactivate address m))
              (unfold remove_session deactivate in room)
              (λ key g low. inr (unfold remove_session deactivate in omega (arith, low, below)))
              (closed-Keeps m id generation address sound))
    ]

-- Once a session is closed, it stays closed: on a manager that calls have made from a new one, after
-- a successful `close` and any further calls (fewer than 2 ^ 64 - 1 in all), a request for its
-- identifier and generation fails as expired, at any time, even when the identifier is used again.
pub close_is_final :
    (cell : ℕ → ViewerSession) (before after : List Call) (id : String) (generation now : ℕ)
    → 1 + (length before + length after) < 2 ^ 64
    → (close id generation (run before (new_manager cell))).1 ≡ ok tt
    → ((get now id generation
          (run after ((close id generation (run before (new_manager cell))).0))).1
        ≡ err session_expired)
      × (contains_generation
            (run after ((close id generation (run before (new_manager cell))).0))
            id
            generation
          ≡ false)
close_is_final cell before after id generation now room closed =
    let m = run before (new_manager cell) in
    let sound : IsSound m =
      run-Keeps (λ id g. Unit) before (new_manager cell) (unfold new_manager in omega (arith, room))
        (λ id g low. tt) (unfold new_manager in (omega arith, tt)) in
    let count = next-run before (new_manager cell) (unfold new_manager in omega (arith, room)) in
    let left : m.next_generation + length after < 2 ^ 64 =
      unfold new_manager in omega (arith, count, room) in
    gone (run after ((close id generation m).0)) id generation now
      (close-Keeps-IsGone m id generation after sound left closed)
