-- ===== src/Viewer/Generations.antt =====
-- Generations of the sessions of viewer_sessions.rs are not used twice.
use document_studio.Base.{
  ℕ, ◌+◌, ◌%◌, ◌^◌, ◌≤◌, ◌<◌, String, false, leb, List, [], ◌∷◌, length, All, All-map, Option, none,
  some, Option-cases, Result-cases, Bool-cases, ◌⊎◌, inl, inr, arith, ◌≡◌, refl,
}
use document_studio.Base.Maps.{find_key}
use document_studio.Contracts.Errors.{OperationError}
use document_studio.Viewer.Errors.{pdf_session_limit, txt_session_limit}
use document_studio.Viewer.Sessions.{
  SessionKind, ViewerSession, ViewerSessionManager, is_expired, retain_live, add_session, open_pdf,
  open_txt, deactivate, remove_session, drop_expired, touch, find_session, get, close,
  deactivate_all, close_all, set_drop_enabled, is_verified, open_verified_pdf,
}
use document_studio.Viewer.Checks.{Inspection, Checked, inspect_pdf, inspect_txt}
use document_studio.Viewer.Calls.{
  Call, opens_pdf, opens_txt, opens_verified_pdf, gets, closes, closes_all, sets_drop, perform, run,
}
use document_studio.Viewer.Limits.{Keeps, perform-Keeps}

-- The next generation stays, or is one more, in the arithmetic of `u64`.
abbrev pub IsNext : ViewerSessionManager → ViewerSessionManager → Type 0
IsNext m n =
    (n.next_generation ≡ m.next_generation) ⊎ (n.next_generation ≡ (m.next_generation + 1) % 2 ^ 64)

add_session-IsNext :
    (kind : SessionKind) (limit : OperationError) (now : ℕ) (id : String) (c : Checked)
    (m : ViewerSessionManager)
    → IsNext m ((add_session kind limit now id c m).0)
unfolding add_session retain_live
add_session-IsNext kind limit now id c m =
    elim (Bool-cases (leb 2 (length (retain_live now m).sessions))) [
      | inl e ↦ rw e (inl refl)
      | inr e ↦ rw e (inr refl)
    ]

open_pdf-IsNext :
    (now : ℕ) (id : String) (i : Inspection) (m : ViewerSessionManager)
    → IsNext m ((open_pdf now id i m).0)
unfolding open_pdf
open_pdf-IsNext now id i m = elim (Result-cases (inspect_pdf i)) [
  | inl (c, e) ↦ rw (e, open_pdf) (add_session-IsNext SessionKind.pdf pdf_session_limit now id c m)
  | inr (x, e) ↦ rw (e, open_pdf) (inl refl)
]

open_txt-IsNext :
    (now : ℕ) (id : String) (i : Inspection) (m : ViewerSessionManager)
    → IsNext m ((open_txt now id i m).0)
unfolding open_txt
open_txt-IsNext now id i m = elim (Result-cases (inspect_txt i)) [
  | inl (c, e) ↦ rw (e, open_txt) (add_session-IsNext SessionKind.text txt_session_limit now id c m)
  | inr (x, e) ↦ rw (e, open_txt) (inl refl)
]

next-drop_expired :
    (now : ℕ) (id : String) (found : Option ℕ) (m : ViewerSessionManager)
    → (drop_expired now id found m).next_generation ≡ m.next_generation
unfolding drop_expired deactivate remove_session
next-drop_expired now id none m = refl
next-drop_expired now id (some address) m = elim (Bool-cases (is_expired now (m.cell address))) [
  | inl e ↦ rw e refl
  | inr e ↦ rw e refl
]

next-get :
    (now : ℕ) (id : String) (generation : ℕ) (m : ViewerSessionManager)
    → ((get now id generation m).0).next_generation ≡ m.next_generation
unfolding get touch
next-get now id generation m =
    let after = drop_expired now id (find_key id m.sessions) m in
    let same = next-drop_expired now id (find_key id m.sessions) m in
    elim (Option-cases (find_session after id generation)) [
      | inl e ↦ rw (e, get) same
      | inr (address, e) ↦ rw (e, get) same
    ]

next-close :
    (id : String) (generation : ℕ) (m : ViewerSessionManager)
    → ((close id generation m).0).next_generation ≡ m.next_generation
unfolding close remove_session deactivate
next-close id generation m = elim (Option-cases (find_session m id generation)) [
  | inl e ↦ rw (e, close) refl
  | inr (address, e) ↦ rw (e, close) refl
]

next-deactivate_all :
    (entries : List (String × ℕ)) (m : ViewerSessionManager)
    → (deactivate_all entries m).next_generation ≡ m.next_generation
unfolding deactivate_all deactivate
next-deactivate_all [] m = refl
next-deactivate_all ((id, address) ∷ entries) m = next-deactivate_all entries (deactivate address m)

open_verified_pdf-IsNext :
    (now : ℕ) (id : String) (i : Inspection) (hashed : Option (ℕ × String)) (size : ℕ)
    (sha256 : String) (m : ViewerSessionManager)
    → IsNext m ((open_verified_pdf now id i hashed size sha256 m).0)
unfolding open_verified_pdf
open_verified_pdf-IsNext now id i hashed size sha256 m =
    let opened = open_pdf-IsNext now id i m in
    elim (Result-cases ((open_pdf now id i m).1)) [
      | inr (x, e) ↦ rw (e, open_verified_pdf) opened
      | inl (generation, e) ↦ elim (Bool-cases (is_verified hashed size sha256)) [
        | inl v ↦ rw (e, open_verified_pdf) (rw v opened)
        | inr v ↦
            rw (e, open_verified_pdf)
              (rw v (rw (next-close id generation ((open_pdf now id i m).0)) opened))
      ]
    ]

pub perform-IsNext : (call : Call) (m : ViewerSessionManager) → IsNext m (perform call m)
unfolding perform close_all set_drop_enabled
perform-IsNext (opens_pdf now id i) m = open_pdf-IsNext now id i m
perform-IsNext (opens_txt now id i) m = open_txt-IsNext now id i m
perform-IsNext (opens_verified_pdf now id i hashed size sha256) m =
    open_verified_pdf-IsNext now id i hashed size sha256 m
perform-IsNext (gets now id generation) m = inl (next-get now id generation m)
perform-IsNext (closes id generation) m = inl (next-close id generation m)
perform-IsNext closes_all m = inl (next-deactivate_all m.sessions m)
perform-IsNext (sets_drop enabled) m = inl refl

-- As many calls as there are generations left keep what new generations are under every identifier.
pub run-Keeps :
    (Q : String → ℕ → Type 0) (calls : List Call) (m : ViewerSessionManager)
    → m.next_generation + length calls < 2 ^ 64
    → ((id : String) (g : ℕ) → m.next_generation ≤ g → Q id g)
    → Keeps Q m
    → Keeps Q (run calls m)
unfolding run
run-Keeps Q [] m room fresh kept = kept
run-Keeps Q (call ∷ calls) m room fresh kept =
    let step = perform-IsNext call m in
    let after = perform call m in
    let within_one : (m.next_generation ≤ after.next_generation)
        × (after.next_generation ≤ m.next_generation + 1) =
      ground (arith, room, step) in
    run-Keeps Q calls after (omega (arith, room, within_one.1))
      (λ id g low. fresh id g (omega (arith, low, within_one.0)))
      (perform-Keeps Q call m (omega (arith, room)) (λ id. fresh id m.next_generation (omega arith))
        kept)

-- The manager of `default`, over a store in which no cell is in use.
unfoldable pub new_manager : (ℕ → ViewerSession) → ViewerSessionManager
new_manager cell = record {
  sessions = [];
  cell = cell;
  next_cell = 0;
  destination_grants = [];
  next_generation = 1;
  drop_enabled = false;
}

-- Nothing is asked of the identifiers and generations.
abbrev pub IsSound : ViewerSessionManager → Type 0
IsSound = Keeps (λ id g. Unit)

-- After fewer than 2 ^ 64 - 1 calls on a new manager, whatever they open, read and close, at most two
-- sessions are open, and each has a generation that has been given out already.
pub run_limited :
    (cell : ℕ → ViewerSession) (calls : List Call)
    → 1 + length calls < 2 ^ 64
    → (length (run calls (new_manager cell)).sessions ≤ 2)
      × All
          (λ entry.
            ((run calls (new_manager cell)).cell (entry.1)).generation
            < (run calls (new_manager cell)).next_generation)
          (run calls (new_manager cell)).sessions
run_limited cell calls room =
    let kept =
      run-Keeps (λ id g. Unit) calls (new_manager cell) (unfold new_manager in room)
        (λ id g low. tt) (unfold new_manager in (omega arith, tt)) in
    (kept.0, All-map _ _ (run calls (new_manager cell)).sessions (λ entry h. h.1) (kept.1))
