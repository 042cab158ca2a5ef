-- ===== src/Viewer/Limits.antt =====
-- What every call of the manager of viewer_sessions.rs keeps.
use document_studio.Base.{
  ℕ, ◌+◌, ◌%◌, ◌^◌, ◌≤◌, ◌<◌, String, not, leb, ==_iff, length, All, All-map, Option, none, some,
  Option-cases, Result-cases, Bool-cases, inl, inr, arith, ◌≡◌, refl, sym, ap, subst,
}
use document_studio.Base.Maps.{
  find_key, insert_key, remove_key, length-remove_key, All-remove_key, length-filter_if,
  All-filter_if,
}
use document_studio.Contracts.Errors.{OperationError}
use document_studio.Viewer.Errors.{pdf_session_limit, txt_session_limit}
use document_studio.Viewer.Sessions.{
  SessionKind, ViewerSession, ViewerSessionManager, write, is_expired, retain_live, new_session,
  add_session, open_pdf, open_txt, deactivate, remove_session, drop_expired, touch, find_session,
  get, close, close_all, set_drop_enabled, is_verified, open_verified_pdf,
}
use document_studio.Viewer.Checks.{Inspection, Checked, inspect_pdf, inspect_txt}
use document_studio.Viewer.Calls.{
  Call, opens_pdf, opens_txt, opens_verified_pdf, gets, closes, closes_all, sets_drop, perform,
}

write_generation :
    (cell : ℕ → ViewerSession) (address : ℕ) (s : ViewerSession) (x : ℕ)
    → s.generation ≡ (cell address).generation
    → (write cell address s x).generation ≡ (cell x).generation
write_generation cell address s x h = ground (arith, h, ==_iff address x)

write_other :
    (cell : ℕ → ViewerSession) (address : ℕ) (s : ViewerSession) (x : ℕ)
    → x < address
    → write cell address s x ≡ cell x
write_other cell address s x below = ground arith

pub write_here :
    (cell : ℕ → ViewerSession) (address : ℕ) (s : ViewerSession) → write cell address s address ≡ s
write_here cell address s = ground arith

-- At most two sessions, each in a cell that is in use, with a generation of a kind.
module _ (Q : String → ℕ → Type 0) where
  abbrev pub IsEntry : ViewerSessionManager → String × ℕ → Type 0
  IsEntry m entry =
      (entry.1 < m.next_cell)
      × ((m.cell (entry.1)).generation < m.next_generation)
      × Q (entry.0) ((m.cell (entry.1)).generation)

  abbrev pub Keeps : ViewerSessionManager → Type 0
  Keeps m = (length m.sessions ≤ 2) × All (IsEntry m) m.sessions

  pub deactivate-Keeps :
      (address : ℕ) (m : ViewerSessionManager) → Keeps m → Keeps (deactivate address m)
  unfolding deactivate
  deactivate-Keeps address m (few, entries) = (
    few,
    All-map (IsEntry m) _ m.sessions
        (λ entry h.
          let same = sym (write_generation m.cell address _ (entry.1) refl) in
          (h.0, subst (λ g. g < m.next_generation) same (h.1), subst (Q (entry.0)) same (h.2)))
        entries,
  )

  touch-Keeps : (now address : ℕ) (m : ViewerSessionManager) → Keeps m → Keeps (touch now address m)
  unfolding touch
  touch-Keeps now address m (few, entries) = (
    few,
    All-map (IsEntry m) _ m.sessions
        (λ entry h.
          let same = sym (write_generation m.cell address _ (entry.1) refl) in
          (h.0, subst (λ g. g < m.next_generation) same (h.1), subst (Q (entry.0)) same (h.2)))
        entries,
  )

  pub remove_session-Keeps :
      (id : String) (m : ViewerSessionManager) → Keeps m → Keeps (remove_session id m)
  unfolding remove_session
  remove_session-Keeps id m (few, entries) = (
    omega (arith, few, length-remove_key id m.sessions),
    All-remove_key (IsEntry m) id m.sessions entries,
  )

  retain_live-Keeps : (now : ℕ) (m : ViewerSessionManager) → Keeps m → Keeps (retain_live now m)
  unfolding retain_live
  retain_live-Keeps now m (few, entries) =
      let live = λ (entry : String × ℕ). not (is_expired now (m.cell (entry.1))) in
      (
        omega (arith, few, length-filter_if live m.sessions),
        All-filter_if live (IsEntry m) m.sessions entries,
      )

  insert-Keeps :
      (m : ViewerSessionManager) (id : String) (s : ViewerSession) (next : ℕ)
      → length m.sessions ≤ 1
      → All (IsEntry m) m.sessions
      → m.next_generation ≤ next
      → s.generation < next
      → Q id s.generation
      → Keeps (record m {
        sessions = insert_key id m.next_cell m.sessions;
        cell = write m.cell m.next_cell s;
        next_cell = m.next_cell + 1;
        next_generation = next;
      })
  insert-Keeps m id s next few entries later below fresh =
      let here = sym (ap (λ (c : ViewerSession). c.generation) (write_here m.cell m.next_cell s)) in
      (
        omega (arith, few, length-remove_key id m.sessions),
        (
          (omega arith, subst (λ g. g < next) here below, subst (Q id) here fresh),
          All-map (IsEntry m) _ (remove_key id m.sessions)
              (λ entry h.
                let same = sym (
                  ap (λ (c : ViewerSession). c.generation)
                    (write_other m.cell m.next_cell s (entry.1) (h.0))) in
                (
                  omega (arith, h.0),
                  subst (λ g. g < next) same (omega (arith, h.1, later)),
                  subst (Q (entry.0)) same (h.2),
                ))
              (All-remove_key (IsEntry m) id m.sessions entries),
        ),
      )

  add_session-Keeps :
      (kind : SessionKind) (limit : OperationError) (now : ℕ) (id : String) (c : Checked)
      (m : ViewerSessionManager)
      → m.next_generation + 1 < 2 ^ 64
      → ((key : String) → Q key m.next_generation)
      → Keeps m
      → Keeps ((add_session kind limit now id c m).0)
  unfolding add_session
  add_session-Keeps kind limit now id c m room fresh kept =
      let live = retain_live-Keeps now m kept in
      elim (Bool-cases (leb 2 (length (retain_live now m).sessions))) [
        | inl e ↦ rw e live
        | inr e ↦ rw e (
            insert-Keeps (retain_live now m) id
              (new_session kind id (retain_live now m).next_generation now c)
              (((retain_live now m).next_generation + 1) % 2 ^ 64) (ground arith) (live.1)
              (unfold retain_live in ground (arith, room))
              (unfold new_session retain_live in ground (arith, room))
              (unfold new_session retain_live in fresh id))
      ]

  open_pdf-Keeps :
      (now : ℕ) (id : String) (i : Inspection) (m : ViewerSessionManager)
      → m.next_generation + 1 < 2 ^ 64
      → ((key : String) → Q key m.next_generation)
      → Keeps m
      → Keeps ((open_pdf now id i m).0)
  unfolding open_pdf
  open_pdf-Keeps now id i m room fresh kept = elim (Result-cases (inspect_pdf i)) [
    | inl (c, e) ↦
        rw (e, open_pdf)
          (add_session-Keeps SessionKind.pdf pdf_session_limit now id c m room fresh kept)
    | inr (x, e) ↦ rw (e, open_pdf) kept
  ]

  open_txt-Keeps :
      (now : ℕ) (id : String) (i : Inspection) (m : ViewerSessionManager)
      → m.next_generation + 1 < 2 ^ 64
      → ((key : String) → Q key m.next_generation)
      → Keeps m
      → Keeps ((open_txt now id i m).0)
  unfolding open_txt
  open_txt-Keeps now id i m room fresh kept = elim (Result-cases (inspect_txt i)) [
    | inl (c, e) ↦
        rw (e, open_txt)
          (add_session-Keeps SessionKind.text txt_session_limit now id c m room fresh kept)
    | inr (x, e) ↦ rw (e, open_txt) kept
  ]

  pub drop_expired-Keeps :
      (now : ℕ) (id : String) (found : Option ℕ) (m : ViewerSessionManager)
      → Keeps m
      → Keeps (drop_expired now id found m)
  unfolding drop_expired
  drop_expired-Keeps now id none m kept = kept
  drop_expired-Keeps now id (some address) m kept =
      elim (Bool-cases (is_expired now (m.cell address))) [
        | inl e ↦
            rw e (deactivate-Keeps address (remove_session id m) (remove_session-Keeps id m kept))
        | inr e ↦ rw e kept
      ]

  get-Keeps :
      (now : ℕ) (id : String) (generation : ℕ) (m : ViewerSessionManager)
      → Keeps m
      → Keeps ((get now id generation m).0)
  unfolding get
  get-Keeps now id generation m kept =
      let after = drop_expired now id (find_key id m.sessions) m in
      let live : Keeps after = drop_expired-Keeps now id (find_key id m.sessions) m kept in
      elim (Option-cases (find_session after id generation)) [
        | inl e ↦ rw (e, get) live
        | inr (address, e) ↦ rw (e, get) (touch-Keeps now address after live)
      ]

  close-Keeps :
      (id : String) (generation : ℕ) (m : ViewerSessionManager)
      → Keeps m
      → Keeps ((close id generation m).0)
  unfolding close
  close-Keeps id generation m kept = elim (Option-cases (find_session m id generation)) [
    | inl e ↦ rw (e, close) kept
    | inr (address, e) ↦
        rw (e, close)
          (remove_session-Keeps id (deactivate address m) (deactivate-Keeps address m kept))
  ]

  open_verified_pdf-Keeps :
      (now : ℕ) (id : String) (i : Inspection) (hashed : Option (ℕ × String)) (size : ℕ)
      (sha256 : String) (m : ViewerSessionManager)
      → m.next_generation + 1 < 2 ^ 64
      → ((key : String) → Q key m.next_generation)
      → Keeps m
      → Keeps ((open_verified_pdf now id i hashed size sha256 m).0)
  unfolding open_verified_pdf
  open_verified_pdf-Keeps now id i hashed size sha256 m room fresh kept =
      let opened = open_pdf-Keeps now id i m room fresh kept in
      elim (Result-cases ((open_pdf now id i m).1)) [
        | inr (x, e) ↦ rw (e, open_verified_pdf) opened
        | inl (generation, e) ↦ elim (Bool-cases (is_verified hashed size sha256)) [
          | inl v ↦ rw (e, open_verified_pdf) (rw v opened)
          | inr v ↦
              rw (e, open_verified_pdf)
                (rw v (close-Keeps id generation ((open_pdf now id i m).0) opened))
        ]
      ]

  pub perform-Keeps :
      (call : Call) (m : ViewerSessionManager)
      → m.next_generation + 1 < 2 ^ 64
      → ((key : String) → Q key m.next_generation)
      → Keeps m
      → Keeps (perform call m)
  unfolding perform close_all set_drop_enabled
  perform-Keeps (opens_pdf now id i) m room fresh kept = open_pdf-Keeps now id i m room fresh kept
  perform-Keeps (opens_txt now id i) m room fresh kept = open_txt-Keeps now id i m room fresh kept
  perform-Keeps (opens_verified_pdf now id i hashed size sha256) m room fresh kept =
      open_verified_pdf-Keeps now id i hashed size sha256 m room fresh kept
  perform-Keeps (gets now id generation) m room fresh kept = get-Keeps now id generation m kept
  perform-Keeps (closes id generation) m room fresh kept = close-Keeps id generation m kept
  perform-Keeps closes_all m room fresh kept = (omega arith, tt)
  perform-Keeps (sets_drop enabled) m room fresh kept = kept
