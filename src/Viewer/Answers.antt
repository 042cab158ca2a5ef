-- ===== src/Viewer/Answers.antt =====
-- What `read_range` of viewer_sessions.rs answers with.
use document_studio.Base.{
  ℕ, ◌+◌, ◌-◌, ◌≤◌, ◌<◌, true, not, ltb, List, length, take, drop, Bool-cases, Result-cases, inl,
  inr, Result, ok, err, ◌>>◌, refuse_if, >>=-eq-ok, refused_not, map_err-eq-ok, ok-injective, arith,
  ◌≡◌, sym, ap, ◌∙◌,
}
use document_studio.Contracts.Errors.{OperationError}
use document_studio.Viewer.Errors.{session_expired, range_busy, range_read_failed}
use document_studio.Viewer.Sessions.{ViewerSession, ViewerSessionManager, get}
use document_studio.Viewer.Files.{SeekRead, read_exact_at, Facts, validate_unchanged}
use document_studio.Viewer.Ranges.{
  ViewerRangeRequest, acquire_read, set_reads, check_range, read_bytes, still_open,
  read_with_permit, read_session, read_range,
}
use document_studio.Viewer.Limits.{write_here}
use document_studio.Viewer.Reads.{IsPartial, read_passes_sound}

-- A range of a session that was open and unchanged, read from its file.
abbrev pub IsAnswer :
    (content : List ℕ) → Facts → ViewerSession → ViewerRangeRequest → List ℕ → Type 0
IsAnswer content facts s request bytes =
    (request.begin < request.end)
    × (request.end ≤ s.size_bytes)
    × (request.end - request.begin ≤ 1048576)
    × (length bytes ≡ request.end - request.begin)
    × (bytes ≡ take (request.end - request.begin) (drop request.begin content))
    × (s.active ≡ true)
    × (validate_unchanged facts s ≡ ok tt)

read_bytes_sound :
    (seek_read : SeekRead) (content : List ℕ) (facts : Facts) (s : ViewerSession)
    (request : ViewerRangeRequest) (bytes : List ℕ)
    → IsPartial seek_read content
    → check_range s request ≡ ok tt
    → read_bytes seek_read facts s request ≡ ok bytes
    → IsAnswer content facts s request bytes
unfolding check_range read_bytes read_exact_at
read_bytes_sound seek_read content facts s request bytes partial_ checked h =
    let (open_, h1) = refused_not (not s.active) _ _ h in
    let (_, unchanged, h2) = >>=-eq-ok (validate_unchanged facts s) _ h1 in
    let read =
      map_err-eq-ok (λ e. range_read_failed)
        (read_exact_at seek_read (request.end - request.begin) request.begin) h2 in
    let (whole, long) =
      read_passes_sound seek_read content partial_ (request.end - request.begin)
        (request.end - request.begin) request.begin bytes read in
    (ground arith, ground arith, ground arith, long, whole, ground arith, unchanged)

read_with_permit_sound :
    (seek_read : SeekRead) (facts : Facts) (others : ViewerSessionManager → ViewerSessionManager)
    (request : ViewerRangeRequest) (address : ℕ) (m : ViewerSessionManager) (bytes : List ℕ)
    → (read_with_permit seek_read facts others request address m).1 ≡ ok bytes
    → (read_bytes seek_read facts (m.cell address) request ≡ ok bytes)
      × (still_open (others m) address ≡ true)
unfolding read_with_permit
read_with_permit_sound seek_read facts others request address m bytes h =
    elim (Result-cases (read_bytes seek_read facts (m.cell address) request)) [
      | inl (found, e) ↦
          let kept : (refuse_if (not (still_open (others m) address)) session_expired >> ok found)
              ≡ ok bytes =
            rw (e, read_with_permit) at h in
          let (shown, same) = refused_not (not (still_open (others m) address)) _ _ kept in
          (e ∙ same, ground arith)
      | inr (x, e) ↦
          let never : ◌≡◌ {A = Result OperationError (List ℕ)} (err x) (ok bytes) =
            rw (e, read_with_permit) at h in
          cc (never)
    ]

-- A permit changes the number of reads only.
acquire_read_sound :
    (address : ℕ) (m permitted : ViewerSessionManager)
    → acquire_read address m ≡ ok permitted
    → permitted.cell address
      ≡ record (m.cell address) { reads_in_flight = (m.cell address).reads_in_flight + 1 }
unfolding acquire_read set_reads
acquire_read_sound address m permitted h =
    elim (Bool-cases (ltb (m.cell address).reads_in_flight 4)) [
      | inl e ↦
          let same : ◌≡◌ {A = Result OperationError ViewerSessionManager}
              (ok (set_reads address ((m.cell address).reads_in_flight + 1) m)) (ok permitted) =
            rw e at h in
          sym (ap (λ (p : ViewerSessionManager). p.cell address) (ok-injective same))
          ∙ write_here m.cell address _
      | inr e ↦
          let never : ◌≡◌ {A = Result OperationError ViewerSessionManager} (err range_busy)
              (ok permitted) =
            rw e at h in
          cc (never)
    ]

read_session_sound :
    (seek_read : SeekRead) (content : List ℕ) (facts : Facts)
    (others : ViewerSessionManager → ViewerSessionManager) (request : ViewerRangeRequest)
    (address : ℕ) (m : ViewerSessionManager) (bytes : List ℕ)
    → IsPartial seek_read content
    → (read_session seek_read facts others request address m).1 ≡ ok bytes
    → (permitted : ViewerSessionManager) × (acquire_read address m ≡ ok permitted)
      × IsAnswer content facts (permitted.cell address) request bytes
      × (still_open (others permitted) address ≡ true)
unfolding read_session
read_session_sound seek_read content facts others request address m bytes partial_ h =
    elim (Result-cases (check_range (m.cell address) request >> acquire_read address m)) [
      | inr (x, e) ↦
          let never : ◌≡◌ {A = Result OperationError (List ℕ)} (err x) (ok bytes) =
            rw (e, read_session) at h in
          cc (never)
      | inl (permitted, e) ↦
          let answered : (read_with_permit seek_read facts others request address permitted).1
              ≡ ok bytes =
            rw (e, read_session) at h in
          let (_, checked, acquired) = >>=-eq-ok (check_range (m.cell address) request) _ e in
          let (read, opened) =
            read_with_permit_sound seek_read facts others request address permitted bytes
              answered in
          let same = acquire_read_sound address m permitted acquired in
          let in_range : check_range (permitted.cell address) request ≡ ok tt =
            ap (λ s. check_range s request) same ∙ unfold check_range in checked in
          (
            permitted,
            acquired,
            read_bytes_sound seek_read content facts (permitted.cell address) request bytes partial_
                in_range read,
            opened,
          )
    ]

-- The bytes that `read_range` answers with are exactly the bytes of the request, at most 1 MiB of them,
-- from the file of a session that `get` found for its identifier and generation, that gave a
-- permit, was active, whose file was unchanged and is long enough; and after the read, whatever
-- other threads did meanwhile, the session was still active and registered with its generation.
pub read_range_sound :
    (files : ℕ → SeekRead) (contents : ℕ → List ℕ) (facts : Facts)
    (others : ViewerSessionManager → ViewerSessionManager) (now : ℕ) (request : ViewerRangeRequest)
    (before : ViewerSessionManager) (bytes : List ℕ)
    → ((file : ℕ) → IsPartial (files file) (contents file))
    → (read_range files facts others now request before).1 ≡ ok bytes
    → (address : ℕ) × (permitted : ViewerSessionManager) × ((get now request.session_id
          request.generation before).1
        ≡ ok address)
      × (acquire_read address ((get now request.session_id request.generation before).0)
          ≡ ok permitted)
      × IsAnswer
          (contents (((get now request.session_id request.generation before).0).cell address).file)
          facts
          (permitted.cell address)
          request
          bytes
      × (still_open (others permitted) address ≡ true)
unfolding read_range
read_range_sound files contents facts others now request before bytes partial_ h =
    let m = (get now request.session_id request.generation before).0 in
    elim (Result-cases ((get now request.session_id request.generation before).1)) [
      | inr (x, e) ↦
          let never : ◌≡◌ {A = Result OperationError (List ℕ)} (err x) (ok bytes) =
            rw (e, read_range) at h in
          cc (never)
      | inl (address, e) ↦
          let answered : (read_session (files (m.cell address).file) facts others request address
                m).1
              ≡ ok bytes =
            rw (e, read_range) at h in
          let (permitted, acquired, answer, opened) =
            read_session_sound (files (m.cell address).file) (contents (m.cell address).file) facts
              others request address m bytes (partial_ (m.cell address).file) answered in
          (address, permitted, e, acquired, answer, opened)
    ]
