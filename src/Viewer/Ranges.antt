-- ===== src/Viewer/Ranges.antt =====
-- `read_range` of viewer_sessions.rs, and the destinations that a user has granted.
use document_studio.Base.{
  ℕ, ◌+◌, ◌-◌, ◌*◌, String, Bool, true, false, not, ◌&&◌, ◌||◌, ltb, leb, List, filter_if, Option,
  none, some, if◌then◌else◌, Result, ok, err, ◌>>=◌, ◌>>◌, refuse_if, ok_or, map_err,
}
use document_studio.Base.Maps.{find_key, insert_key, remove_key}
use document_studio.Contracts.Errors.{OperationError}
use document_studio.Viewer.Errors.{
  session_expired, invalid_range, range_busy, range_read_failed, unsafe_destination, grant_expired,
}
use document_studio.Viewer.Sessions.{
  SessionKind, pdf, text, ViewerSession, ViewerSessionManager, DestinationGrantRecord, write, get,
  contains_generation, viewer_session_idle_expiry,
}
use document_studio.Viewer.Files.{SeekRead, read_exact_at, Facts, validate_unchanged}

abbrev pub viewer_max_range_bytes : ℕ
viewer_max_range_bytes = 1024 * 1024

abbrev pub viewer_max_reads_in_flight : ℕ
viewer_max_reads_in_flight = 4

pub record ViewerRangeRequest : Type 0 where
  pub session_id : String
  pub generation : ℕ
  pub begin : ℕ
  pub end : ℕ

unfoldable pub set_reads : ℕ → ℕ → ViewerSessionManager → ViewerSessionManager
set_reads address reads m = record m {
  cell = write m.cell address (record (m.cell address) { reads_in_flight = reads });
}

-- `fetch_update` with the limit.
unfoldable pub acquire_read : ℕ → ViewerSessionManager → Result OperationError ViewerSessionManager
acquire_read address m =
    if ltb (m.cell address).reads_in_flight viewer_max_reads_in_flight
    then ok (set_reads address ((m.cell address).reads_in_flight + 1) m)
    else err range_busy

-- The permit is dropped.
unfoldable pub release_read : ℕ → ViewerSessionManager → ViewerSessionManager
release_read address m = set_reads address ((m.cell address).reads_in_flight - 1) m

unfoldable pub check_range : ViewerSession → ViewerRangeRequest → Result OperationError (Unit {0})
check_range s request =
    refuse_if
      (leb request.end request.begin
        || (ltb s.size_bytes request.end
            || ltb viewer_max_range_bytes (request.end - request.begin)))
      invalid_range

-- What happens with a permit, up to the bytes.
unfoldable pub read_bytes :
    SeekRead → Facts → ViewerSession → ViewerRangeRequest → Result OperationError (List ℕ)
read_bytes seek_read facts s request = do
  refuse_if (not s.active) session_expired
  validate_unchanged facts s
  map_err (λ e. range_read_failed)
      (read_exact_at seek_read (request.end - request.begin) request.begin)

unfoldable pub still_open : ViewerSessionManager → ℕ → Bool
still_open m address =
    (m.cell address).active && contains_generation m (m.cell address).id (m.cell address).generation

-- While the bytes are read, other threads may do anything to the manager.
unfoldable pub read_with_permit :
    SeekRead
    → Facts
    → (ViewerSessionManager → ViewerSessionManager)
    → ViewerRangeRequest
    → ℕ
    → ViewerSessionManager
    → ViewerSessionManager × Result OperationError (List ℕ)
read_with_permit seek_read facts others request address m =
    elim (read_bytes seek_read facts (m.cell address) request) [
      | err e ↦ (release_read address m, err e)
      | ok bytes ↦
          let later = others m in
          (
            release_read address later,
            refuse_if (not (still_open later address)) session_expired >> ok bytes,
          )
    ]

unfoldable pub read_session :
    SeekRead
    → Facts
    → (ViewerSessionManager → ViewerSessionManager)
    → ViewerRangeRequest
    → ℕ
    → ViewerSessionManager
    → ViewerSessionManager × Result OperationError (List ℕ)
read_session seek_read facts others request address m =
    elim (check_range (m.cell address) request >> acquire_read address m) [
      | err e ↦ (m, err e)
      | ok permitted ↦ read_with_permit seek_read facts others request address permitted
    ]

-- The file of a session is read by its number.
unfoldable pub read_range :
    (ℕ → SeekRead)
    → Facts
    → (ViewerSessionManager → ViewerSessionManager)
    → ℕ
    → ViewerRangeRequest
    → ViewerSessionManager
    → ViewerSessionManager × Result OperationError (List ℕ)
read_range files facts others now request before =
    let (m, found) = get now request.session_id request.generation before in
    elim found [
      | err e ↦ (m, err e)
      | ok address ↦ read_session (files (m.cell address).file) facts others request address m
    ]

unfoldable pub is_kind : SessionKind → SessionKind → Bool
is_kind pdf pdf = true
is_kind text text = true
is_kind _ _ = false

-- `source_for_job` and `source_for_text_job`, which differ in the kind: the cell of the session.
unfoldable pub source_of_kind :
    SessionKind
    → Facts
    → ℕ
    → String
    → ℕ
    → ViewerSessionManager
    → ViewerSessionManager × Result OperationError ℕ
source_of_kind kind facts now id generation before =
    let (m, found) = get now id generation before in
    elim found [
      | err e ↦ (m, err e)
      | ok address ↦ (
        m,
        refuse_if (not (is_kind (m.cell address).kind kind)) session_expired
            >> (validate_unchanged facts (m.cell address) >> ok address),
      )
    ]

-- `canonical_directory` answers with a path; the identifier comes from a generator of UUIDs.
unfoldable pub grant_destination :
    Option String
    → ℕ
    → String
    → ViewerSessionManager
    → ViewerSessionManager × Result OperationError String
grant_destination none now grant_id m = (m, err unsafe_destination)
grant_destination (some path) now grant_id m = (
  record m {
    destination_grants =
        insert_key grant_id (record { path = path; created_at = now }) m.destination_grants;
  },
  ok grant_id,
)

unfoldable pub live_grants :
    ℕ → List (String × DestinationGrantRecord) → List (String × DestinationGrantRecord)
live_grants now grants =
    filter_if
      (λ (entry : String × DestinationGrantRecord).
        leb (now - (entry.1).created_at) viewer_session_idle_expiry)
      grants

unfoldable pub resolve_destination :
    (String → Option String)
    → ℕ
    → String
    → ViewerSessionManager
    → ViewerSessionManager × Result OperationError String
resolve_destination canonical_directory now grant_id m =
    let grants = live_grants now m.destination_grants in
    (
      record m { destination_grants = grants },
      ok_or (find_key grant_id grants) grant_expired >>= λ grant.
          ok_or (canonical_directory grant.path) unsafe_destination,
    )

unfoldable pub revoke_destination : String → ViewerSessionManager → ViewerSessionManager
revoke_destination grant_id m = record m {
  destination_grants = remove_key grant_id m.destination_grants;
}
