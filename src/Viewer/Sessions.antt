-- ===== src/Viewer/Sessions.antt =====
-- The sessions of viewer_sessions.rs. An `Arc<ViewerSession>` is a cell of a store, so that the
-- registry and a read in flight share it; what the file system answers comes in as values, and the
-- clock as a number of nanoseconds.
use document_studio.Base.{
  ℕ, ◌+◌, ◌-◌, ◌*◌, ◌%◌, ◌^◌, String, Bool, true, false, not, ◌&&◌, ◌||◌, ltb, leb, ◌==◌, List, [],
  ◌∷◌, length, filter_if, Option, none, some, if◌then◌else◌, str_eq, Result, ok, err,
}
use document_studio.Base.Maps.{find_key, insert_key, remove_key}
use document_studio.Contracts.Errors.{OperationError}
use document_studio.Viewer.Errors.{
  session_expired, published_output_changed, pdf_session_limit, txt_session_limit,
}
use document_studio.Viewer.Checks.{Inspection, Checked, inspect_pdf, inspect_txt}

abbrev pub viewer_max_sessions : ℕ
viewer_max_sessions = 2

-- Durations in nanoseconds.
abbrev pub viewer_session_idle_expiry : ℕ
viewer_session_idle_expiry = 2 * 60 * 60 * 1000000000

abbrev pub viewer_session_max_lifetime : ℕ
viewer_session_max_lifetime = 8 * 60 * 60 * 1000000000

pub data SessionKind : Type 0 where
  pdf text : SessionKind

-- The file of a session is its number among the opened files.
pub record ViewerSession : Type 0 where
  pub id : String
  pub generation : ℕ
  pub source_path : String
  pub file : ℕ
  pub identity : String
  pub size_bytes : ℕ
  pub modified_at : String
  pub display_name : String
  pub created_at : ℕ
  pub last_access : ℕ
  pub active : Bool
  pub reads_in_flight : ℕ
  pub kind : SessionKind

pub record DestinationGrantRecord : Type 0 where
  pub path : String
  pub created_at : ℕ

-- The manager, and the store of all sessions ever made.
pub record ViewerSessionManager : Type 0 where
  pub sessions : List (String × ℕ)
  pub cell : ℕ → ViewerSession
  pub next_cell : ℕ
  pub destination_grants : List (String × DestinationGrantRecord)
  pub next_generation : ℕ
  pub drop_enabled : Bool

abbrev pub write : (ℕ → ViewerSession) → ℕ → ViewerSession → ℕ → ViewerSession
write cell address session other = if address == other then session else cell other

unfoldable pub is_expired : ℕ → ViewerSession → Bool
is_expired now s =
    not s.active
    || (ltb viewer_session_max_lifetime (now - s.created_at)
        || ltb viewer_session_idle_expiry (now - s.last_access))

-- `sessions.retain(|_, session| !session.is_expired())`.
unfoldable pub retain_live : ℕ → ViewerSessionManager → ViewerSessionManager
retain_live now m = record m {
  sessions = filter_if (λ (entry : String × ℕ). not (is_expired now (m.cell (entry.1)))) m.sessions;
}

unfoldable pub new_session : SessionKind → String → ℕ → ℕ → Checked → ViewerSession
new_session kind id generation now c = record {
  id = id;
  generation = generation;
  source_path = c.path;
  file = c.file;
  identity = c.identity;
  size_bytes = c.len;
  modified_at = c.modified_at;
  display_name = c.display_name;
  created_at = now;
  last_access = now;
  active = true;
  reads_in_flight = 0;
  kind = kind;
}

-- The end of `open_pdf` and of `open_txt`, which differ in the error and the kind: the identifier
-- comes from a generator of UUIDs, and `fetch_add` wraps around. The result is the generation; what
-- the metadata hold besides are fields of the new session.
unfoldable pub add_session :
    SessionKind
    → OperationError
    → ℕ
    → String
    → Checked
    → ViewerSessionManager
    → ViewerSessionManager × Result OperationError ℕ
add_session kind limit now id c before =
    let m = retain_live now before in
    if leb viewer_max_sessions (length m.sessions) then (m, err limit) else (
      record m {
        sessions = insert_key id m.next_cell m.sessions;
        cell = write m.cell m.next_cell (new_session kind id m.next_generation now c);
        next_cell = m.next_cell + 1;
        next_generation = (m.next_generation + 1) % 2 ^ 64;
      },
      ok m.next_generation,
    )

unfoldable pub open_pdf :
    ℕ → String → Inspection → ViewerSessionManager → ViewerSessionManager × Result OperationError ℕ
open_pdf now id i m = elim (inspect_pdf i) [
  | ok c ↦ add_session pdf pdf_session_limit now id c m
  | err e ↦ (m, err e)
]

unfoldable pub open_txt :
    ℕ → String → Inspection → ViewerSessionManager → ViewerSessionManager × Result OperationError ℕ
open_txt now id i m = elim (inspect_txt i) [
  | ok c ↦ add_session text txt_session_limit now id c m
  | err e ↦ (m, err e)
]

-- `get(id).filter(|session| session.generation == generation)`.
unfoldable pub of_generation : ViewerSessionManager → ℕ → Option ℕ → Option ℕ
of_generation m generation none = none
of_generation m generation (some address) =
    if (m.cell address).generation == generation then some address else none

unfoldable pub find_session : ViewerSessionManager → String → ℕ → Option ℕ
find_session m id generation = of_generation m generation (find_key id m.sessions)

unfoldable pub deactivate : ℕ → ViewerSessionManager → ViewerSessionManager
deactivate address m = record m {
  cell = write m.cell address (record (m.cell address) { active = false });
}

unfoldable pub remove_session : String → ViewerSessionManager → ViewerSessionManager
remove_session id m = record m { sessions = remove_key id m.sessions }

-- The first part of `get`: an expired session goes.
unfoldable pub drop_expired : ℕ → String → Option ℕ → ViewerSessionManager → ViewerSessionManager
drop_expired now id none m = m
drop_expired now id (some address) m =
    if is_expired now (m.cell address) then deactivate address (remove_session id m) else m

unfoldable pub touch : ℕ → ℕ → ViewerSessionManager → ViewerSessionManager
touch now address m = record m {
  cell = write m.cell address (record (m.cell address) { last_access = now });
}

unfoldable pub get :
    ℕ → String → ℕ → ViewerSessionManager → ViewerSessionManager × Result OperationError ℕ
get now id generation before =
    let m = drop_expired now id (find_key id before.sessions) before in
    elim (find_session m id generation) [
      | none ↦ (m, err session_expired)
      | some address ↦ (touch now address m, ok address)
    ]

unfoldable pub contains_generation : ViewerSessionManager → String → ℕ → Bool
contains_generation m id generation = elim (find_session m id generation) [
  | none ↦ false
  | some address ↦ true
]

unfoldable pub close :
    String → ℕ → ViewerSessionManager → ViewerSessionManager × Result OperationError (Unit {0})
close id generation m = elim (find_session m id generation) [
  | none ↦ (m, err session_expired)
  | some address ↦ (remove_session id (deactivate address m), ok tt)
]

-- `for session in sessions.values()`.
unfoldable pub deactivate_all : List (String × ℕ) → ViewerSessionManager → ViewerSessionManager
deactivate_all [] m = m
deactivate_all ((id, address) ∷ entries) m = deactivate_all entries (deactivate address m)

unfoldable pub close_all : ViewerSessionManager → ViewerSessionManager
close_all m = record (deactivate_all m.sessions m) { sessions = []; destination_grants = [] }

unfoldable pub set_drop_enabled : Bool → ViewerSessionManager → ViewerSessionManager
set_drop_enabled enabled m = record m { drop_enabled = enabled }

unfoldable pub is_verified : Option (ℕ × String) → ℕ → String → Bool
is_verified none expected_size expected_sha256 = false
is_verified (some (size, sha256)) expected_size expected_sha256 =
    (size == expected_size) && str_eq sha256 expected_sha256

-- `hash_file` answers with the size and the digest, or fails.
unfoldable pub open_verified_pdf :
    ℕ
    → String
    → Inspection
    → Option (ℕ × String)
    → ℕ
    → String
    → ViewerSessionManager
    → ViewerSessionManager × Result OperationError ℕ
open_verified_pdf now id i hashed expected_size expected_sha256 m =
    let (after, answer) = open_pdf now id i m in
    elim answer [
      | err e ↦ (after, err e)
      | ok generation ↦
          if is_verified hashed expected_size expected_sha256
          then (after, ok generation)
          else ((close id generation after).0, err published_output_changed)
    ]
