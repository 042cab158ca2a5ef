-- ===== src/Cancellation.antt =====
-- The cancellation tokens of apps/desktop/src-tauri/src/app_state.rs. An `Arc<AtomicU8>` is a cell
-- of an explicit store, named by its number, so that the registry and a worker share it. Each
-- operation holds the registry's mutex or is one atomic access, hence a step of its own, and an
-- interleaving of threads is a list of operations.
pub mod Race
pub mod Lookup
mod Tests
use document_studio.Base.{
  ℕ, ◌+◌, String, Bool, true, false, List, [], ◌∷◌, Option, none, some, if◌then◌else◌, ◌==◌, str_eq,
}

pub data CancelOutcome : Type 0 where
  requested too_late not_running : CancelOutcome

abbrev pub cancellation_active : ℕ
cancellation_active = 0

abbrev pub cancellation_requested : ℕ
cancellation_requested = 1

abbrev pub publication_commit_started : ℕ
publication_commit_started = 2

-- `AtomicU8::compare_exchange`: the new content of the cell, and the content found, with whether it
-- was the expected one.
pub record Exchange : Type 0 where
  pub stored : ℕ
  pub found : ℕ
  pub swapped : Bool

abbrev pub compare_exchange : ℕ → ℕ → ℕ → Exchange
compare_exchange content current new = record {
  stored = if content == current then new else content;
  found = content;
  swapped = content == current;
}

-- The operations of a `CancellationToken`, over the content of its cell.
unfoldable pub is_cancelled : ℕ → Bool
is_cancelled content = content == cancellation_requested

unfoldable pub commit_started : ℕ → Bool
commit_started content = content == publication_commit_started

unfoldable pub try_begin_publication_commit : ℕ → ℕ × Bool
try_begin_publication_commit content =
    let x = compare_exchange content cancellation_active publication_commit_started in
    (
      x.stored,
      if x.swapped
          then true
          else if x.found == publication_commit_started
          then true
          else if x.found == cancellation_requested
          then false
          else false,
    )

unfoldable pub request_cancellation : ℕ → ℕ × CancelOutcome
request_cancellation content =
    let x = compare_exchange content cancellation_active cancellation_requested in
    (
      x.stored,
      if x.swapped
          then requested
          else if x.found == cancellation_requested
          then requested
          else if x.found == publication_commit_started
          then too_late
          else not_running,
    )

-- The `HashMap` from job identifiers to tokens, as an association list with one entry a key.
unfoldable pub get : String → List (String × ℕ) → Option ℕ
get id [] = none
get id ((key, token) ∷ tokens) = if str_eq key id then some token else get id tokens

unfoldable pub insert : String → ℕ → List (String × ℕ) → List (String × ℕ)
insert id token [] = (id, token) ∷ []
insert id token ((key, old) ∷ tokens) =
    if str_eq key id then (id, token) ∷ tokens else (key, old) ∷ insert id token tokens

unfoldable pub remove : String → List (String × ℕ) → List (String × ℕ)
remove id [] = []
remove id ((key, token) ∷ tokens) =
    if str_eq key id then remove id tokens else (key, token) ∷ remove id tokens

-- The registry, and the store of all tokens ever made.
pub record Registry : Type 0 where
  pub tokens : List (String × ℕ)
  pub cell : ℕ → ℕ
  pub next_cell : ℕ

abbrev pub write : (ℕ → ℕ) → ℕ → ℕ → ℕ → ℕ
write cell token content other = if token == other then content else cell other

unfoldable pub new_registry : Registry
new_registry = record { tokens = []; cell = λ _. cancellation_active; next_cell = 0 }

unfoldable pub register : Registry → String → Registry × ℕ
register r job_id = (
  record {
    tokens = insert job_id r.next_cell r.tokens;
    cell = write r.cell r.next_cell cancellation_active;
    next_cell = r.next_cell + 1;
  },
  r.next_cell,
)

request_token : Registry → Option ℕ → Registry × CancelOutcome
request_token r none = (r, not_running)
request_token r (some token) =
    let (content, outcome) = request_cancellation (r.cell token) in
    (record r { cell = write r.cell token content }, outcome)

unfoldable pub request : Registry → String → Registry × CancelOutcome
unfolding request_token
request r job_id = request_token r (get job_id r.tokens)

unfoldable pub unregister : Registry → String → Registry
unregister r job_id = record r { tokens = remove job_id r.tokens }

unfoldable pub begin_commit : Registry → ℕ → Registry × Bool
begin_commit r token =
    let (content, won) = try_begin_publication_commit (r.cell token) in
    (record r { cell = write r.cell token content }, won)

-- What a thread does: the command handlers register, request and unregister, a worker commits and
-- polls.
pub data Op : Type 0 where
  registers requests unregisters : String → Op
  commits polls : ℕ → Op

-- What it is told. A request is logged with the token that it reached.
pub data Event : Type 0 where
  registered : ℕ → Event
  request_answered : Option ℕ → CancelOutcome → Event
  unregistered : Event
  commit_answered : ℕ → Bool → Event
  poll_answered : ℕ → Bool → Event

unfoldable pub step : Registry → Op → Registry × Event
unfolding register request unregister begin_commit
step r (registers id) = let (r', token) = register r id in (r', registered token)
step r (requests id) =
    let (r', outcome) = request r id in (r', request_answered (get id r.tokens) outcome)
step r (unregisters id) = (unregister r id, unregistered)
step r (commits token) = let (r', won) = begin_commit r token in (r', commit_answered token won)
step r (polls token) = (r, poll_answered token (is_cancelled (r.cell token)))

unfoldable pub run : Registry → List Op → Registry × List Event
run r [] = (r, [])
run r (op ∷ ops) =
    let (r', event) = step r op in let (last, events) = run r' ops in (last, event ∷ events)
