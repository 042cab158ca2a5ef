-- ===== src/Viewer/Tests.antt =====
-- A file of six bytes that is read at most two at a time, a session over it, and the theorems of this
-- component at them.
use document_studio.Base.{
  ℕ, zero, suc, ◌≤◌, ◌<◌, min, true, false, List, [], ◌∷◌, length, length-drop, take, drop, All,
  some, ok, err, arith, ◌≡◌, refl, ap, subst,
}
use document_studio.Base.Maps.{some-injective}
use document_studio.Base.Text.{codes, text_eq, ascii_lower, starts_with}
use document_studio.Viewer.Errors.{session_expired, source_changed}
use document_studio.Viewer.Sessions.{
  SessionKind, ViewerSession, ViewerSessionManager, is_expired, retain_live, add_session,
  new_session, open_pdf, of_generation, find_session, drop_expired, touch, get, close,
  contains_generation,
}
use document_studio.Viewer.Checks.{
  Inspection, non_empty, has_extension, open_viewer_file, has_pdf_magic, inspect_pdf,
}
use document_studio.Viewer.Calls.{Call, opens_pdf, perform, run}
use document_studio.Viewer.Generations.{new_manager, run_limited}
use document_studio.Viewer.Closing.{close_is_final}
use document_studio.Viewer.Files.{
  SeekRead, read_passes, read_exact_at, Facts, World, validate_unchanged, copy_snapshot,
  verify_unchanged_hash,
}
use document_studio.Viewer.Reads.{IsPartial, IsLive, read_exact_at_lem}
use document_studio.Viewer.Snapshots.{copy_snapshot_whole}
use document_studio.Viewer.Ranges.{
  ViewerRangeRequest, set_reads, acquire_read, check_range, read_bytes, still_open, release_read,
  read_with_permit, read_session, read_range,
}
use document_studio.Viewer.Answers.{IsAnswer, read_range_sound}

abbrev content : List ℕ
content = 37 ∷ 80 ∷ 68 ∷ 70 ∷ 45 ∷ 10 ∷ []

abbrev slow_file : SeekRead
slow_file size offset = some (take (min size 2) (drop offset content))

taken_twice : (n : ℕ) (xs : List ℕ) → take n xs ≡ take (length (take n xs)) xs
taken_twice zero xs = refl
taken_twice (suc n) [] = refl
taken_twice (suc n) (x ∷ xs) = ap (λ t. x ∷ t) (taken_twice n xs)

length-take_bound : (n : ℕ) (xs : List ℕ) → length (take n xs) ≤ n
length-take_bound zero xs = omega arith
length-take_bound (suc n) [] = omega arith
length-take_bound (suc n) (x ∷ xs) = omega (arith, length-take_bound n xs)

takes_some : (n : ℕ) (xs : List ℕ) → 1 ≤ n → 1 ≤ length xs → 1 ≤ length (take n xs)
takes_some zero xs a b = omega (arith, a)
takes_some (suc n) [] a b = omega (arith, b)
takes_some (suc n) (x ∷ xs) a b = omega arith

slow_file-IsPartial : IsPartial slow_file content
slow_file-IsPartial size offset bytes h =
    let same = some-injective (take (min size 2) (drop offset content)) bytes h in
    subst (λ b. (length b ≤ size) × (b ≡ take (length b) (drop offset content))) same
      (
        omega (arith, length-take_bound (min size 2) (drop offset content)),
        taken_twice (min size 2) (drop offset content),
      )

slow_file-IsLive : IsLive slow_file content
slow_file-IsLive size offset a b = (
  take (min size 2) (drop offset content),
  refl,
  takes_some (min size 2) (drop offset content) (omega (arith, a))
      (omega (arith, b, length-drop offset content)),
)

read_exact_at_lem_example : read_exact_at slow_file 4 1 ≡ ok (80 ∷ 68 ∷ 70 ∷ 45 ∷ [])
read_exact_at_lem_example =
    read_exact_at_lem slow_file content slow_file-IsPartial slow_file-IsLive (omega arith) 4 1
      (omega arith)

abbrev found : Inspection
found = record {
  canonical = some ("C:\\a.pdf", "volume:1");
  file_name = some "a.pdf";
  extension = some (codes "PDF");
  opened = ok 7;
  identity = some "volume:1";
  is_file = true;
  len = 6;
  has_metadata = true;
  header = some content;
  modified_at = some "2026-01-01";
}

abbrev session : ViewerSession
session = record {
  id = "a";
  generation = 1;
  source_path = "C:\\a.pdf";
  file = 7;
  identity = "volume:1";
  size_bytes = 6;
  modified_at = "2026-01-01";
  display_name = "a.pdf";
  created_at = 10;
  last_access = 10;
  active = true;
  reads_in_flight = 0;
  kind = SessionKind.pdf;
}

abbrev no_cells : ℕ → ViewerSession
no_cells address = session

abbrev one_open : List Call
one_open = opens_pdf 10 "a" found ∷ []

run_limited_example :
    (length (run one_open (new_manager no_cells)).sessions ≤ 2)
    × All
        (λ entry.
          ((run one_open (new_manager no_cells)).cell (entry.1)).generation
          < (run one_open (new_manager no_cells)).next_generation)
        (run one_open (new_manager no_cells)).sessions
run_limited_example = run_limited no_cells one_open (omega arith)

closes_once : (close "a" 1 (run one_open (new_manager no_cells))).1 ≡ ok tt
unfolding run perform open_pdf inspect_pdf non_empty has_extension text_eq ascii_lower
    open_viewer_file has_pdf_magic starts_with add_session retain_live is_expired new_session
    new_manager find_session of_generation close
closes_once = refl

close_is_final_example :
    ((get 20 "a" 1 (run one_open ((close "a" 1 (run one_open (new_manager no_cells))).0))).1
      ≡ err session_expired)
    × (contains_generation
          (run one_open ((close "a" 1 (run one_open (new_manager no_cells))).0))
          "a"
          1
        ≡ false)
close_is_final_example =
    close_is_final no_cells one_open one_open "a" 1 20 (omega arith) closes_once

abbrev unchanged : Facts
unchanged = record {
  metadata = some (6, some "2026-01-01");
  identity = some "volume:1";
  canonical = some ("C:\\a.pdf", "volume:1");
}

abbrev calm : World
calm = record {
  seek_read = slow_file;
  before = unchanged;
  after = unchanged;
  is_cancelled = λ offset. false;
  is_created = true;
  is_written = λ offset. true;
  is_synced = true;
}

copy_snapshot_whole_example :
    (copy_snapshot (λ bytes. "digest") calm session ≡ ok (content, (6, "digest")))
    × (verify_unchanged_hash (λ bytes. "digest") calm session "other" ≡ err source_changed)
unfolding validate_unchanged
copy_snapshot_whole_example =
    copy_snapshot_whole calm content slow_file-IsPartial slow_file-IsLive (omega arith)
      (λ offset. refl) (λ offset. refl) (λ bytes. "digest") session "other" refl refl refl refl refl

abbrev first_bytes : ViewerRangeRequest
first_bytes = record { session_id = "a"; generation = 1; begin = 0; end = 5 }

abbrev opened : ViewerSessionManager
opened = record {
  sessions = ("a", 0) ∷ [];
  cell = no_cells;
  next_cell = 1;
  destination_grants = [];
  next_generation = 2;
  drop_enabled = false;
}

first_bytes_read :
    (read_range (λ file. slow_file) unchanged (λ m. m) 20 first_bytes opened).1
    ≡ ok (37 ∷ 80 ∷ 68 ∷ 70 ∷ 45 ∷ [])
unfolding read_range read_session read_with_permit read_bytes check_range acquire_read set_reads
    release_read still_open read_exact_at read_passes validate_unchanged get drop_expired is_expired
    touch find_session of_generation contains_generation
first_bytes_read = refl

read_range_sound_example :
    (address : ℕ) × (permitted : ViewerSessionManager) × ((get 20 "a" 1 opened).1 ≡ ok address)
    × (acquire_read address ((get 20 "a" 1 opened).0) ≡ ok permitted)
    × IsAnswer content unchanged (permitted.cell address) first_bytes (37 ∷ 80 ∷ 68 ∷ 70 ∷ 45 ∷ [])
    × (still_open permitted address ≡ true)
read_range_sound_example =
    read_range_sound (λ file. slow_file) (λ file. content) unchanged (λ m. m) 20 first_bytes opened
      (37 ∷ 80 ∷ 68 ∷ 70 ∷ 45 ∷ []) (λ file. slow_file-IsPartial) first_bytes_read
