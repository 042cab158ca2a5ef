-- ===== src/Lib.antt =====
-- document_studio: the core of the desktop application's Rust backend.
--
-- Document Studio (apps/desktop/src-tauri/src) runs operations on documents as jobs. A request is
-- validated, a job with its outputs is stored, a worker takes it from state to state, its outputs
-- are staged, verified and published under names that are free, and it ends as completed, failed or
-- cancelled; after a crash the stored rows decide what is recovered. The parts modelled here:
--
-- Base            lists, options, results and texts that the other files share. A `Text` is a list
--                 of code points; a `String` is a text that is only compared.
-- Contracts       contracts.rs: the enumerations with their wire spelling (`as_str`,
--                 `from_contract`), the records of a job and the page plans.
-- JobEngine       job_engine.rs: `can_transition`, `is_cancellable` and `apply_transition`; a
--                 `&mut JobRecord` is passed and returned.
-- Cancellation    app_state.rs: `CancellationToken` as a cell of an explicit store and
--                 `CancellationRegistry` as the map to the cells, so that aliasing is visible; each
--                 atomic access is one step, and an interleaving of threads is a list of steps.
-- OutputNames     path_policy.rs (`validate_output_name`) and publication.rs (`collision_name`).
-- PagePlan        page_plan.rs: `validate_plan` with its helpers. JSON, SHA-256 and the clock are
--                 parameters.
-- JobStore        database.rs: the tables of the jobs as lists of rows, SQL's UPDATE and SELECT as
--                 functions on them, and the operations of `Database` that change a job's state, its
--                 progress, the publication of its outputs or its stage runs. A failed statement or
--                 transaction is an error value without new tables. `Steps` puts the operations into
--                 sequences of calls.
-- Registry        operation_registry.rs: the manifests and the two validations. The manifests' JSON
--                 schemas are values of a JSON type in Contracts.Manifests.
-- TextToPdf       text_to_pdf.rs: `preflight_text` with the loop over the characters, its cache and the
--                 checks around a joiner, `canonical_html`, `canonical_css` and
--                 `total_response_bytes`; in Fonts, `Sfnt` with its tables, names and character
--                 maps, and `validate_approved_fonts`. UTF-8 is in Base.Utf8. The bytes of the
--                 fonts and SHA-256 are parameters.
-- Viewer          viewer_sessions.rs: an `Arc<ViewerSession>` is a cell of a store, each call on the
--                 manager that holds its mutex is a function on the manager, and a sequence of
--                 calls is an interleaving of threads (Calls). During the read of a range, other
--                 threads may change the manager in any way. `read_exact_at` and the loops of the
--                 snapshots run on as many passes as there are bytes, since each pass takes one
--                 byte at least.
-- Batch           batch.rs: `estimate_disk_sizes` and `plan_collisions_against_names`; Windows'
--                 comparison of file names is a parameter.
--
-- The parts meet in these places: the job store asks `can_transition` of the job engine; page plans,
-- batches and the registry ask `validate_output_name` of the name policy; a viewer session of a text
-- has the size limit of the preflight; and all of them use the types of the contracts.
--
-- Numbers are the native naturals. Where the source adds to a `u64`, the sum is taken modulo 2 ^ 64;
-- where SQLite adds to an integer column, a row beyond 2 ^ 63 - 1 fails the statement, as the other
-- `CHECK`s of the schema (migrations/0002_jobs.sql) do that these writes could break. `checked_add`
-- on `u32`, `u64` and `usize` (of 64 bits) is written out. Fuel is used in the two places named
-- under Viewer only; every other function is structurally recursive.
--
-- Not modelled: the rest of batch.rs; the creation and reading back of jobs, batches, settings,
-- retention and migrations of database.rs; recovery.rs; the services that drive qpdf, WebView2, image
-- codecs and the file system; the command handlers of ipc.rs; and the TypeScript user interface.
pub mod Base
pub mod Contracts
pub mod JobEngine
pub mod Cancellation
pub mod OutputNames
pub mod PagePlan
pub mod JobStore
pub mod Batch
pub mod Registry
pub mod TextToPdf
pub mod Viewer
