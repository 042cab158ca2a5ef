-- ===== src/Viewer/Files.antt =====
-- `read_exact_at`, `validate_unchanged` and the reads of a `ViewerJobSource` of viewer_sessions.rs. The
-- file system, the cancellation of a job and SHA-256 are parameters.
use document_studio.Base.{
  ℕ, zero, suc, ◌+◌, ◌-◌, ◌*◌, min, String, Bool, true, false, not, ◌&&◌, ◌||◌, ltb, ◌==◌, List, [],
  ◌++◌, length, Option, if◌then◌else◌, str_eq, Result, ok, err, ◌>>=◌, ◌>>◌, refuse_if, ok_or,
  map_err,
}
use document_studio.Contracts.Errors.{OperationError}
use document_studio.TextToPdf.Html.{checked_usize}
use document_studio.TextToPdf.Fonts.Bytes.{Failure}
use document_studio.Viewer.Errors.{
  source_changed, text_size_limit, snapshot_failed, text_read_cancelled, snapshot_cancelled,
  verification_cancelled,
}
use document_studio.Viewer.Sessions.{ViewerSession}

abbrev pub snapshot_buffer_bytes : ℕ
snapshot_buffer_bytes = 1024 * 1024

-- `seek_read`: at most so many bytes from an offset on, or an error.
abbrev pub SeekRead : Type 0
SeekRead = ℕ → ℕ → Option (List ℕ)

-- The loop of `read_exact_at`, whose buffer has `left` bytes left; each pass reads one byte at least,
-- so that as many passes as bytes are enough. `u64` has the range of `usize`.
unfoldable pub read_passes : SeekRead → ℕ → ℕ → ℕ → Result Failure (List ℕ)
read_passes seek_read zero left offset = if left == 0 then ok [] else err tt
read_passes seek_read (suc passes) left offset = elim (left == 0) [
  | true ↦ ok []
  | false ↦ ok_or (seek_read left offset) tt >>= λ bytes.
      refuse_if (length bytes == 0) tt
      >> (ok_or (checked_usize (offset + length bytes)) tt >>= λ next.
          read_passes seek_read passes (left - length bytes) next >>= λ rest. ok (bytes ++ rest))
]

unfoldable pub read_exact_at : SeekRead → ℕ → ℕ → Result Failure (List ℕ)
read_exact_at seek_read size offset = read_passes seek_read size size offset

-- What the file system says of a session's file when it is asked again.
pub record Facts : Type 0 where
  pub metadata : Option (ℕ × Option String)
  pub identity : Option String
  pub canonical : Option (String × String)

unfoldable pub validate_unchanged : Facts → ViewerSession → Result OperationError (Unit {0})
validate_unchanged facts s = do
  (len, modified) ← ok_or facts.metadata source_changed
  modified_at ← ok_or modified source_changed
  identity ← ok_or facts.identity source_changed
  (current_path, current_identity) ← ok_or facts.canonical source_changed
  refuse_if
      (not (len == s.size_bytes)
        || (not (str_eq modified_at s.modified_at)
            || (not (str_eq identity s.identity)
                || (not (str_eq current_identity s.identity)
                    || not (str_eq current_path s.source_path)))))
      source_changed

-- The world of one read of a whole source: the file, the facts before and after, whether the job is
-- cancelled when a pass begins at an offset, and whether the output takes the bytes there.
pub record World : Type 0 where
  pub seek_read : SeekRead
  pub before : Facts
  pub after : Facts
  pub is_cancelled : ℕ → Bool
  pub is_created : Bool
  pub is_written : ℕ → Bool
  pub is_synced : Bool

module _ (sha256_hex : List ℕ → String) where
  unfoldable pub read_all_bounded :
      World → ViewerSession → ℕ → Result OperationError (List ℕ × String)
  read_all_bounded w s maximum = do
    validate_unchanged w.before s
    refuse_if (ltb maximum s.size_bytes) text_size_limit
    refuse_if (w.is_cancelled 0) text_read_cancelled
    bytes ← map_err (λ e. source_changed) (read_exact_at w.seek_read s.size_bytes 0)
    validate_unchanged w.after s
    ok (bytes, sha256_hex bytes)

-- `write_all`; the check of a hash has no output.
unfoldable pub write_output : World → Bool → ℕ → Result OperationError (Unit {0})
write_output w has_output offset =
    refuse_if (has_output && not (w.is_written offset)) snapshot_failed

-- The loops of `copy_snapshot` and `verify_unchanged_hash`, which differ in the error of a cancelled job
-- and in the output: the bytes that the digest has seen. Each pass takes one byte at least.
unfoldable pub digest_passes :
    World → OperationError → Bool → ℕ → ℕ → ℕ → Result OperationError (List ℕ)
digest_passes w cancelled has_output size zero offset =
    if ltb offset size then err snapshot_failed else ok []
digest_passes w cancelled has_output size (suc passes) offset = elim (ltb offset size) [
  | false ↦ ok []
  | true ↦
      refuse_if (w.is_cancelled offset) cancelled
      >> (map_err (λ e. source_changed)
            (read_exact_at w.seek_read (min (size - offset) snapshot_buffer_bytes) offset)
          >>= λ bytes.
              write_output w has_output offset
              >> (digest_passes w cancelled has_output size passes
                    (offset + min (size - offset) snapshot_buffer_bytes)
                  >>= λ rest. ok (bytes ++ rest)))
]

module _ (sha256_hex : List ℕ → String) where
  -- The output's bytes, the final offset and the digest.
  unfoldable pub copy_snapshot :
      World → ViewerSession → Result OperationError (List ℕ × (ℕ × String))
  copy_snapshot w s = do
    validate_unchanged w.before s
    refuse_if (not w.is_created) snapshot_failed
    bytes ← digest_passes w snapshot_cancelled true s.size_bytes s.size_bytes 0
    refuse_if (not w.is_synced) snapshot_failed
    validate_unchanged w.after s
    ok (bytes, (length bytes, sha256_hex bytes))

  unfoldable pub verify_unchanged_hash :
      World → ViewerSession → String → Result OperationError (Unit {0})
  verify_unchanged_hash w s expected_sha256 = do
    validate_unchanged w.before s
    bytes ← digest_passes w verification_cancelled false s.size_bytes s.size_bytes 0
    validate_unchanged w.after s
    refuse_if (not (str_eq (sha256_hex bytes) expected_sha256)) source_changed
