-- ===== src/Viewer/Snapshots.antt =====
-- The snapshots of viewer_sessions.rs hold the whole file.
use document_studio.Base.{
  ℕ, zero, suc, ◌+◌, ◌-◌, ◌^◌, ◌≤◌, ◌<◌, min, String, Bool, true, false, not, ◌&&◌, ltb, List, [],
  ◌∷◌, ◌++◌, length, take, drop, take-append-drop, Bool-cases, inl, inr, str_eq, ok, refuse_if,
  arith, ◌≡◌, refl, sym, ap, ◌∙◌,
}
use document_studio.Contracts.Errors.{OperationError}
use document_studio.Viewer.Errors.{source_changed, snapshot_cancelled, verification_cancelled}
use document_studio.Viewer.Sessions.{ViewerSession}
use document_studio.Viewer.Files.{
  World, snapshot_buffer_bytes, validate_unchanged, write_output, digest_passes, copy_snapshot,
  verify_unchanged_hash,
}
use document_studio.Viewer.Reads.{IsPartial, IsLive, drop-drop, read_exact_at_lem}

nothing_left : (n : ℕ) (xs : List ℕ) → length xs ≤ n → drop n xs ≡ []
nothing_left zero [] h = refl
nothing_left zero (x ∷ xs) h = absurd (omega (arith, h))
nothing_left (suc n) [] h = refl
nothing_left (suc n) (x ∷ xs) h = nothing_left n xs (omega (arith, h))

module _ (w : World) (content : List ℕ) (partial_ : IsPartial w.seek_read content)
    (live : IsLive w.seek_read content) (room : length content < 2 ^ 64)
    (goes_on : (offset : ℕ) → w.is_cancelled offset ≡ false)
    (writes : (offset : ℕ) → w.is_written offset ≡ true) where
  digest_passes_lem :
      (cancelled : OperationError) (has_output : Bool) (passes offset : ℕ)
      → offset ≤ length content
      → length content - offset ≤ passes
      → digest_passes w cancelled has_output (length content) passes offset
        ≡ ok (drop offset content)
  unfolding digest_passes write_output
  digest_passes_lem cancelled has_output zero offset inside enough =
      let done : ltb offset (length content) ≡ false = ground (arith, enough) in
      rw done (ap ok (sym (nothing_left offset content (omega (arith, enough)))))
  digest_passes_lem cancelled has_output (suc passes) offset inside enough =
      elim (Bool-cases (ltb offset (length content))) [
        | inr e ↦ rw (e, digest_passes) (ap ok (sym (nothing_left offset content (ground arith))))
        | inl e ↦
            let chunk = min (length content - offset) snapshot_buffer_bytes in
            let some_bytes : 1 ≤ chunk = ground arith in
            let fits : offset + chunk ≤ length content = omega (arith, inside) in
            let read = read_exact_at_lem w.seek_read content partial_ live room chunk offset fits in
            let more =
              digest_passes_lem cancelled has_output passes (offset + chunk) fits
                (omega (arith, enough, some_bytes)) in
            let taken : (has_output && false) ≡ false = ground arith in
            rw (e, digest_passes)
              (rw (goes_on offset) (
                rw read (
                  rw (writes offset) (
                    rw taken (
                      rw more (
                        ap ok (
                          ap (λ t. take chunk (drop offset content) ++ t)
                            (sym (drop-drop offset chunk content))
                          ∙ take-append-drop chunk (drop offset content))))))))
      ]

  -- When the file reads as documented, stays unchanged by the facts before and after, and the job is not
  -- cancelled and the output takes all bytes: a snapshot is the whole content, with its length and
  -- its digest, however many passes of at most 1 MiB it takes; and the check of a digest accepts
  -- exactly the digest of the content.
  pub copy_snapshot_whole :
      (sha256_hex : List ℕ → String) (s : ViewerSession) (expected_sha256 : String)
      → s.size_bytes ≡ length content
      → validate_unchanged w.before s ≡ ok tt
      → validate_unchanged w.after s ≡ ok tt
      → w.is_created ≡ true
      → w.is_synced ≡ true
      → (copy_snapshot sha256_hex w s ≡ ok (content, (length content, sha256_hex content)))
        × (verify_unchanged_hash sha256_hex w s expected_sha256
            ≡ refuse_if (not (str_eq (sha256_hex content) expected_sha256)) source_changed)
  unfolding copy_snapshot verify_unchanged_hash
  copy_snapshot_whole sha256_hex s expected_sha256 size before after created synced =
      let copied =
        digest_passes_lem snapshot_cancelled true (length content) 0 (omega arith) (omega arith) in
      let checked =
        digest_passes_lem verification_cancelled false (length content) 0 (omega arith)
          (omega arith) in
      (simp (before, created, size, copied, synced, after), simp (before, size, checked, after))
