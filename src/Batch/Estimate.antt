-- ===== src/Batch/Estimate.antt =====
-- The checked arithmetic of the disk estimate against its plain value.
use document_studio.Base.{
  ℕ, ◌+◌, ◌*◌, ◌<◌, ◌^◌, Bool, true, List, [], ◌∷◌, ◌≡◌, refl, inl, inr, arith, if◌then◌else◌, ltb,
  ok, err, Bool-cases, Result-cases, sym, ap, ◌∙◌,
}
use document_studio.Contracts.Errors.{OperationError}
use document_studio.Base.{ok-injective}
use document_studio.Batch.{size_overflow, larger, margin, estimate_sizes, estimate_disk_sizes}

-- What the largest file needs in the workspace: twice its size and the margin.
abbrev pub peak_of : List ℕ → ℕ
peak_of [] = 0
peak_of (size ∷ sizes) = larger (size * 2 + margin size) (peak_of sizes)

-- What all files need in the destination: their sizes and margins.
abbrev pub total_of : List ℕ → ℕ
total_of [] = 0
total_of (size ∷ sizes) = size + margin size + total_of sizes

larger_assoc : (a b c : ℕ) → larger (larger a b) c ≡ larger a (larger b c)
larger_assoc a b c = ground arith

larger_zero : (a : ℕ) → larger a 0 ≡ a
larger_zero a = ground arith

-- One size is added when it fits.
add_size :
    (peak total size : ℕ) (sizes : List ℕ)
    → size * 2 + margin size < 2 ^ 64
    → total + (size + margin size) < 2 ^ 64
    → estimate_sizes peak total (size ∷ sizes)
      ≡ estimate_sizes (larger peak (size * 2 + margin size)) (total + (size + margin size)) sizes
unfolding estimate_sizes
add_size peak total size sizes w d =
    let doubled : ltb (size * 2) (2 ^ 64) ≡ true = ground (arith, w) in
    let workspace : ltb (size * 2 + margin size) (2 ^ 64) ≡ true = ground (arith, w) in
    let destination : ltb (size + margin size) (2 ^ 64) ≡ true = ground (arith, d) in
    let sum : ltb (total + (size + margin size)) (2 ^ 64) ≡ true = ground (arith, d) in
    rw (doubled, workspace, destination, sum) refl

-- The sizes are added when the sum of the peak and the total fits.
sizes_that_fit :
    (peak total : ℕ) (sizes : List ℕ)
    → larger peak (peak_of sizes) + (total + total_of sizes) < 2 ^ 64
    → estimate_sizes peak total sizes ≡ ok (larger peak (peak_of sizes), total + total_of sizes)
sizes_that_fit peak total [] h = unfold estimate_sizes in rw (larger_zero peak) (ground arith)
sizes_that_fit peak total (size ∷ sizes) h =
    let w = size * 2 + margin size in
    let d = size + margin size in
    let moved : total + d + total_of sizes ≡ total + (d + total_of sizes) = omega arith in
    let fits : larger (larger peak w) (peak_of sizes) + (total + d + total_of sizes) < 2 ^ 64 =
      rw (larger_assoc peak w (peak_of sizes), moved) h in
    let one = add_size peak total size sizes (ground (arith, h)) (ground (arith, h)) in
    rw one (
      rw (sizes_that_fit (larger peak w) (total + d) sizes fits)
        (rw (larger_assoc peak w (peak_of sizes), moved) refl))

cons_fits :
    (peak total size : ℕ) (sizes : List ℕ) (r : ℕ × ℕ)
    → estimate_sizes peak total (size ∷ sizes) ≡ ok r
    → (size * 2 + margin size < 2 ^ 64) × (total + (size + margin size) < 2 ^ 64)
unfolding estimate_sizes
cons_fits peak total size sizes r h = (ground (arith, h), ground (arith, h))

-- Whatever the loop returns is the peak and the total.
sizes_returned :
    (peak total : ℕ) (sizes : List ℕ) (r : ℕ × ℕ)
    → estimate_sizes peak total sizes ≡ ok r
    → r ≡ (larger peak (peak_of sizes), total + total_of sizes)
sizes_returned peak total [] r h =
    let same : (peak, total) ≡ r = ok-injective {E = OperationError} (unfold estimate_sizes in h) in
    sym same ∙ rw (larger_zero peak) (ground arith)
sizes_returned peak total (size ∷ sizes) r h =
    let (fits, sum_fits) = cons_fits peak total size sizes r h in
    let rest = sym (add_size peak total size sizes fits sum_fits) ∙ h in
    sizes_returned (larger peak (size * 2 + margin size)) (total + (size + margin size)) sizes r
      rest
    ∙ rw (larger_assoc peak (size * 2 + margin size) (peak_of sizes)) (ground arith)

larger_of_zero : (a : ℕ) → larger 0 a ≡ a
larger_of_zero a = ground arith

from_nothing :
    (sizes : List ℕ)
    → ◌≡◌ {A = ℕ × ℕ} (larger 0 (peak_of sizes), 0 + total_of sizes) (peak_of sizes, total_of sizes)
from_nothing sizes =
    let plain : 0 + total_of sizes ≡ total_of sizes = omega arith in
    rw (larger_of_zero (peak_of sizes), plain) refl

-- The loop has no other error.
only_overflow :
    (peak total : ℕ) (sizes : List ℕ) (x : OperationError)
    → estimate_sizes peak total sizes ≡ err x
    → x ≡ size_overflow
unfolding estimate_sizes
only_overflow peak total [] x h = cc
only_overflow peak total (size ∷ sizes) x h = elim (Bool-cases (ltb (size * 2) (2 ^ 64))) [
  | inl a ↦ elim (Bool-cases (ltb (size * 2 + margin size) (2 ^ 64))) [
    | inl b ↦ elim (Bool-cases (ltb (total + (size + margin size)) (2 ^ 64))) [
      | inl c ↦
          let one = add_size peak total size sizes (ground (arith, b)) (ground (arith, c)) in
          only_overflow (larger peak (size * 2 + margin size)) (total + (size + margin size)) sizes
            x (sym one ∙ h)
      | inr c ↦ ground (arith, h, a, b, c)
    ]
    | inr b ↦ ground (arith, h, a, b)
  ]
  | inr a ↦ ground (arith, h, a)
]

-- The estimate of a batch is the one that exact arithmetic gives, whenever it fits: the call
-- returns the largest need of the workspace, the sum of the needs of the destination and their sum,
-- and it fails with the overflow error exactly when that last sum does not fit in 64 bits.
pub estimate_disk_sizes-exact :
    (sizes : List ℕ) (shared_volume : Bool)
    → estimate_disk_sizes sizes shared_volume ≡ (
        if ltb (peak_of sizes + total_of sizes) (2 ^ 64)
        then ok (record {
          workspace_peak_bytes = peak_of sizes;
          destination_total_bytes = total_of sizes;
          combined_required_bytes = peak_of sizes + total_of sizes;
          workspace_and_destination_share_volume = shared_volume;
        })
        else err size_overflow)
unfolding estimate_disk_sizes
estimate_disk_sizes-exact sizes shared_volume =
    elim (Bool-cases (ltb (peak_of sizes + total_of sizes) (2 ^ 64))) [
      | inl fits ↦
          let whole = sizes_that_fit 0 0 sizes (ground (arith, fits)) in
          rw (whole ∙ ap ok (from_nothing sizes), fits) refl
      | inr over ↦ elim (Result-cases (estimate_sizes 0 0 sizes)) [
        | inl (r, e) ↦ rw (e, sizes_returned 0 0 sizes r e ∙ from_nothing sizes, over) refl
        | inr (x, e) ↦ rw (e, over, only_overflow 0 0 sizes x e) refl
      ]
    ]
