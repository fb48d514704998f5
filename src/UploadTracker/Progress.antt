-- ===== src/UploadTracker/Progress.antt =====
-- What `progress` reports, alone and while a file is sent chunk by chunk.
use native.Mathlib.Nat.{le-div_iff_mul-le, div-lt_iff_lt-mul}
use bambu_gateway.Prelude.{
  ℕ, ◌+◌, ◌*◌, ◌/◌, ◌≤◌, ◌<◌, ◌≡◌, refl, ◌↔◌, String, List, [], ◌∷◌, arith, false,
}
use bambu_gateway.UploadTracker.{UploadState, Outcome, done, raised, new_upload, progress, advance}

div_full : (n d : ℕ) → 0 < d → d ≤ n → 100 ≤ n * 100 / d
div_full n d p h = (le-div_iff_mul-le p).1 (omega arith)

div_short : (n d : ℕ) → 0 < d → n < d → n * 100 / d < 100
div_short n d p h = (div-lt_iff_lt-mul p).1 (omega arith)

-- The reported progress never passes 100, and is 100 exactly for a non-empty file of which all
-- bytes have been sent.
pub progress_full :
    (u : UploadState)
    → (progress u ≤ 100)
      × ((progress u ≡ 100) ↔ ((0 < u.total_bytes) × (u.total_bytes ≤ u.bytes_sent)))
unfolding progress
progress_full u = (
  ground arith,
  (
    λ h. ground (arith, div_short u.bytes_sent u.total_bytes),
    λ h. ground (arith, div_full u.bytes_sent u.total_bytes),
  ),
)

abbrev pub sum : List ℕ → ℕ
sum [] = 0
sum (x ∷ xs) = x + sum xs

-- The callback of the transfer, for each chunk in turn, up to the first that raises.
pub transfer : List ℕ → UploadState → Outcome
transfer [] u = done u
transfer (c ∷ cs) u = elim (advance c u) [ done v ↦ transfer cs v | raised v ↦ raised v ]

transfer_lem :
    (cs : List ℕ) (u : UploadState)
    → u.cancelled ≡ false
    → transfer cs u ≡ done (record u { bytes_sent = u.bytes_sent + sum cs })
unfolding transfer advance
transfer_lem [] u h = ground arith
transfer_lem (c ∷ cs) u h =
    ground (arith, transfer_lem cs (record u { bytes_sent = u.bytes_sent + c }))

-- A new upload whose chunks are not cancelled is transferred to the end, without an error: the
-- bytes counted are the sum of the chunks, and the progress is 100 when they make up the file.
pub transfer-new_upload :
    (id file printer : String) (cs : List ℕ)
    → 0 < sum cs
    → (v : UploadState) × (transfer cs (new_upload id file printer (sum cs)) ≡ done v)
      × (v.bytes_sent ≡ sum cs)
      × (progress v ≡ 100)
unfolding new_upload
transfer-new_upload id file printer cs h =
    let u = new_upload id file printer (sum cs) in
    let v = record u { bytes_sent = u.bytes_sent + sum cs } in
    (v, transfer_lem cs u refl, omega arith, (progress_full v).1.1 (omega arith))
