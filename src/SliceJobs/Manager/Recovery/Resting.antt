-- ===== src/SliceJobs/Manager/Recovery/Resting.antt =====
-- No job is left in the course of slicing or uploading.
use mathlib.Core.Option.{some-injective, none-ne-some}
use bambu_gateway.Prelude.{
  ℕ, ◌≡◌, refl, sym, ap, ◌∙◌, String, Bool, true, Option, none, some, List, [], ◌∷◌, ◌==◌,
  string_eq, is_in, if_both,
}
use bambu_gateway.Prelude.Dict
use bambu_gateway.Prelude.Dict.{Dict, lookup-insert}
use bambu_gateway.SliceJobs.{
  SliceJobStatus, queued, slicing, uploading, ready, failed, cancelled, status_eq, SliceJob, touch,
}
use bambu_gateway.SliceJobs.Persist.{load}
use bambu_gateway.SliceJobs.Persist.Durable.{IsValid}
use bambu_gateway.SliceJobs.Manager.{Manager, interrupt, recover_on_startup}
use bambu_gateway.SliceJobs.Manager.Handled.{with_thumbnail, recovered_as, recovered}
use bambu_gateway.SliceJobs.Manager.Recovery.{map_option, recover_on_startup_lem}

unfoldable pub is_resting : SliceJobStatus → Bool
is_resting s = is_in s (queued ∷ ready ∷ failed ∷ cancelled ∷ [])

module _ (extract : List ℕ → ℕ → Option String) (now : String → ℕ)
    (blobs : Dict String (List ℕ)) where
  with_thumbnail-status :
      (t : ℕ) (job : SliceJob) (o : Option String) → (with_thumbnail t job o).status ≡ job.status
  unfolding touch
  with_thumbnail-status t job none = refl
  with_thumbnail-status t job (some u) =
      if_both (λ (j : SliceJob). j.status ≡ job.status) (u == "") refl refl

  resting_as :
      (s : SliceJobStatus) (job : SliceJob) (t : ℕ)
      → job.status ≡ s
      → is_resting (recovered_as s extract blobs t job).status ≡ true
  unfolding is_resting interrupt touch
  resting_as queued job t e = rw e
  resting_as slicing job t e = refl
  resting_as uploading job t e = refl
  resting_as ready job t e = rw (with_thumbnail-status t job _, e)
  resting_as failed job t e = rw e
  resting_as cancelled job t e = rw e

  resting_option :
      (o : Option SliceJob) (job : SliceJob)
      → map_option (recovered extract blobs now) o ≡ some job
      → is_resting job.status ≡ true
  unfolding recovered
  resting_option none job e = absurd (none-ne-some job e)
  resting_option (some old) job e =
      rw (← some-injective (recovered_as old.status extract blobs (now old.id) old) job e)
        (resting_as old.status old (now old.id) refl)

-- After the recovery of a loaded store whose jobs stand under their ids, no job of the store is in
-- slicing or uploading.
pub recover_on_startup-is_resting :
    (extract : List ℕ → ℕ → Option String) (now : String → ℕ) (m next : Manager)
    (jobs left : Dict String SliceJob) (k : String) (job : SliceJob)
    → load m.store ≡ some jobs
    → IsValid jobs
    → recover_on_startup extract now m ≡ some next
    → load next.store ≡ some left
    → Dict.lookup k left ≡ some job
    → is_resting job.status ≡ true
recover_on_startup-is_resting extract now m next jobs left k job l valid done there f =
    let (next', left', done', there', found, ids) =
      recover_on_startup_lem extract now m jobs l valid in
    let same : next' ≡ next = some-injective next' next (sym done' ∙ done) in
    let same_left : left' ≡ left =
      some-injective left' left (sym there' ∙ ap (λ (n : Manager). load n.store) same ∙ there) in
    resting_option extract now m.store.blobs (Dict.lookup k jobs) job
      (sym (found k) ∙ ap (λ d. Dict.lookup k d) same_left ∙ f)
