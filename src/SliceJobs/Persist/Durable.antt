-- ===== src/SliceJobs/Persist/Durable.antt =====
-- What is on disk is what is in memory.
use bambu_gateway.Prelude.{
  ℕ, ◌≡◌, refl, ap, ◌∙◌, String, none, some, List, [], ◌∷◌, ◌++◌, append-nil, append_assoc, arith,
  if◌then◌else◌, ◌==◌, string_eq, Option-cases, inl, inr,
}
use bambu_gateway.Prelude.Dict
use bambu_gateway.Prelude.Dict.{Dict, lookup-insert, lookup-remove}
use bambu_gateway.Prelude.Dict.Unique.{IsUnique, insert-IsUnique}
use bambu_gateway.SliceJobs.{
  SliceJobStatus, queued, slicing, uploading, ready, failed, cancelled, SliceJob, touch,
}
use bambu_gateway.SliceJobs.Persist.{
  StoredJob, status_value, status_of, with_status, to_dict, from_dict, JobStore, load_entries, load,
  records, flush, get, upsert, delete,
}

status_of-status_value :
    (s : SliceJobStatus)
    → status_of (if status_value s == "printing" then "ready" else status_value s) ≡ some s
unfolding status_of status_value
status_of-status_value queued = refl
status_of-status_value slicing = refl
status_of-status_value uploading = refl
status_of-status_value ready = refl
status_of-status_value failed = refl
status_of-status_value cancelled = refl

-- A job that is written to the file and read back is the same job, in every field and status.
pub from_dict-to_dict : (job : SliceJob) → from_dict (to_dict job) ≡ some job
unfolding from_dict to_dict with_status
from_dict-to_dict job = ground (arith, status_of-status_value job.status)

abbrev pub Keyed : Dict String SliceJob → Type 0
Keyed [] = Unit
Keyed ((k, job) ∷ jobs) = (job.id ≡ k) × Keyed jobs

-- Every job stands under its own id, and once.
pub record IsValid (jobs : Dict String SliceJob) : Type 0 where
  pub unique : IsUnique jobs
  pub keyed : Keyed jobs

pub insert-Keyed :
    (job : SliceJob) (jobs : Dict String SliceJob)
    → Keyed jobs
    → Keyed (Dict.insert job.id job jobs)
unfolding Dict.insert
insert-Keyed job [] h = (refl, tt)
insert-Keyed job ((k, old) ∷ jobs) h =
    ground (arith, insert-Keyed job jobs h.1, string_eq.eqb_iff k job.id)

remove-Keyed :
    (id : String) (jobs : Dict String SliceJob) → Keyed jobs → Keyed (Dict.remove id jobs)
unfolding Dict.remove
remove-Keyed id [] h = tt
remove-Keyed id ((k, old) ∷ jobs) h = ground (arith, remove-Keyed id jobs h.1)

-- Reading entries whose ids are new appends them.
insert_new :
    (k : String) (job : SliceJob) (m : Dict String SliceJob)
    → Dict.lookup k m ≡ none
    → Dict.insert k job m ≡ m ++ (k, job) ∷ []
unfolding Dict.lookup Dict.insert
insert_new k job [] h = refl
insert_new k job ((j, old) ∷ m) h = ground (arith, insert_new k job m)

lookup_parts :
    (k : String) (a b : Dict String SliceJob)
    → Dict.lookup k (a ++ b) ≡ none
    → (Dict.lookup k a ≡ none) × (Dict.lookup k b ≡ none)
unfolding Dict.lookup
lookup_parts k [] b h = (refl, h)
lookup_parts k ((j, v) ∷ a) b h = ground (arith, lookup_parts k a b)

IsUnique-middle :
    (k : String) (job : SliceJob) (acc rest : Dict String SliceJob)
    → IsUnique (acc ++ (k, job) ∷ rest)
    → Dict.lookup k acc ≡ none
unfolding Dict.lookup
IsUnique-middle k job [] rest u = refl
IsUnique-middle k job ((j, v) ∷ acc) rest u = ground (
  arith,
  IsUnique-middle k job acc rest u.1,
  lookup_parts j acc ((k, job) ∷ rest) u.0,
  string_eq.eqb_iff k j,
  string_eq.eqb_iff j k,
)

Keyed-middle :
    (k : String) (job : SliceJob) (acc rest : Dict String SliceJob)
    → Keyed (acc ++ (k, job) ∷ rest)
    → job.id ≡ k
Keyed-middle k job [] rest h = h.0
Keyed-middle k job ((j, v) ∷ acc) rest h = Keyed-middle k job acc rest h.1

module _ (job : SliceJob) (rest : List StoredJob) (acc : Dict String SliceJob) where
  load_entries-to_dict :
      load_entries (to_dict job ∷ rest) acc ≡ load_entries rest (Dict.insert job.id job acc)
  unfolding load_entries
  load_entries-to_dict = ground (arith, from_dict-to_dict job, id-to_dict)
    where
      id-to_dict : (to_dict job).id ≡ job.id
      id-to_dict = unfold to_dict with_status in refl

load_entries-records :
    (acc jobs : Dict String SliceJob)
    → IsValid (acc ++ jobs)
    → load_entries (records jobs) acc ≡ some (acc ++ jobs)
load_entries-records acc [] h = unfold load_entries in rw append-nil
load_entries-records acc ((k, job) ∷ jobs) h =
    let new = IsUnique-middle k job acc jobs h.unique in
    let id = Keyed-middle k job acc jobs h.keyed in
    load_entries-to_dict job (records jobs) acc
    ∙ ap (λ m. load_entries (records jobs) m)
        (ap (λ i. Dict.insert i job acc) id ∙ insert_new k job acc new)
    ∙ load_entries-records (acc ++ (k, job) ∷ []) jobs (rw append_assoc h)
    ∙ ap some (append_assoc acc ((k, job) ∷ []) jobs)

-- A gateway that starts again on the file.
abbrev pub restart : JobStore → JobStore
restart s = record s { jobs = none }

load-restart-flush :
    (jobs : Dict String SliceJob) (s : JobStore)
    → IsValid jobs
    → load (restart (flush jobs s)) ≡ some jobs
unfolding load flush
load-restart-flush jobs s h = load_entries-records [] jobs h

upsert-IsValid :
    (now : ℕ) (job : SliceJob) (jobs : Dict String SliceJob)
    → IsValid jobs
    → IsValid (Dict.insert job.id (touch now job) jobs)
unfolding touch
upsert-IsValid now job jobs h = record {
  unique = insert-IsUnique job.id (touch now job) jobs h.unique;
  keyed = insert-Keyed (touch now job) jobs h.keyed;
}

pub upsert_loaded :
    (now : ℕ) (job : SliceJob) (s : JobStore) (jobs : Dict String SliceJob)
    → load s ≡ some jobs
    → upsert now job s ≡ some (flush (Dict.insert job.id (touch now job) jobs) s)
unfolding upsert
upsert_loaded now job s jobs l = rw (l, upsert)

pub load-flush : (jobs : Dict String SliceJob) (s : JobStore) → load (flush jobs s) ≡ some jobs
unfolding load flush
load-flush jobs s = refl

-- After an upsert into a loaded store whose jobs stand under their ids, a restarted gateway loads
-- the jobs that the store holds: those of before with the job under its id, its time set to now.
pub load-restart-upsert :
    (now : ℕ) (job : SliceJob) (s s' : JobStore) (jobs : Dict String SliceJob)
    → load s ≡ some jobs
    → IsValid jobs
    → upsert now job s ≡ some s'
    → let jobs' = Dict.insert job.id (touch now job) jobs in
      (load (restart s') ≡ some jobs') × (load s' ≡ some jobs') × IsValid jobs'
load-restart-upsert now job s s' jobs l h e =
    let jobs' = Dict.insert job.id (touch now job) jobs in
    let done = upsert_loaded now job s jobs l in
    let same : flush jobs' s ≡ s' = cc in
    let valid = upsert-IsValid now job jobs h in
    (rw (← same) (load-restart-flush jobs' s valid), rw (← same) (load-flush jobs' s), valid)

pub get_loaded :
    (id : String) (s : JobStore) (jobs : Dict String SliceJob)
    → load s ≡ some jobs
    → get id s ≡ some (Dict.lookup id jobs)
unfolding get
get_loaded id s jobs l = rw (l, get)

pub delete_loaded :
    (id : String) (s s' : JobStore) (jobs : Dict String SliceJob)
    → load s ≡ some jobs
    → delete id s ≡ some s'
    → (left : Dict String SliceJob) × (load s' ≡ some left) × (Dict.lookup id left ≡ none)
unfolding delete load flush
delete_loaded id s s' jobs l d = elim (Option-cases (Dict.lookup id jobs)) [
  | inl e ↦ (jobs, ground (arith, l, e), e)
  | inr (job, e) ↦ (
    Dict.remove id jobs,
    ground (arith, l, e),
    rw (lookup-remove id id jobs, (string_eq.eqb_iff id id).1 refl),
  )
]

-- A deleted job is gone; but an upsert of the same job, as by the run that still works on it,
-- brings it back.
pub get-upsert_deleted :
    (now : ℕ) (job : SliceJob) (s s' s'' : JobStore) (jobs : Dict String SliceJob)
    → load s ≡ some jobs
    → delete job.id s ≡ some s'
    → upsert now job s' ≡ some s''
    → (get job.id s' ≡ some none) × (get job.id s'' ≡ some (some (touch now job)))
get-upsert_deleted now job s s' s'' jobs l d u =
    let (left, there, gone) = delete_loaded job.id s s' jobs l d in
    let done = upsert_loaded now job s' left there in
    let same : flush (Dict.insert job.id (touch now job) left) s' ≡ s'' = cc in
    (
      get_loaded job.id s' left there ∙ ap some gone,
      rw (← same) (
          get_loaded job.id _ _ (load-flush _ s')
          ∙ ap some (
              lookup-insert job.id job.id (touch now job) left
              ∙ rw ((string_eq.eqb_iff job.id job.id).1 refl))),
    )
