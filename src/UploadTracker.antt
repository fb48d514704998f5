-- ===== src/UploadTracker.antt =====
-- app/upload_tracker.py. Times are milliseconds; the id and the clock are read from the caller's
-- arguments. `int(sent * 100 / total)` is exact floor division for files below 2^46 bytes.
pub mod Progress
pub mod Cancel
pub mod Registry
mod Tests
use bambu_gateway.Prelude.{
  ℕ, ◌+◌, ◌*◌, ◌/◌, min, String, Bool, true, false, ◌&&◌, Option, none, some, List, [], ◌∷◌, ltb,
  leb, if◌then◌else◌, is_in, ◌==◌, string_eq,
}
use bambu_gateway.Prelude.Dict
use bambu_gateway.Prelude.Dict.{Dict}

pub record UploadState : Type 0 where
  pub upload_id : String
  pub filename : String
  pub printer_id : String
  pub total_bytes : ℕ
  pub bytes_sent : ℕ
  pub status : String
  pub error : Option String
  pub cancelled : Bool

unfoldable pub new_upload : String → String → String → ℕ → UploadState
new_upload upload_id filename printer_id total_bytes = record {
  upload_id = upload_id;
  filename = filename;
  printer_id = printer_id;
  total_bytes = total_bytes;
  bytes_sent = 0;
  status = "uploading";
  error = none;
  cancelled = false;
}

unfoldable pub progress : UploadState → ℕ
progress u = if leb u.total_bytes 0 then 0 else min 100 (u.bytes_sent * 100 / u.total_bytes)

-- `raised` stands for `UploadCancelledError`; the state is that after the call.
pub data Outcome : Type 0 where
  done : UploadState → Outcome
  raised : UploadState → Outcome

unfoldable pub advance : ℕ → UploadState → Outcome
advance chunk_size u =
    if u.cancelled then raised u else done (record u { bytes_sent = u.bytes_sent + chunk_size })

unfoldable pub complete : UploadState → UploadState
complete u = record u { bytes_sent = u.total_bytes; status = "completed" }

unfoldable pub cancel : UploadState → UploadState
cancel u = record u { cancelled = true; status = "cancelled" }

unfoldable pub fail : String → UploadState → UploadState
fail error u = record u { status = "failed"; error = some error }

unfoldable pub set_status : String → UploadState → UploadState
set_status status u = record u { status = status }

-- The reply of the status endpoint.
pub record UploadView : Type 0 where
  pub upload_id : String
  pub filename : String
  pub printer_id : String
  pub status : String
  pub progress : ℕ
  pub bytes_sent : ℕ
  pub total_bytes : ℕ
  pub error : Option String

unfoldable pub to_dict : UploadState → UploadView
to_dict u = record {
  upload_id = u.upload_id;
  filename = u.filename;
  printer_id = u.printer_id;
  status = u.status;
  progress = progress u;
  bytes_sent = u.bytes_sent;
  total_bytes = u.total_bytes;
  error = u.error;
}

abbrev pub expiry_seconds : ℕ
expiry_seconds = 120

-- The registry; an entry is the upload, which its holder goes on to mutate, and its creation time.
abbrev pub Tracker : Type 0
Tracker = Dict String (UploadState × ℕ)

unfoldable pub is_expired : ℕ → UploadState × ℕ → Bool
is_expired now (state, ts) =
    is_in state.status ("completed" ∷ "failed" ∷ "cancelled" ∷ [])
    && ltb (ts + expiry_seconds * 1000) now

unfoldable pub cleanup : ℕ → Tracker → Tracker
cleanup now = Dict.retain (λ entry. if is_expired now entry then false else true)

-- `uploads[upload_id] = ...` after the clean-up; both read the clock, the write no earlier.
unfoldable pub create : String → String → String → ℕ → ℕ → ℕ → Tracker → UploadState × Tracker
create upload_id filename printer_id total_bytes now now' uploads =
    let state = new_upload upload_id filename printer_id total_bytes in
    (state, Dict.insert upload_id (state, now') (cleanup now uploads))

unfoldable pub get : String → Tracker → Option UploadState
get upload_id uploads = elim (Dict.lookup upload_id uploads) [ none ↦ none | some e ↦ some e.0 ]

unfoldable pub remove : String → Tracker → Tracker
remove upload_id uploads = Dict.remove upload_id uploads

-- A method call on the upload that `get` or `create` handed out: the registry holds that object.
unfoldable pub mutate : String → (UploadState → UploadState) → Tracker → Tracker
mutate upload_id f [] = []
mutate upload_id f ((j, (state, ts)) ∷ m) =
    (j, (if j == upload_id then f state else state, ts)) ∷ mutate upload_id f m
