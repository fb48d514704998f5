-- ===== src/UploadTracker/Tests.antt =====
-- Runs of the tracker, and the theorems at concrete inputs.
use bambu_gateway.Prelude.{◌≡◌, refl, false, none, some, [], ◌∷◌, string_eq}
use bambu_gateway.Prelude.Dict
use bambu_gateway.Prelude.Dict.Unique.{IsUnique}
use bambu_gateway.UploadTracker.{
  UploadState, Tracker, raised, progress, advance, cancel, create, get, cleanup, is_expired,
}
use bambu_gateway.UploadTracker.Cancel.{run, advances, completes, fails, cancel_sticks}

abbrev half_sent : UploadState
half_sent = record {
  upload_id = "u1";
  filename = "gear.3mf";
  printer_id = "p1";
  total_bytes = 10;
  bytes_sent = 5;
  status = "uploading";
  error = none;
  cancelled = false;
}

progress_half : progress half_sent ≡ 50
unfolding progress
progress_half = refl

cancel_sticks_example :
    let v = run (advances 3 ∷ completes ∷ fails "late" ∷ []) (cancel half_sent) in
    (advance 1 v ≡ raised v) × (v.bytes_sent ≡ 10)
cancel_sticks_example = cancel_sticks half_sent (advances 3 ∷ completes ∷ fails "late" ∷ []) 1

abbrev ended : UploadState
ended = record half_sent { status = "failed" }

abbrev two_uploads : Tracker
two_uploads = ("u1", (ended, 0)) ∷ ("u2", (half_sent, 0)) ∷ []

two_uploads-IsUnique : IsUnique two_uploads
unfolding Dict.lookup
two_uploads-IsUnique = (refl, (refl, tt))

-- The failed upload is gone after two minutes, the running one stays.
create_cleans :
    let after = (create "u3" "a.3mf" "p1" 7 130000 130001 two_uploads).1 in
    (get "u1" after ≡ none) × (get "u2" after ≡ some half_sent)
unfolding create get cleanup is_expired Dict.retain Dict.insert Dict.lookup
create_cleans = (refl, refl)
