-- ===== src/UploadTracker/Registry.antt =====
-- What the registry answers after an upload is created.
use bambu_gateway.Prelude.{
  ℕ, ◌≡◌, String, true, false, Option, none, some, arith, if◌then◌else◌, ◌==◌, string_eq,
}
use bambu_gateway.Prelude.Dict
use bambu_gateway.Prelude.Dict.{lookup-insert}
use bambu_gateway.Prelude.Dict.Unique.{IsUnique, retain-IsUnique, insert-IsUnique, lookup-retain}
use bambu_gateway.UploadTracker.{UploadState, Tracker, new_upload, is_expired, cleanup, create, get}

-- What is left of an entry once those that ended over two minutes ago are dropped.
abbrev pub live : ℕ → Option (UploadState × ℕ) → Option UploadState
live now none = none
live now (some (state, ts)) = if is_expired now (state, ts) then none else some state

module _ (id file printer : String) (total now now' : ℕ) (uploads : Tracker) where
  -- In a registry with distinct ids, after `create` the new id answers with the new upload, and
  -- any other id with what it held, unless that upload had ended and was created more than two
  -- minutes before; the ids stay distinct.
  pub get-create :
      (j : String)
      → IsUnique uploads
      → let after = (create id file printer total now now' uploads).1 in
        (get j after ≡ (
          if id == j
          then some (new_upload id file printer total)
          else live now (Dict.lookup j uploads)))
        × IsUnique after
  unfolding create cleanup get
  get-create j u = (
    ground (
      arith,
      lookup-insert id j (new_upload id file printer total, now') (cleanup now uploads),
      lookup-retain (λ entry. if is_expired now entry then false else true) j uploads u,
    ),
    insert-IsUnique id _ _ (retain-IsUnique _ uploads u),
  )
