-- ===== src/Camera/Queue.antt =====
-- The fan-out of `CameraProxy` in app/camera_proxy.py: `_publish`, and the queues of `subscribe`.
-- A queue is its pending frames, oldest first; `queue_maxsize` is positive (an `asyncio.Queue` of
-- size 0 would be unbounded). A frame is its number of bytes' content, of any type.
mod History
mod Tests
use bambu_gateway.Prelude.{
  ℕ, Bool, Option, none, some, List, [], ◌∷◌, ◌++◌, leb, if◌then◌else◌, length, nat_eq,
}
use bambu_gateway.Prelude.Dict
use bambu_gateway.Prelude.Dict.{Dict}

pub record Fanout {ℓ} (F : Type ℓ) : Type ℓ where
  pub queue_maxsize : ℕ
  pub subscribers : Dict ℕ (List F)
  pub latest_frame : Option F
  pub last_frame_at : Option ℕ

module _ {ℓ} {F : Type ℓ} where
  abbrev pub full : ℕ → List F → Bool
  full maxsize q = leb maxsize (length q)

  abbrev pub get_nowait : List F → List F
  get_nowait [] = []
  get_nowait (f ∷ q) = q

  -- One round of the loop of `_publish`: after a `get_nowait` there is room for `put_nowait`.
  unfoldable pub put_latest : ℕ → F → List F → List F
  put_latest maxsize f q = (if full maxsize q then get_nowait q else q) ++ f ∷ []

  unfoldable pub put_all : ℕ → F → Dict ℕ (List F) → Dict ℕ (List F)
  put_all maxsize f [] = []
  put_all maxsize f ((id, q) ∷ m) = (id, put_latest maxsize f q) ∷ put_all maxsize f m

  unfoldable pub publish : F → ℕ → Fanout F → Fanout F
  publish frame now p = record p {
    latest_frame = some frame;
    last_frame_at = some now;
    subscribers = put_all p.queue_maxsize frame p.subscribers;
  }

  -- The opening of `subscribe`: a new queue, with the cached frame if there is one.
  unfoldable pub attach : ℕ → Fanout F → Fanout F
  attach id p = record p {
    subscribers =
        Dict.insert id (elim p.latest_frame [ none ↦ [] | some f ↦ f ∷ [] ]) p.subscribers;
  }

  -- One `await queue.get()` of a subscriber.
  unfoldable pub take_frame : ℕ → Fanout F → Option (F × Fanout F)
  take_frame id p = elim (Dict.lookup id p.subscribers) [
    | none ↦ none
    | some [] ↦ none
    | some (f ∷ q) ↦ some (f, record p { subscribers = Dict.insert id q p.subscribers })
  ]

  -- Its `finally`.
  unfoldable pub detach : ℕ → Fanout F → Fanout F
  detach id p = record p { subscribers = Dict.remove id p.subscribers }
