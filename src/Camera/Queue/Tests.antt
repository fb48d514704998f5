-- ===== src/Camera/Queue/Tests.antt =====
-- Runs of the fan-out, and its theorem at a concrete input.
use bambu_gateway.Prelude.{ℕ, ◌≡◌, refl, some, [], ◌∷◌, ◌++◌, arith, nat_eq}
use bambu_gateway.Prelude.Dict
use bambu_gateway.Prelude.Latest.{take_last}
use bambu_gateway.Camera.Queue.{Fanout, attach}
use bambu_gateway.Camera.Queue.History.{publish_all, lookup-publish_all}

-- Subscriber 2 comes later, and begins with the cached frame.
abbrev two : Fanout ℕ
two = record {
  queue_maxsize = 2;
  subscribers = (1, 10 ∷ []) ∷ (2, []) ∷ [];
  latest_frame = some 10;
  last_frame_at = some 0;
}

attach_cached : Dict.lookup 3 (attach 3 two).subscribers ≡ some (10 ∷ [])
unfolding attach Dict.insert Dict.lookup
attach_cached = refl

lookup-publish_all_example :
    Dict.lookup 1 (publish_all ((11, 5) ∷ (12, 6) ∷ []) two).subscribers
    ≡ some (take_last 2 (10 ∷ [] ++ 11 ∷ 12 ∷ []))
unfolding Dict.lookup
lookup-publish_all_example =
    lookup-publish_all ((11, 5) ∷ (12, 6) ∷ []) two 1 (10 ∷ []) (omega arith) refl (omega arith)
