-- ===== src/Tracking/Feed/Leases.antt =====
-- The leases of the connection while it stays.
use bambu_gateway.Prelude.{ℕ, ◌+◌, ◌≤◌, ◌≡◌, refl, Option, some, [], ◌∷◌, arith, nat_eq}
use bambu_gateway.Prelude.Dict
use bambu_gateway.Prelude.Dict.{Dict, lookup-insert}
use bambu_gateway.Tracking.Broker.{Library, Broker}
use bambu_gateway.Tracking.Feed.{
  Phase, calling, entered, releasing, lost, registered, leaving, gone, Feed, total, is_registered,
  subscriber_count, Reaches, here, later, new_feed,
}
use bambu_gateway.Tracking.Feed.Holds.{times_acquired, times_released, share, leases_held}
use bambu_gateway.Tracking.Feed.Balance.{IsBalanced, Work-IsBalanced}

Reaches-IsBalanced :
    (py : Library) (conn : Option ℕ) (h k : Feed)
    → Reaches py h k
    → IsBalanced conn h
    → IsBalanced conn k
Reaches-IsBalanced py conn h k here b = b
Reaches-IsBalanced py conn h k (later {i} r s) b =
    Work-IsBalanced py conn i k s (Reaches-IsBalanced py conn h i r b)

first-IsBalanced :
    (b : Broker) (maxsize : ℕ) (conn : Option ℕ) → IsBalanced conn (new_feed b maxsize conn)
unfolding times_acquired times_released total Dict.lookup
first-IsBalanced b maxsize conn = record {
  acquire = refl;
  release = refl;
  still = refl;
  uses = λ id p e. absurd cc;
  leases = λ c. refl;
}

own_share : (c : ℕ) → share (some c) c ≡ 1
unfolding share
own_share c = ground arith

-- Every subscriber of the dictionary leases_held a lease.
registered_hold :
    (conn : Option ℕ) (c : ℕ) (d : Dict ℕ Phase)
    → share conn c ≡ 1
    → total is_registered d ≤ total (leases_held conn c) d
unfolding total leases_held
registered_hold conn c [] e = omega arith
registered_hold conn c ((j, registered q) ∷ d) e = omega (arith, e, registered_hold conn c d e)
registered_hold conn c ((j, calling o) ∷ d) e = omega (arith, registered_hold conn c d e)
registered_hold conn c ((j, entered o) ∷ d) e = omega (arith, registered_hold conn c d e)
registered_hold conn c ((j, releasing o) ∷ d) e = omega (arith, registered_hold conn c d e)
registered_hold conn c ((j, lost o) ∷ d) e = omega (arith, registered_hold conn c d e)
registered_hold conn c ((j, leaving) ∷ d) e = omega (arith, registered_hold conn c d e)
registered_hold conn c ((j, gone) ∷ d) e = omega (arith, registered_hold conn c d e)

-- While the connection is not replaced, and whatever reports come and in whatever order tasks enter
-- `subscribe`, leave it and are cancelled at its awaits, the connection has been leased as often as
-- released and once more for each subscriber and each task that is between the call of `acquire` and
-- that of `release`, those included that a cancellation has ended there; so it is leased at least once
-- for each subscriber.
pub Reaches-leases :
    (py : Library) (b : Broker) (maxsize c : ℕ) (h : Feed)
    → Reaches py (new_feed b maxsize (some c)) h
    → (times_acquired c h.calls ≡ times_released c h.calls + total (leases_held (some c) c) h.tasks)
      × (times_released c h.calls + subscriber_count h ≤ times_acquired c h.calls)
unfolding subscriber_count
Reaches-leases py b maxsize c h r =
    let sound = Reaches-IsBalanced py (some c) _ h r (first-IsBalanced b maxsize (some c)) in
    let more = registered_hold (some c) c h.tasks (own_share c) in
    (sound.leases c, omega (arith, sound.leases c, more))
