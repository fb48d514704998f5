-- ===== src/PrinterService/Relay.antt =====
-- The retries over the cloud's relay.
use bambu_gateway.Prelude.{
  ℕ, zero, suc, ◌+◌, ◌≤◌, ◌≡◌, refl, Bool, true, false, ◌||◌, arith, if◌then◌else◌, ◌==◌,
}
use bambu_gateway.Prelude.Int.{ℤ, pos, negsuc, int_eq}
use bambu_gateway.PrinterService.{Host, relay_from, cloud_relay_publish}

-- Whether an attempt from `k` on, of so many, is accepted.
unfoldable pub accepted : Host → ℕ → ℕ → Bool
accepted host zero k = false
accepted host (suc left) k = host k == pos 0 || accepted host left (suc k)

relay_from_bound : (host : Host) (left k : ℕ) (rc : ℤ) → (relay_from host left k rc).1 ≤ k + left
unfolding relay_from
relay_from_bound host zero k rc = omega arith
relay_from_bound host (suc left) k rc =
    let rest = relay_from_bound host left (suc k) (host k) in ground (arith, rest)

relay_from_code :
    (host : Host) (left k : ℕ) (rc : ℤ)
    → (rc == pos 0) ≡ false
    → ((relay_from host left k rc).0 == pos 0) ≡ accepted host left k
unfolding relay_from accepted
relay_from_code host zero k rc h = h
relay_from_code host (suc left) k rc h =
    by_answer (host k == pos 0) refl (relay_from_code host left (suc k) (host k))
  where
    by_answer :
        (b : Bool)
        → (host k == pos 0) ≡ b
        → ((host k == pos 0) ≡ false
            → ((relay_from host left (suc k) (host k)).0 == pos 0) ≡ accepted host left (suc k))
        → ((if b then (pos 0, suc k) else relay_from host left (suc k) (host k)).0 == pos 0)
          ≡ (b || accepted host left (suc k))
    by_answer true e more = refl
    by_answer false e more = more e

-- The relay is asked at most as often as there are attempts, and its code is zero exactly when it
-- accepts one of them.
pub cloud_relay_publish-accepted :
    (host : Host) (attempts : ℕ)
    → ((cloud_relay_publish host attempts).1 ≤ attempts)
      × (((cloud_relay_publish host attempts).0 == pos 0) ≡ accepted host attempts 0)
unfolding cloud_relay_publish
cloud_relay_publish-accepted host attempts = (
  omega (arith, relay_from_bound host attempts 0 (negsuc 0)),
  relay_from_code host attempts 0 (negsuc 0) refl,
)
