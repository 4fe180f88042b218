-- ===== src/Delivery/Backoff.antt =====
-- `RetryDelay` of internal/delivery/worker.go.
use native.Mathlib.Nat.{one-le-pow, pow-succ'}
use face_recognition_proxy.Prelude.{
  ℕ, zero, suc, ◌-◌, ◌*◌, ◌^◌, ◌≤◌, ◌≡◌, arith, ltb, if◌then◌else◌,
}
use face_recognition_proxy.PushSdk.Session.{second}

-- `for i := 1; i < attempts && delay < 300s; i++ { delay *= 2 }`, with the rounds that are left.
unfoldable pub doubled : ℕ → ℕ → ℕ
doubled zero delay = delay
doubled (suc rounds) delay =
    let rest = doubled rounds (delay * 2) in if ltb delay (300 * second) then rest else delay

abbrev pub capped : ℕ → ℕ
capped delay = if ltb (300 * second) delay then 300 * second else delay

unfoldable pub retry_delay : ℕ → ℕ
retry_delay attempts = capped (doubled (attempts - 1) (5 * second))

times_power : (delay n : ℕ) → delay * 2 ^ suc n ≡ delay * 2 * 2 ^ n
times_power delay n = grind (arith, pow-succ' 2 n)

le-times_power : (delay n : ℕ) → delay ≤ delay * 2 ^ n
le-times_power delay n = grind (arith, one-le-pow n 2 (omega arith))

-- The loop stops early only past the cap.
capped-doubled : (rounds delay : ℕ) → capped (doubled rounds delay) ≡ capped (delay * 2 ^ rounds)
unfolding doubled
capped-doubled zero delay = ground arith
capped-doubled (suc rounds) delay = ground (
  arith,
  capped-doubled rounds (delay * 2),
  times_power delay rounds,
  le-times_power delay (suc rounds),
)

-- The delay before the next attempt is five seconds, doubled with each attempt after the first, and
-- at most 300 seconds.
pub retry_delay-eq :
    (attempts : ℕ) → retry_delay attempts ≡ capped (5 * second * 2 ^ (attempts - 1))
unfolding retry_delay
retry_delay-eq attempts = capped-doubled (attempts - 1) (5 * second)

-- A delay is between 5 and 300 seconds, whatever the number of attempts.
retry_delay_between :
    (attempts : ℕ) → (5 * second ≤ retry_delay attempts) × (retry_delay attempts ≤ 300 * second)
retry_delay_between attempts =
    ground (arith, retry_delay-eq attempts, le-times_power (5 * second) (attempts - 1))
