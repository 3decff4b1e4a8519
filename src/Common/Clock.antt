-- ===== src/Common/Clock.antt =====
-- Go's time.Time as the nanoseconds since the zero Time (January 1 of year 1), and time.Duration
-- as an int64 count of nanoseconds.
use Prim.Native.Nat.{ℕ, ◌+◌, ◌-◌, ◌*◌, ◌^◌, ◌<◌}
use mathlib.Core.Path.{◌≡◌}
use mathlib.Core.Bool.{Bool}
use native.Mathlib.Omega.{arith}
use uplink_relay.Common.Tests.{ltb}
use uplink_relay.Common.Int.{ℤ, pos, negsuc, pos_part, neg_part, sub_ℕ, wrap64, wrap64_small}

abbrev pub Time : Type 0
Time = ℕ

abbrev pub second : ℕ
second = 1000000000

-- time.Unix(0, 0)
abbrev pub unix_epoch : Time
unix_epoch = 62135596800 * second

-- t.Before(u)
abbrev pub before : Time → Time → Bool
before t u = ltb t u

-- time.Duration(n) * time.Second, whose product wraps around
unfoldable pub seconds : ℤ → ℤ
seconds (pos n) = wrap64 (pos (n * second))
seconds (negsuc n) = wrap64 (sub_ℕ 0 ((n + 1) * second))

-- t.Add(d); an instant before year 1 is not represented
unfoldable pub add : Time → ℤ → Time
add t d = t + pos_part d - neg_part d

-- time.Unix(n, 0)
unfoldable pub unix : ℤ → Time
unix (pos n) = unix_epoch + n * second
unix (negsuc n) = unix_epoch - (n + 1) * second

-- t.AddDate(0, 0, -n) in UTC
unfoldable pub minus_days : Time → ℕ → Time
minus_days t n = t - n * (86400 * second)

-- A number of seconds below 2^33 (272 years) does not overflow a Duration.
pub add-seconds : (t : Time) (n : ℕ) → n < 2 ^ 33 → add t (seconds (pos n)) ≡ t + n * second
unfolding add seconds
add-seconds t n h = rw (wrap64_small (n * second) (omega arith)) (omega arith)
