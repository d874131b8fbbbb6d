-- ===== src/Prelude/Clock.antt =====
-- Instants and durations. A `time.Time` is the number of nanoseconds since the zero time, year 1
-- in UTC, so `IsZero` is equality with 0, `Before` and `After` are the order, and `UTC` changes
-- nothing. A `time.Duration` that may be negative is an `int64` of nanoseconds.
use Prim.Native.Nat.{ℕ, ◌*◌, ◌/◌, ◌^◌}
use opendesk_remote.Prelude.Int.{ℤ, sub_ℕ}

abbrev pub Time : Type 0
Time = ℕ

abbrev pub second : ℕ
second = 10 ^ 9

abbrev pub minute : ℕ
minute = 60 * second

-- t.Unix(): 62,135,596,800 seconds lie between year 1 and 1970.
abbrev pub unix : Time → ℤ
unix t = sub_ℕ (t / second) 62_135_596_800
