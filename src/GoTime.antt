-- ===== src/GoTime.antt =====
-- Package `time`, as far as the program uses it. An instant is the number of nanoseconds since the
-- zero time of Go (the year 1), which is 0; a duration is an int64 of nanoseconds.
use excubra.Prelude.{ℕ, suc, ◌-◌, ◌*◌, ◌/◌, ◌^◌, Bool, ltb, ◌==◌, ℤ, pos, negsuc, neg, sub_ℕ}
use Prim.Native.Nat.{min}

abbrev pub Time : Type 0
Time = ℕ

abbrev pub Duration : Type 0
Duration = ℤ

abbrev pub zero_time : Time
zero_time = 0

abbrev pub is_zero : Time → Bool
is_zero t = t == 0

abbrev pub after : Time → Time → Bool
after t u = ltb u t

abbrev pub second : ℕ
second = 1_000_000_000

abbrev pub minute : ℕ
minute = 60_000_000_000

abbrev pub hour : ℕ
hour = 3_600_000_000_000

-- The nearest duration, as `Time.Sub` gives where the difference does not fit in an int64.
abbrev pub saturate : ℤ → Duration
saturate (pos n) = pos (min n (2 ^ 63 - 1))
saturate (negsuc n) = negsuc (min n (2 ^ 63 - 1))

abbrev pub time_sub : Time → Time → Duration
time_sub t u = saturate (sub_ℕ t u)

-- int64(d / time.Second)
abbrev pub seconds : Duration → ℤ
seconds (pos n) = pos (n / second)
seconds (negsuc n) = neg (suc n / second)

-- The nanoseconds since the start of 1970.
abbrev pub unix_nano : Time → ℤ
unix_nano t = sub_ℕ t (62_135_596_800 * second)
