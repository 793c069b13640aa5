-- ===== src/Time.antt =====
-- `time.Time` as nanoseconds since the Unix epoch, and `time.Duration` as nanoseconds. Instants
-- before 1970 and the limits of `int64` are not modelled.
use oauth_2_0_and_open_id_co.Base.{ℕ, ◌+◌, ◌*◌, ◌/◌, Bool, ltb}

abbrev pub Time : Type 0
Time = ℕ

abbrev pub Duration : Type 0
Duration = ℕ

-- t.After(u)
abbrev pub after : Time → Time → Bool
after t u = ltb u t

abbrev pub add : Time → Duration → Time
add t d = t + d

abbrev pub second : Duration
second = 1000000000

abbrev pub minute : Duration
minute = 60 * second

abbrev pub hour : Duration
hour = 60 * minute

-- t.Unix()
abbrev pub unix : Time → ℕ
unix t = t / second

-- int64(d.Seconds()), which cuts off
abbrev pub whole_seconds : Duration → ℕ
whole_seconds d = d / second
