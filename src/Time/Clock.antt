-- ===== src/Time/Clock.antt =====
-- `get_time` of kernel/time/time.c against the time of the day.
use huge_pie.Time.{seconds, get_time_string, get_time}
use huge_pie.Base.{
  ℕ, ◌+◌, ◌*◌, ◌/◌, ◌%◌, ◌^◌, ◌≤◌, ◌<◌, ◌≡◌, refl, false, some, List, [], ◌∷◌, ◌++◌, ltb, arith,
}

-- The two digits of a number below 100.
abbrev pub two_digits : ℕ → List ℕ
two_digits n = (n / 10 + 48) ∷ (n % 10 + 48) ∷ []

-- The time of the day so many seconds after midnight of the first day, and the 0 at the end.
abbrev pub clock : ℕ → List ℕ
clock t =
    two_digits (t % 86400 / 3600)
    ++ 58 ∷ two_digits (t % 3600 / 60)
    ++ 58 ∷ two_digits (t % 60)
    ++ 0 ∷ []

seconds_lem :
    (high low : ℕ)
    → high < 256
    → low < 2 ^ 32
    → seconds high low ≡ (high * 2 ^ 32 + low) / 100000000
unfolding seconds
seconds_lem high low h l = let z : high / 256 ≡ 0 = omega arith in rw z (omega arith)

-- Up to 2^40 ticks, and for a buffer of nine bytes or more, get_time gives the time of the day at
-- 100,000,000 ticks in a second, in hours, minutes and seconds of two digits each.
pub get_time_lem :
    (high low len : ℕ)
    → high < 256
    → low < 2 ^ 32
    → 9 ≤ len
    → get_time high low len ≡ some (clock ((high * 2 ^ 32 + low) / 100000000))
unfolding get_time get_time_string
get_time_lem high low len h l room =
    let t = (high * 2 ^ 32 + low) / 100000000 in
    let enough : ltb len 9 ≡ false = ground arith in
    let hours : t / 60 / 60 % 24 ≡ t % 86400 / 3600 = omega arith in
    let minutes : t / 60 % 60 ≡ t % 3600 / 60 = omega arith in
    rw (enough, seconds_lem high low h l, hours, minutes) refl
