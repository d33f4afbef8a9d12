-- ===== src/Time.antt =====
-- kernel/time/time.c: the clock. The two halves of the counter of ticks are the ones that the processor gives.
mod Clock
mod Tests
use huge_pie.Base.{
  ℕ, ◌+◌, ◌*◌, ◌/◌, ◌%◌, ◌^◌, Option, none, some, List, [], ◌∷◌, ◌++◌, ltb, if◌then◌else◌,
}

-- `second`, before it is split. The halves of `|` have no bit in common, so it adds them.
unfoldable pub seconds : ℕ → ℕ → ℕ
seconds ticks_high ticks_low =
    let low = ticks_low / 2 ^ 8 + ticks_high * 2 ^ 24 % 2 ^ 32 in
    let second = ticks_high / 2 ^ 8 % 390625 in
    (second * 10995 + second * 45421 % 2 ^ 32 % 390625 + low / 390625) % 2 ^ 32

-- The eight bytes from `buf` on.
unfoldable pub get_time_string : ℕ → ℕ → List ℕ
get_time_string ticks_high ticks_low =
    let second = seconds ticks_high ticks_low in
    let minute = second / 60 in
    let hour = minute / 60 in
    let s = second % 60 in
    let m = minute % 60 in
    let h = hour % 24 in
    (h / 10 + 48)
    ∷ (h % 10 + 48)
    ∷ 58
    ∷ (m / 10 + 48)
    ∷ (m % 10 + 48)
    ∷ 58
    ∷ (s / 10 + 48)
    ∷ (s % 10 + 48)
    ∷ []

-- The bytes in `buf`; `none` is a failed `assert`.
unfoldable pub get_time : ℕ → ℕ → ℕ → Option (List ℕ)
get_time ticks_high ticks_low len =
    if ltb len 9 then none else some (get_time_string ticks_high ticks_low ++ 0 ∷ [])
