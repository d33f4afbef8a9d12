-- ===== src/Time/Tests.antt =====
-- kernel/time/time.c at a few times.
use huge_pie.Time.{seconds, get_time_string, get_time}
use huge_pie.Time.Clock.{clock, get_time_lem}
use huge_pie.Base.{◌≡◌, refl, some, none, [], ◌∷◌, arith}

-- 2^40 ticks less one: 03:03:15.
get_time_lem_example : get_time 255 4294967295 9 ≡ some (clock 10995)
get_time_lem_example = get_time_lem 255 4294967295 9 (omega arith) (omega arith) (omega arith)

last_right : clock 10995 ≡ 48 ∷ 51 ∷ 58 ∷ 48 ∷ 51 ∷ 58 ∷ 49 ∷ 53 ∷ 0 ∷ []
last_right = refl

-- One tick later: 15:40:16.
first_wrong : get_time 256 0 9 ≡ some (49 ∷ 53 ∷ 58 ∷ 52 ∷ 48 ∷ 58 ∷ 49 ∷ 54 ∷ 0 ∷ [])
unfolding get_time get_time_string seconds
first_wrong = refl

short_buffer : get_time 0 0 8 ≡ none
unfolding get_time
short_buffer = refl
