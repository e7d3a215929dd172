-- ===== src/RateLimit/Tests.antt =====
-- The limiter at two attempts of each key, and two keys, within a minute.
use tit.Prelude.{String, ℕ, ◌≡◌, refl, arith, true, false, List, [], ◌∷◌}
use tit.Prelude.Tables.{find, update_where}
use tit.RateLimit.{AttemptLimiter, pop_old, retain, or_default, allow}
use tit.RateLimit.Bounds.{IsLimited, run, run-IsLimited}

abbrev limiter : AttemptLimiter
limiter = record { maximum = 2; window = 60; maximum_keys = 2 }

abbrev attempts : List (String × ℕ)
attempts = ("first", 1) ∷ ("first", 2) ∷ ("second", 3) ∷ []

run-IsLimited_example : IsLimited limiter (run limiter [] attempts)
run-IsLimited_example =
    run-IsLimited limiter [] attempts (record { keys = omega arith; attempts = tt })

-- The third attempt of a key, and a third key, are refused.
refused_key : (allow limiter "first" 4 (run limiter [] attempts)).0 ≡ false
unfolding run allow or_default retain pop_old find update_where
refused_key = refl

third_key : (allow limiter "third" 4 (run limiter [] attempts)).0 ≡ false
unfolding run allow or_default retain pop_old find update_where
third_key = refl

-- A minute after its first attempt, the key has room again.
later_key : (allow limiter "first" 61 (run limiter [] attempts)).0 ≡ true
unfolding run allow or_default retain pop_old find update_where
later_key = refl
