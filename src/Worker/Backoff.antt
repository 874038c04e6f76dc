-- ===== src/Worker/Backoff.antt =====
-- The pauses between the attempts of process in worker/click_worker.go.
use go_url_shortener.Base.{ℕ, ◌-◌, ◌*◌, ◌%◌, ◌^◌, ◌≤◌, ◌<◌, min, ◌≡◌, arith}
use native.Mathlib.Nat.{mod-eq_of_lt}
use go_url_shortener.Worker.{five_seconds, word, half_word, backoff_bits, pause}

factor_le : (base x : ℕ) → 0 < base → x ≤ base * x
factor_le base x h = grind arith

bits_exact : (base x : ℕ) → 0 < base → base * x < half_word → base * (x % word) % word ≡ base * x
bits_exact base x h fits =
    let small : x % word ≡ x = mod-eq_of_lt (omega (arith, factor_le base x h)) in
    rw small (mod-eq_of_lt (omega arith))

-- No pause is longer than five seconds, also where the product has wrapped around.
pub pause-le : (base attempt : ℕ) → pause base attempt ≤ five_seconds
unfolding pause
pause-le base attempt = ground arith

-- As long as the product of a positive base and the power of two fits int64, the pause is the base
-- doubled with each attempt, cut off at five seconds.
pub pause_doubles :
    (base attempt : ℕ)
    → 0 < base
    → base * 2 ^ (attempt - 1) < half_word
    → pause base attempt ≡ min (base * 2 ^ (attempt - 1)) five_seconds
unfolding pause backoff_bits
pause_doubles base attempt h fits = ground (arith, bits_exact base (2 ^ (attempt - 1)) h fits)
