-- ===== src/Worker.antt =====
-- worker/click_worker.go: ClickWorkerPool. A worker's call of process runs over the database; its
-- pauses move the clock.
pub mod Backoff
pub mod Delivery
pub mod Retries
pub mod Pool
pub mod Ending
use go_url_shortener.Base.{
  ℕ, zero, suc, ◌+◌, ◌-◌, ◌*◌, ◌%◌, ◌^◌, Bool, true, false, Option, none, some, List, [], ◌∷◌, ◌++◌,
  ltb, leb, if◌then◌else◌, length, ◌==◌ as nat_eq,
}
use go_url_shortener.Base.Int.{ℤ, pos, negsuc, is_positive}
use go_url_shortener.Model.{ClickEvent}
use go_url_shortener.Outcome.{Error, canceled, queue_full, Result, ok, err, Action}
use go_url_shortener.Db.{Db}
use go_url_shortener.Repository.Clicks.{create}

abbrev pub five_seconds : ℕ
five_seconds = 5_000_000_000

abbrev pub word : ℕ
word = 2 ^ 64

abbrev pub half_word : ℕ
half_word = 2 ^ 63

-- The bits of baseBackoff * time.Duration(1<<(attempt-1)), both an int64.
unfoldable pub backoff_bits : ℕ → ℕ → ℕ
backoff_bits base attempt = base * (2 ^ (attempt - 1) % word) % word

-- How long time.Sleep pauses after an attempt: at most five seconds, and not at all where the product
-- has wrapped to a negative number.
unfoldable pub pause : ℕ → ℕ → ℕ
pause base attempt =
    let bits = backoff_bits base attempt in
    if leb half_word bits then 0 else if ltb five_seconds bits then five_seconds else bits

abbrev sleep : ℕ → Db → Db
sleep n d = record d { now = d.now + n }

-- what follows an attempt with its result: the end of the loop, or a pause and the next attempt
abbrev pub after_attempt :
    (Error → Action Db (Unit {0})) → Result (Unit {0}) × Db → Result (Unit {0}) × Db
after_attempt next (ok _, d) = (ok tt, d)
after_attempt next (err e, d) = next e d

-- the loop of process, with the number of attempts left and lastErr
unfoldable pub process_from : ℕ → ℕ → ℕ → ClickEvent → Result (Unit {0}) → Action Db (Unit {0})
process_from zero attempt base event last d = (last, d)
process_from (suc zero) attempt base event last d =
    after_attempt (λ e d'. (err e, d')) (create event d)
process_from (suc (suc left)) attempt base event last d =
    after_attempt
      (λ e d'.
        process_from (suc left) (suc attempt) base event (err e) (sleep (pause base attempt) d'))
      (create event d)

unfoldable pub process : ℕ → ℕ → ClickEvent → Action Db (Unit {0})
process max_retries base event = process_from max_retries 1 base event (ok tt)

pub record Config : Type 0 where
  pub worker_count : ℕ
  pub queue_size : ℕ
  pub max_retries : ℕ
  pub base_backoff : ℕ

abbrev pub or_default : ℕ → ℤ → ℕ
or_default d (pos zero) = d
or_default d (pos (suc n)) = suc n
or_default d (negsuc n) = d

-- NewClickWorkerPool
unfoldable pub new_config : ℤ → ℤ → ℤ → ℤ → Config
new_config worker_count queue_size max_retries base_backoff = record {
  worker_count = or_default 4 worker_count;
  queue_size = or_default 1000 queue_size;
  max_retries = or_default 5 max_retries;
  base_backoff = or_default 100_000_000 base_backoff;
}

-- The select of Enqueue on an open queue: a send where there is room, the context's error where it is
-- done, either where both are ready, and the default where neither is.
unfoldable pub enqueue : ℕ → Bool → Bool → ClickEvent → Action (List ClickEvent) (Unit {0})
enqueue size context_done takes_context event queue =
    if ltb (length queue) size
    then if context_done
      then if takes_context then (err canceled, queue) else (ok tt, queue ++ event ∷ [])
      else (ok tt, queue ++ event ∷ [])
    else if context_done
    then (err canceled, queue)
    else (err queue_full, queue)
