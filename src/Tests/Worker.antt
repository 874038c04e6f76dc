-- ===== src/Tests/Worker.antt =====
-- Examples for the click workers and the rate limiter.
use go_url_shortener.Base.{
  ℕ, suc, ◌+◌, ◌-◌, ◌≤◌, ◌*◌, min, ◌≡◌, ◌⊎◌, refl, inl, true, false, List, [], ◌∷◌, exists,
  count_if, arith,
}
use go_url_shortener.Base.Int.{id_eq, pos}
use go_url_shortener.Base.Text.{String}
use go_url_shortener.Outcome.{ok, is_ok}
use go_url_shortener.Db.{Db, served, lost}
use go_url_shortener.Repository.Clicks.{same_event}
use go_url_shortener.Worker.{process, Config, new_config, enqueue}
use go_url_shortener.Worker.Delivery.{AtMostOnce, process-AtMostOnce}
use go_url_shortener.Worker.Retries.{IsStorable, served_within, process_succeeds}
use go_url_shortener.Worker.Pool.{
  Pool, start, send, take, finish, close, Reach, here, next, IsBounded, Conserves, Reach-IsBounded,
  IsDrained, Step,
}
use go_url_shortener.Security.RateLimiter.{
  RateLimiter, lookup, handle, renew, retry_after, insert, too_many, forward,
}
use go_url_shortener.Security.RateLimiter.Retry.{retry_passes}
use go_url_shortener.Security.RateLimiter.Stretch.{passed_stretch}
use go_url_shortener.Worker.Ending.{still, then, pending, wait_ends}
use go_url_shortener.Security.RateLimiter.Window.{passed, is_from, IsIdle, passed_window}
use go_url_shortener.Tests.Data.{sample_db, click}

-- The first insertion is run, but its answer is lost; the second is answered.
abbrev flaky_db : Db
flaky_db = record sample_db { replies = lost ∷ served ∷ [] }

process-AtMostOnce_example : AtMostOnce "k1" (process 5 100_000_000 click flaky_db).1
process-AtMostOnce_example = process-AtMostOnce 5 100_000_000 click "k1" flaky_db (omega arith)

click-IsStorable : IsStorable click flaky_db
unfolding id_eq
click-IsStorable = record { fits = refl; known = refl }

process_succeeds_example :
    let (out, d') = process 5 100_000_000 click flaky_db in
    (is_ok out ≡ served_within 5 flaky_db.replies)
    × ((is_ok out ≡ false) ⊎ (exists (same_event click) d'.clicks ≡ true))
process_succeeds_example = process_succeeds 4 100_000_000 click flaky_db click-IsStorable

abbrev config : Config
config = record { worker_count = 2; queue_size = 1; max_retries = 5; base_backoff = 100_000_000 }

abbrev from_start : Pool
from_start = record {
  config = config;
  queue = [];
  closed = false;
  busy = [];
  accepted = [];
  finished = [];
}

abbrev after_send : Pool
after_send = record from_start { queue = click ∷ []; accepted = click ∷ [] }

abbrev after_take : Pool
after_take = record after_send { queue = []; busy = click ∷ [] }

abbrev after_finish : Pool
after_finish = record after_take { busy = []; finished = click ∷ [] }

abbrev after_close : Pool
after_close = record after_finish { closed = true }

taken : enqueue 1 false false click [] ≡ (ok tt, click ∷ [])
unfolding enqueue
taken = refl

reached_start : Reach config from_start
unfolding start
reached_start = here

reached_take : Reach config after_take
reached_take =
    next (next reached_start (send from_start click false false (click ∷ []) refl taken))
      (take after_send click [] refl (omega arith))

reached_close : Reach config after_close
reached_close =
    next (next reached_take (finish after_take [] [] click refl)) (close after_finish refl)

Reach-IsBounded_example : IsBounded after_take × Conserves (same_event click) after_take
Reach-IsBounded_example = Reach-IsBounded config after_take (same_event click) reached_take

-- The event is in hand when the queue is closed.
abbrev closing : Pool
closing = record after_take { closed = true }

default_config : new_config (pos 2) (pos 1) (pos 0) (pos 0) ≡ config
unfolding new_config
default_config = refl

reached_closing : Reach (new_config (pos 2) (pos 1) (pos 0) (pos 0)) closing
unfolding new_config
reached_closing = next reached_take (close after_take refl)

wait_ends_example :
    (1 ≤ pending closing) × (IsDrained after_close ⊎ ((r : Pool) × Step after_close r))
wait_ends_example =
    wait_ends (pos 2) (pos 1) (pos 0) (pos 0) closing after_close 1 reached_closing refl
      (then (finish closing [] [] click refl) still)

-- Two requests a minute.
abbrev minute : ℕ
minute = 60_000_000_000

abbrev limiter : RateLimiter
limiter = record { clients = []; max = 2; window = minute }

abbrev requests : List (String × ℕ)
requests = ("1.1.1.1", 200) ∷ ("2.2.2.2", 250) ∷ ("1.1.1.1", 300) ∷ []

fresh-IsIdle : IsIdle "1.1.1.1" 100 limiter
unfolding lookup
fresh-IsIdle = inl refl

passed_window_example :
    passed "1.1.1.1" limiter (("1.1.1.1", 100) ∷ requests)
    ≡ min (suc (count_if (is_from "1.1.1.1") requests)) 2
passed_window_example =
    passed_window "1.1.1.1" 100 limiter requests fresh-IsIdle
      ((omega arith, omega arith), ((omega arith, omega arith), ((omega arith, omega arith), tt)))

-- A client whose window is used up, and is over ten seconds into the stretch.
abbrev used_up : RateLimiter
used_up = record limiter { clients = ("1.1.1.1", record { count = 2; window_start = 0 }) ∷ [] }

passed_stretch_example :
    passed "1.1.1.1" used_up (
      ("1.1.1.1", minute)
      ∷ ("2.2.2.2", minute)
      ∷ ("1.1.1.1", minute + 1)
      ∷ ("1.1.1.1", minute + 2)
      ∷ [])
    ≤ 2 * 2
passed_stretch_example =
    passed_stretch "1.1.1.1" 50_000_000_000 used_up
      (("1.1.1.1", minute)
        ∷ ("2.2.2.2", minute)
        ∷ ("1.1.1.1", minute + 1)
        ∷ ("1.1.1.1", minute + 2)
        ∷ [])
      (
        (omega arith, omega arith),
        (
          (omega arith, omega arith),
          ((omega arith, omega arith), ((omega arith, omega arith), tt)),
        ),
      )

abbrev one_second : ℕ
one_second = 1_000_000_000

-- A second and a half before the end of the window.
refused_late : (handle "1.1.1.1" (minute - 1_500_000_000) used_up).0 ≡ too_many 1
unfolding handle renew retry_after lookup insert
refused_late = refl

retry_passes_example :
    (handle "1.1.1.1" (minute + one_second) (handle "1.1.1.1" (minute - 1_500_000_000) used_up).1).0
    ≡ forward
retry_passes_example =
    retry_passes "1.1.1.1" (minute - 1_500_000_000) (minute + one_second) 1 used_up (omega arith)
      refused_late (omega arith)

-- Who waits the one second of the header is refused again.
refused_again :
    (handle "1.1.1.1"
      (minute - 500_000_000)
      (handle "1.1.1.1" (minute - 1_500_000_000) used_up).1).0
    ≡ too_many 1
unfolding handle renew retry_after lookup insert
refused_again = refl
