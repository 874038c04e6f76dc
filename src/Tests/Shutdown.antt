-- ===== src/Tests/Shutdown.antt =====
-- Examples for the shutdown.
use go_url_shortener.Base.{◌≡◌, ◌⊎◌, refl, true, false, [], ◌∷◌, count_if, arith}
use go_url_shortener.Outcome.{ok}
use go_url_shortener.Repository.Clicks.{same_event}
use go_url_shortener.Worker.{Config}
use go_url_shortener.Worker
use go_url_shortener.Worker.Pool
use go_url_shortener.Worker.Pool.{Pool}
use go_url_shortener.Server.Shutdown.{
  serving, draining, returned, waiting, stopped, Process, start, may_serve, begin, leave, enqueue,
  work, panic, signal, quiet, time_out, close, stop, Reach, here, next,
}
use go_url_shortener.Server.Shutdown.Graceful.{shutdown_graceful}
use go_url_shortener.Tests.Data.{click}

abbrev config : Config
config = record { worker_count = 2; queue_size = 1; max_retries = 5; base_backoff = 100_000_000 }

abbrev empty : Pool
empty = record {
  config = config;
  queue = [];
  closed = false;
  busy = [];
  accepted = [];
  finished = [];
}

abbrev queued : Pool
queued = record empty { queue = click ∷ []; accepted = click ∷ [] }

abbrev in_hand : Pool
in_hand = record queued { queue = []; busy = click ∷ [] }

abbrev done : Pool
done = record in_hand { busy = []; finished = click ∷ [] }

abbrev up : Process
up = record { phase = serving; handlers = 0; late = false; panics = 0; pool = empty }

abbrev clicked : Process
clicked = record up { handlers = 1; pool = queued }

sent : Worker.enqueue 1 false false click [] ≡ (ok tt, click ∷ [])
unfolding Worker.enqueue
sent = refl

reached_clicked : Reach config clicked
unfolding start Pool.start may_serve
reached_clicked = next (next here (begin up refl)) (
    enqueue (record up { handlers = 1 }) queued (omega arith)
      (Pool.send empty click false false (click ∷ []) refl sent) refl)

-- The handler ends, main closes the queue, and a worker stores the event.
abbrev over : Process
over = record up { phase = stopped; pool = record done { closed = true } }

reached_over : Reach config over
reached_over =
    let left : Reach config (record clicked { phase = returned; handlers = 0 }) =
      next
        (next (next reached_clicked (signal clicked refl))
          (leave (record clicked { phase = draining }) 0 refl))
        (quiet (record clicked { phase = draining; handlers = 0 }) refl refl) in
    let closed : Reach config
        (record up { phase = waiting; pool = record queued { closed = true } }) =
      next left (close (record clicked { phase = returned; handlers = 0 }) refl) in
    let taken : Reach config
        (record up { phase = waiting; pool = record in_hand { closed = true } }) =
      next closed (
        work (record up { phase = waiting; pool = record queued { closed = true } })
          (record in_hand { closed = true })
          (Pool.take (record queued { closed = true }) click [] refl (omega arith)) refl refl) in
    next
      (next taken (
        work (record up { phase = waiting; pool = record in_hand { closed = true } })
          (record done { closed = true })
          (Pool.finish (record in_hand { closed = true }) [] [] click refl) refl refl))
      (stop (record up { phase = waiting; pool = record done { closed = true } }) refl
        (record { shut = refl; emptied = refl; idle = refl }))

shutdown_graceful_example :
    (count_if (same_event click) over.pool.finished
      ≡ count_if (same_event click) over.pool.accepted)
    × ((over.late ≡ true) ⊎ ((over.panics ≡ 0) × (over.handlers ≡ 0)))
shutdown_graceful_example = shutdown_graceful config over (same_event click) reached_over refl

-- A handler that outlives the ten seconds of server.Shutdown sends on the closed queue.
abbrev hurt : Process
hurt = record up {
  phase = waiting;
  late = true;
  panics = 1;
  pool = record queued { closed = true };
}

reached_hurt : Reach config hurt
reached_hurt =
    next
      (next
        (next (next reached_clicked (signal clicked refl))
          (time_out (record clicked { phase = draining }) refl))
        (close (record clicked { phase = returned; late = true }) refl))
      (panic
        (record clicked { phase = waiting; late = true; pool = record queued { closed = true } }) 0
        refl refl)
