-- ===== src/Worker/Pool.antt =====
-- The pool of worker/click_worker.go as a system of steps: the handlers' sends, the workers' receipts
-- from the queue, the ends of their calls of process, and Shutdown, in any order.
use go_url_shortener.Base.{
  ℕ, ◌+◌, ◌≤◌, ◌<◌, ◌≡◌, Bool, true, false, List, [], ◌∷◌, ◌++◌, length, length-append, count_if,
  arith,
}
use go_url_shortener.Model.{ClickEvent}
use go_url_shortener.Outcome.{ok}
use go_url_shortener.Worker.{Config, enqueue}

-- queue is the channel's buffer; busy holds the events that workers are processing; accepted and
-- finished are the events that Enqueue took and that process has ended for.
pub record Pool : Type 0 where
  pub config : Config
  pub queue : List ClickEvent
  pub closed : Bool
  pub busy : List ClickEvent
  pub accepted : List ClickEvent
  pub finished : List ClickEvent

unfoldable pub start : Config → Pool
start c = record { config = c; queue = []; closed = false; busy = []; accepted = []; finished = [] }

pub data Step : Pool → Pool → Type 0 where
  -- a call of Enqueue that takes the event
  send :
      (p : Pool) (event : ClickEvent) (context_done takes_context : Bool) (queue' : List ClickEvent)
      → p.closed ≡ false
      → enqueue p.config.queue_size context_done takes_context event p.queue ≡ (ok tt, queue')
      → Step p (record p { queue = queue'; accepted = event ∷ p.accepted })
  -- `event := <-p.queue` in a worker that is free
  take :
      (p : Pool) (event : ClickEvent) (rest : List ClickEvent)
      → p.queue ≡ event ∷ rest
      → length p.busy < p.config.worker_count
      → Step p (record p { queue = rest; busy = event ∷ p.busy })
  -- a call of process ends, with or without an error
  finish :
      (p : Pool) (before after : List ClickEvent) (event : ClickEvent)
      → p.busy ≡ before ++ event ∷ after
      → Step p (record p { busy = before ++ after; finished = event ∷ p.finished })
  -- close(p.queue)
  close : (p : Pool) → p.closed ≡ false → Step p (record p { closed = true })

pub data Reach (c : Config) : Pool → Type 0 where
  here : Reach c (start c)
  next : {p q : Pool} → Reach c p → Step p q → Reach c q

-- wg.Wait returns: every worker has left its loop over the closed and empty queue.
pub record IsDrained (p : Pool) : Type 0 where
  pub shut : p.closed ≡ true
  pub emptied : p.queue ≡ []
  pub idle : p.busy ≡ []

pub record IsBounded (p : Pool) : Type 0 where
  pub buffered : length p.queue ≤ p.config.queue_size
  pub working : length p.busy ≤ p.config.worker_count

-- No event is lost or made up: each is queued, being processed or finished.
abbrev pub Conserves : (ClickEvent → Bool) → Pool → Type 0
Conserves p s =
    count_if p s.accepted ≡ count_if p s.queue + count_if p s.busy + count_if p s.finished

count_if-append :
    (p : ClickEvent → Bool) (xs ys : List ClickEvent)
    → count_if p (xs ++ ys) ≡ count_if p xs + count_if p ys
count_if-append p [] ys = omega arith
count_if-append p (x ∷ xs) ys = ground (arith, count_if-append p xs ys)

-- Enqueue takes an event only where the buffer has room, and puts it at the end.
enqueue-eq-ok :
    (size : ℕ) (context_done takes_context : Bool) (event : ClickEvent)
    (queue queue' : List ClickEvent)
    → enqueue size context_done takes_context event queue ≡ (ok tt, queue')
    → (length queue < size) × (queue' ≡ queue ++ event ∷ [])
unfolding enqueue
enqueue-eq-ok size d t event queue queue' h = ground arith

Step-IsBounded : {p q : Pool} → Step p q → IsBounded p → IsBounded q
Step-IsBounded (send p event d t queue' o sent) b =
    let (room, same) = enqueue-eq-ok p.config.queue_size d t event p.queue queue' sent in
    record {
      buffered = ground (arith, same, length-append p.queue (event ∷ []));
      working = b.working;
    }
Step-IsBounded (take p event rest e free) b = record {
  buffered = ground (arith, b.buffered);
  working = omega arith;
}
Step-IsBounded (finish p before after event e) b = record {
  buffered = b.buffered;
  working =
      ground (arith, b.working, length-append before after, length-append before (event ∷ after));
}
Step-IsBounded (close p o) b = record { buffered = b.buffered; working = b.working }

Step-Conserves : (f : ClickEvent → Bool) {p q : Pool} → Step p q → Conserves f p → Conserves f q
Step-Conserves f (send p event d t queue' o sent) c =
    let (room, same) = enqueue-eq-ok p.config.queue_size d t event p.queue queue' sent in
    ground (arith, same, count_if-append f p.queue (event ∷ []))
Step-Conserves f (take p event rest e free) c = ground arith
Step-Conserves f (finish p before after event e) c =
    ground (arith, count_if-append f before after, count_if-append f before (event ∷ after))
Step-Conserves f (close p o) c = c

-- In every reachable state the queue and the workers are within their bounds, and every event that
-- Enqueue accepted is queued, being processed or finished, each as often as it was accepted.
pub Reach-IsBounded :
    (c : Config) (p : Pool) (f : ClickEvent → Bool) → Reach c p → IsBounded p × Conserves f p
unfolding start
Reach-IsBounded c p f here = (record { buffered = omega arith; working = omega arith }, omega arith)
Reach-IsBounded c q f (next {p} r s) =
    let (b, k) = Reach-IsBounded c p f r in (Step-IsBounded s b, Step-Conserves f s k)

-- A shutdown loses nothing: when the workers have left, process has ended for every event that Enqueue
-- ever accepted, as often as it was accepted.
pub drained_finished :
    (c : Config) (p : Pool) (f : ClickEvent → Bool)
    → Reach c p
    → IsDrained p
    → count_if f p.finished ≡ count_if f p.accepted
drained_finished c p f r d = ground (arith, d.emptied, d.idle, (Reach-IsBounded c p f r).1)
