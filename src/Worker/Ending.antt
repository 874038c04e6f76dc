-- ===== src/Worker/Ending.antt =====
-- The wait of Shutdown in worker/click_worker.go: after close(p.queue) the workers empty the queue and leave.
use go_url_shortener.Base.{
  ℕ, zero, suc, ◌+◌, ◌*◌, ◌≤◌, ◌<◌, ◌≡◌, refl, ◌∙◌, ◌⊎◌, inl, inr, true, List, [], ◌∷◌, length,
  length-append, arith,
}
use go_url_shortener.Base.Int.{ℤ, pos, negsuc}
use go_url_shortener.Model.{ClickEvent}
use go_url_shortener.Worker.{Config, or_default, new_config}
use go_url_shortener.Worker.Pool.{
  Pool, start, Step, send, take, finish, close, Reach, here, next, IsDrained,
}

-- A run of that many steps.
pub data Steps : ℕ → Pool → Pool → Type 0 where
  still : {p : Pool} → Steps 0 p p
  then : {n : ℕ} {p q r : Pool} → Step p q → Steps n q r → Steps (suc n) p r

-- How many steps the workers have before them: two for an event in the queue, one for an event in hand.
unfoldable pub pending : Pool → ℕ
pending p = 2 * length p.queue + length p.busy

-- Every step of a closed pool brings the end nearer, and leaves it closed.
step-pending :
    {p q : Pool}
    → Step p q
    → p.closed ≡ true
    → (suc (pending q) ≡ pending p) × (q.closed ≡ true) × (q.config ≡ p.config)
unfolding pending
step-pending (send p event d t queue open_ sent) shut = absurd (ground arith)
step-pending (take p event rest e free) shut = (ground arith, shut, refl)
step-pending (finish p before after event e) shut =
    (ground (arith, length-append before after, length-append before (event ∷ after)), shut, refl)
step-pending (close p open_) shut = absurd (ground arith)

-- A worker is free to take an event, or has one to finish.
next_step :
    (p : Pool) (queue busy : List ClickEvent)
    → p.queue ≡ queue
    → p.busy ≡ busy
    → p.closed ≡ true
    → 0 < p.config.worker_count
    → IsDrained p ⊎ ((q : Pool) × Step p q)
next_step p [] [] e b shut workers = inl (record { shut = shut; emptied = e; idle = b })
next_step p (event ∷ rest) [] e b shut workers = inr (_, take p event rest e (ground arith))
next_step p queue (event ∷ busy) e b shut workers = inr (_, finish p [] busy event b)

-- A run of the workers of a closed pool is short, and goes on until they have left.
closing_ends :
    (p q : Pool) (n : ℕ)
    → p.closed ≡ true
    → 0 < p.config.worker_count
    → Steps n p q
    → (n ≤ pending p) × (IsDrained q ⊎ ((r : Pool) × Step q r))
closing_ends p q n shut workers still =
    (omega arith, next_step p p.queue p.busy refl refl shut workers)
closing_ends p q n shut workers (then {n = m} {q = p'} s rest) =
    let (fewer, closed, same) = step-pending s shut in
    let (bounded, end) = closing_ends p' q m closed (ground (arith, same)) rest in
    (omega arith, end)

Step-config : {p q : Pool} → Step p q → q.config ≡ p.config
Step-config (send p event d t queue open_ sent) = refl
Step-config (take p event rest e free) = refl
Step-config (finish p before after event e) = refl
Step-config (close p open_) = refl

Reach-config : (c : Config) {p : Pool} → Reach c p → p.config ≡ c
unfolding start
Reach-config c here = refl
Reach-config c (next before last) = Step-config last ∙ Reach-config c before

or_default-gt-zero : (d : ℕ) (i : ℤ) → 0 < d → 0 < or_default d i
or_default-gt-zero d (pos zero) positive = positive
or_default-gt-zero d (pos (suc n)) positive = omega arith
or_default-gt-zero d (negsuc n) positive = positive

-- The wait of Shutdown ends: in a pool of NewClickWorkerPool, whatever its arguments, a run of the
-- workers after the queue is closed has at most two steps for an event that is queued and one for
-- an event in hand, and where it can go no further the workers have left.
pub wait_ends :
    (workers size retries backoff : ℤ) (p q : Pool) (n : ℕ)
    → Reach (new_config workers size retries backoff) p
    → p.closed ≡ true
    → Steps n p q
    → (n ≤ pending p) × (IsDrained q ⊎ ((r : Pool) × Step q r))
unfolding new_config
wait_ends workers size retries backoff p q n reached shut steps =
    closing_ends p q n shut
      (rw (Reach-config _ reached) (or_default-gt-zero 4 workers (omega arith))) steps
