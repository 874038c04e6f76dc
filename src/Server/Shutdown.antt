-- ===== src/Server/Shutdown.antt =====
-- How main.go stops: the signal, server.Shutdown with its ten seconds, clickWorker.Shutdown of
-- worker/click_worker.go, and the closing of the database, while handlers and workers still run.
pub mod Graceful
use go_url_shortener.Base.{
  ℕ, zero, suc, ◌+◌, ◌-◌, ◌≤◌, ◌<◌, ◌≡◌, refl, sym, ap, ◌∙◌, ◌⊎◌, inl, inr, Bool-cases, Bool, true,
  false, List, [], ◌∷◌, ◌++◌, count_if, arith,
}
use go_url_shortener.Model.{ClickEvent}
use go_url_shortener.Worker.{Config}
use go_url_shortener.Worker.Pool.{Pool, IsDrained, drained_finished}
use go_url_shortener.Worker.Pool

-- Where main is: at `<-stop`, in server.Shutdown, past it, in wg.Wait of clickWorker.Shutdown, and past
-- db.Close.
pub data Phase : Type 0 where
  serving draining returned waiting stopped : Phase

-- handlers counts the handlers that run; late is whether server.Shutdown returned an error; panics counts
-- the sends on the closed queue.
pub record Process : Type 0 where
  pub phase : Phase
  pub handlers : ℕ
  pub late : Bool
  pub panics : ℕ
  pub pool : Pool

unfoldable pub start : Config → Process
start c = record { phase = serving; handlers = 0; late = false; panics = 0; pool = Pool.start c }

-- Whether the server may still start a handler: until server.Shutdown has returned, and after it where
-- it gave up on open connections.
unfoldable pub may_serve : Phase → Bool → Bool
may_serve serving late = true
may_serve draining late = true
may_serve returned late = late
may_serve waiting late = late
may_serve stopped late = late

pub data Step : Process → Process → Type 0 where
  begin :
      (p : Process)
      → may_serve p.phase p.late ≡ true
      → Step p (record p { handlers = suc p.handlers })
  leave : (p : Process) (n : ℕ) → p.handlers ≡ suc n → Step p (record p { handlers = n })
  -- Enqueue in a handler
  enqueue :
      (p : Process) (pool : Pool)
      → 0 < p.handlers
      → Pool.Step p.pool pool
      → pool.closed ≡ p.pool.closed
      → Step p (record p { pool = pool })
  -- a step of a worker
  work :
      (p : Process) (pool : Pool)
      → Pool.Step p.pool pool
      → pool.closed ≡ p.pool.closed
      → pool.accepted ≡ p.pool.accepted
      → Step p (record p { pool = pool })
  -- Enqueue in a handler after close(p.queue): the send panics, and the server ends the handler
  panic :
      (p : Process) (n : ℕ)
      → p.handlers ≡ suc n
      → p.pool.closed ≡ true
      → Step p (record p { handlers = n; panics = suc p.panics })
  signal : (p : Process) → p.phase ≡ serving → Step p (record p { phase = draining })
  -- server.Shutdown returns when no handler runs, or when the time is over
  quiet :
      (p : Process) → p.phase ≡ draining → p.handlers ≡ 0 → Step p (record p { phase = returned })
  time_out :
      (p : Process) → p.phase ≡ draining → Step p (record p { phase = returned; late = true })
  -- clickWorker.Shutdown: close(p.queue), then wg.Wait
  close :
      (p : Process)
      → p.phase ≡ returned
      → Step p (record p { phase = waiting; pool = record p.pool { closed = true } })
  stop :
      (p : Process) → p.phase ≡ waiting → IsDrained p.pool → Step p (record p { phase = stopped })

pub data Reach (c : Config) : Process → Type 0 where
  here : Reach c (start c)
  next : {p q : Process} → Reach c p → Step p q → Reach c q
