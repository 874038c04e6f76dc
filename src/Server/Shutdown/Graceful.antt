-- ===== src/Server/Shutdown/Graceful.antt =====
-- The shutdown of main.go with the click workers: what holds in every state of the process, and when it
-- has stopped.
use go_url_shortener.Base.{
  ℕ, suc, ◌≡◌, refl, sym, ap, ◌∙◌, ◌⊎◌, inl, inr, Bool-cases, Bool, true, false, List, [], ◌∷◌,
  ◌++◌, count_if, arith,
}
use go_url_shortener.Model.{ClickEvent}
use go_url_shortener.Worker.{Config}
use go_url_shortener.Worker.Pool.{Pool, IsDrained, drained_finished}
use go_url_shortener.Worker.Pool
use go_url_shortener.Server.Shutdown.{
  Phase, serving, draining, returned, waiting, stopped, Process, start, may_serve, Step, begin,
  leave, enqueue, work, panic, signal, quiet, time_out, close, stop, Reach, here, next,
}

unfoldable is_closed : Phase → Bool
is_closed serving = false
is_closed draining = false
is_closed returned = false
is_closed waiting = true
is_closed stopped = true

-- No handler runs once server.Shutdown has returned in time, and none has met the closed queue.
abbrev IsQuiet : Process → Type 0
IsQuiet p = (p.panics ≡ 0) × ((may_serve p.phase false ≡ true) ⊎ (p.handlers ≡ 0))

abbrev IsGraceful : Process → Type 0
IsGraceful p = (p.late ≡ true) ⊎ IsQuiet p

record IsOrderly (c : Config) (p : Process) : Type 0 where
  pub reached : Pool.Reach c p.pool
  pub shut : p.pool.closed ≡ is_closed p.phase
  pub drained : p.phase ≡ stopped → IsDrained p.pool
  pub graceful : IsGraceful p

append-cons-ne-nil : (xs ys : List ClickEvent) (x : ClickEvent) → xs ++ x ∷ ys ≡ [] → ⊥
append-cons-ne-nil [] ys x e = absurd (grind arith)
append-cons-ne-nil (y ∷ xs) ys x e = absurd (grind arith)

-- Nothing happens in a pool that is drained.
drained_still : {p q : Pool} → Pool.Step p q → IsDrained p → ⊥
drained_still (Pool.send p event d t queue o sent) i = absurd (ground (arith, i.shut))
drained_still (Pool.take p event rest e free) i = absurd (ground (arith, i.emptied))
drained_still (Pool.finish p before after event e) i =
    append-cons-ne-nil before after event (sym e ∙ i.idle)
drained_still (Pool.close p o) i = absurd (ground (arith, i.shut))

-- A queue that is closed is closed by main, past server.Shutdown.
closed_unserved : (phase : Phase) → is_closed phase ≡ true → may_serve phase false ≡ true → ⊥
unfolding may_serve is_closed
closed_unserved serving c o = absurd (grind arith)
closed_unserved draining c o = absurd (grind arith)
closed_unserved returned c o = absurd (grind arith)
closed_unserved waiting c o = absurd (grind arith)
closed_unserved stopped c o = absurd (grind arith)

begin-IsGraceful :
    (p : Process)
    → may_serve p.phase p.late ≡ true
    → IsGraceful p
    → IsGraceful (record p { handlers = suc p.handlers })
begin-IsGraceful p may (inl late) = inl late
begin-IsGraceful p may (inr (unhurt, _)) = elim (Bool-cases p.late) [
  | inl late ↦ inl late
  | inr punctual ↦ inr (unhurt, inl (rw punctual at may))
]

leave-IsGraceful :
    (p : Process) (n : ℕ)
    → p.handlers ≡ suc n
    → IsGraceful p
    → IsGraceful (record p { handlers = n })
leave-IsGraceful p n e (inl late) = inl late
leave-IsGraceful p n e (inr (unhurt, inl serves)) = inr (unhurt, inl serves)
leave-IsGraceful p n e (inr (unhurt, inr none)) = absurd (omega arith)

panic-IsGraceful :
    (p : Process) (n : ℕ)
    → p.handlers ≡ suc n
    → is_closed p.phase ≡ true
    → IsGraceful p
    → IsGraceful (record p { handlers = n; panics = suc p.panics })
panic-IsGraceful p n e shut (inl late) = inl late
panic-IsGraceful p n e shut (inr (unhurt, inl serves)) =
    absurd (closed_unserved p.phase shut serves)
panic-IsGraceful p n e shut (inr (unhurt, inr none)) = absurd (omega arith)

signal-IsGraceful : (p : Process) → IsGraceful p → IsGraceful (record p { phase = draining })
unfolding may_serve
signal-IsGraceful p (inl late) = inl late
signal-IsGraceful p (inr (unhurt, _)) = inr (unhurt, inl refl)

quiet-IsGraceful :
    (p : Process) → p.handlers ≡ 0 → IsGraceful p → IsGraceful (record p { phase = returned })
quiet-IsGraceful p none (inl late) = inl late
quiet-IsGraceful p none (inr (unhurt, _)) = inr (unhurt, inr none)

-- from one phase that starts no handler to another
later-IsGraceful :
    (p : Process) (phase : Phase)
    → may_serve p.phase false ≡ false
    → IsGraceful p
    → IsGraceful (record p { phase = phase })
later-IsGraceful p phase shut (inl late) = inl late
later-IsGraceful p phase shut (inr (unhurt, inl serves)) = absurd (grind arith)
later-IsGraceful p phase shut (inr (unhurt, inr none)) = inr (unhurt, inr none)

-- what a step inside the pool keeps
pool-IsOrderly :
    (c : Config) (p : Process) (pool : Pool)
    → Pool.Step p.pool pool
    → pool.closed ≡ p.pool.closed
    → IsOrderly c p
    → IsOrderly c (record p { pool = pool })
pool-IsOrderly c p pool s same i = record {
  reached = Pool.next i.reached s;
  shut = same ∙ i.shut;
  drained = λ e. absurd (drained_still s (i.drained e));
  graceful = i.graceful;
}

Step-IsOrderly : (c : Config) {p q : Process} → Step p q → IsOrderly c p → IsOrderly c q
unfolding may_serve is_closed
Step-IsOrderly c (begin p may) i = record {
  reached = i.reached;
  shut = i.shut;
  drained = i.drained;
  graceful = begin-IsGraceful p may i.graceful;
}
Step-IsOrderly c (leave p n e) i = record {
  reached = i.reached;
  shut = i.shut;
  drained = i.drained;
  graceful = leave-IsGraceful p n e i.graceful;
}
Step-IsOrderly c (enqueue p pool running s same) i = pool-IsOrderly c p pool s same i
Step-IsOrderly c (work p pool s same kept) i = pool-IsOrderly c p pool s same i
Step-IsOrderly c (panic p n e shut) i = record {
  reached = i.reached;
  shut = i.shut;
  drained = i.drained;
  graceful = panic-IsGraceful p n e (sym i.shut ∙ shut) i.graceful;
}
Step-IsOrderly c (signal p e) i = record {
  reached = i.reached;
  shut = i.shut ∙ ap is_closed e;
  drained = λ stop. absurd (grind arith);
  graceful = signal-IsGraceful p i.graceful;
}
Step-IsOrderly c (quiet p e none) i = record {
  reached = i.reached;
  shut = i.shut ∙ ap is_closed e;
  drained = λ stop. absurd (grind arith);
  graceful = quiet-IsGraceful p none i.graceful;
}
Step-IsOrderly c (time_out p e) i = record {
  reached = i.reached;
  shut = i.shut ∙ ap is_closed e;
  drained = λ stop. absurd (grind arith);
  graceful = inl refl;
}
Step-IsOrderly c (close p e) i = record {
  reached = Pool.next i.reached (Pool.close p.pool (i.shut ∙ ap is_closed e));
  shut = refl;
  drained = λ stop. absurd (grind arith);
  graceful = later-IsGraceful p waiting (ap (λ phase. may_serve phase false) e) i.graceful;
}
Step-IsOrderly c (stop p e drained) i = record {
  reached = i.reached;
  shut = drained.shut;
  drained = λ _. drained;
  graceful = later-IsGraceful p stopped (ap (λ phase. may_serve phase false) e) i.graceful;
}

Reach-IsOrderly : (c : Config) {p : Process} → Reach c p → IsOrderly c p
unfolding start Pool.start may_serve is_closed
Reach-IsOrderly c here = record {
  reached = Pool.here;
  shut = refl;
  drained = λ stop. absurd (grind arith);
  graceful = inr (refl, inl refl);
}
Reach-IsOrderly c (next before last) = Step-IsOrderly c last (Reach-IsOrderly c before)

-- Once the process has stopped, no handler is left that could have met the closed queue.
stopped-IsGraceful :
    (p : Process)
    → p.phase ≡ stopped
    → IsGraceful p
    → (p.late ≡ true) ⊎ ((p.panics ≡ 0) × (p.handlers ≡ 0))
unfolding may_serve
stopped-IsGraceful p e (inl late) = inl late
stopped-IsGraceful p e (inr (unhurt, inl serves)) = absurd (grind arith)
stopped-IsGraceful p e (inr (unhurt, inr none)) = inr (unhurt, none)

-- When main has stopped, process has ended for every event that Enqueue ever accepted, as often as
-- it was accepted, before the database is closed. And either server.Shutdown ran out of its ten
-- seconds, or no handler has met the closed queue and none is left.
pub shutdown_graceful :
    (c : Config) (p : Process) (f : ClickEvent → Bool)
    → Reach c p
    → p.phase ≡ stopped
    → (count_if f p.pool.finished ≡ count_if f p.pool.accepted)
      × ((p.late ≡ true) ⊎ ((p.panics ≡ 0) × (p.handlers ≡ 0)))
shutdown_graceful c p f r e =
    let i = Reach-IsOrderly c r in
    (drained_finished c p.pool f i.reached (i.drained e), stopped-IsGraceful p e i.graceful)
