-- ===== src/Repository/Keys/History.antt =====
-- Histories of the table idempotency_keys, by the calls of repository/idempotency_repository.go.
use go_url_shortener.Base.{
  ℕ, ◌≢◌, ◌+◌, ◌≡◌, refl, Bool, true, some, List, [], ◌∷◌, arith, Bool-cases, inl, inr,
}
use go_url_shortener.Base.Int.{ℤ}
use go_url_shortener.Base.Text.{String}
use go_url_shortener.Model.{IdempotencyRecord, completed}
use go_url_shortener.Outcome.{Result, ok, err, Action, wrapped, map_error_keeps}
use go_url_shortener.Db.{Db, Reply, exec, exec_keeps}
use go_url_shortener.Repository.Keys.{
  insert_key, reservation, reserve, complete_key, complete, create, JsonText, with_body, store_body,
}
use go_url_shortener.Repository.Keys.Lifecycle.{
  lookup, IsFinal, IsTaken, insert_key-IsFinal, complete_key-IsFinal, insert_key-IsTaken,
  complete_key-IsTaken, reserve-eq-ok,
}

-- What may happen to the table: the calls of the repository by any users, time passing, and any
-- answers of the server.
pub data Call : Type 0 where
  reserves : ℤ → String → Call
  completes : IdempotencyRecord → Call
  creates : IdempotencyRecord → Call
  waits : ℕ → Call
  answers : List Reply → Call

module _ (json : JsonText) where
  unfoldable pub step : Db → Call → Db
  step d (reserves user key) = (reserve user key d).1
  step d (completes r) = (complete json r d).1
  step d (creates r) = (create json r d).1
  step d (waits n) = record d { now = d.now + n }
  step d (answers rs) = record d { replies = rs }

  unfoldable pub run : Db → List Call → Db
  run d [] = d
  run d (c ∷ cs) = run (step d c) cs

  -- The body is one that the column has printed.
  abbrev pub IsPrinted : IdempotencyRecord → Type 0
  IsPrinted r = json.jsonb r.response_body ≡ ok r.response_body

  pub reservation-IsPrinted : (user : ℤ) (key : String) → IsPrinted (reservation user key)
  reservation-IsPrinted user key = json.jsonb-empty

  -- A property of the table that the two statements keep holds after every history.
  module _ {ℓ} (P : Db → Type ℓ)
      (blind : (d : Db) (rs : List Reply) → P d → P (record d { replies = rs }))
      (aged : (d : Db) (n : ℕ) → P d → P (record d { now = n }))
      (inserted : (r : IdempotencyRecord) (d : Db) → IsPrinted r → P d → P (insert_key r d).1)
      (finished : (r : IdempotencyRecord) (d : Db)
        → IsPrinted r
        → P d
        → P (complete_key r d).1) where
    with_body_keeps :
        {A : Type 0} (statement : IdempotencyRecord → Action Db A) (r : IdempotencyRecord)
        (o : Result String)
        → ((q : IdempotencyRecord) (d : Db) → IsPrinted q → P d → P (statement q d).1)
        → json.jsonb r.response_body ≡ o
        → (d : Db) → P d
        → P (with_body statement r o d).1
    with_body_keeps statement r (err e) keep made d h = h
    with_body_keeps statement r (ok text) keep made d h =
        keep (record r { response_body = text }) d (json.jsonb_again r.response_body text made) h

    store_body_keeps :
        {A : Type 0} (statement : IdempotencyRecord → Action Db A) (r : IdempotencyRecord)
        → ((q : IdempotencyRecord) (d : Db) → IsPrinted q → P d → P (statement q d).1)
        → (d : Db) → P d
        → P (store_body json statement r d).1
    unfolding store_body
    store_body_keeps statement r keep =
        with_body_keeps statement r (json.jsonb r.response_body) keep refl

    pub complete_keeps : (r : IdempotencyRecord) (d : Db) → P d → P (complete json r d).1
    unfolding complete
    complete_keeps r d h = elim (Bool-cases (json.valid r.response_body)) [
      | inl valid ↦ rw valid (
          exec_keeps (store_body json complete_key r) P blind
            (store_body_keeps complete_key r finished) d h)
      | inr bad ↦ rw bad h
    ]

    create_keeps : (r : IdempotencyRecord) (d : Db) → P d → P (create json r d).1
    unfolding create
    create_keeps r d h = elim (Bool-cases (json.valid r.response_body)) [
      | inl valid ↦ rw valid (
          map_error_keeps P (wrapped "create idempotency record")
            (exec (store_body json insert_key (record r { state = completed })))
            (exec_keeps (store_body json insert_key (record r { state = completed })) P blind
              (store_body_keeps insert_key (record r { state = completed }) inserted))
            d h)
      | inr bad ↦ rw bad h
    ]

    pub reserve_keeps : (user : ℤ) (key : String) (d : Db) → P d → P (reserve user key d).1
    unfolding reserve
    reserve_keeps user key =
        map_error_keeps P (wrapped "reserve idempotency record")
          (exec (insert_key (reservation user key)))
          (exec_keeps (insert_key (reservation user key)) P blind
            (λ d. inserted (reservation user key) d (reservation-IsPrinted user key)))

    step_keeps : (d : Db) (c : Call) → P d → P (step d c)
    unfolding step
    step_keeps d (reserves user key) h = reserve_keeps user key d h
    step_keeps d (completes r) h = complete_keeps r d h
    step_keeps d (creates r) h = create_keeps r d h
    step_keeps d (waits n) h = aged d _ h
    step_keeps d (answers rs) h = blind d rs h

    pub run_keeps : (d : Db) (cs : List Call) → P d → P (run d cs)
    unfolding run
    run_keeps d [] h = h
    run_keeps d (c ∷ cs) h = run_keeps (step d c) cs (step_keeps d c h)

  -- A completed record is final: after every history of the table the key still has the same record,
  -- with the same response body and status.
  pub completed_forever :
      (user : ℤ) (key : String) (p : IdempotencyRecord) (d : Db) (cs : List Call)
      → lookup user key d ≡ some p
      → p.state ≡ completed
      → lookup user key (run d cs) ≡ some p
  completed_forever user key p d cs h k =
      (run_keeps (IsFinal user key p) (λ d rs h. h) (λ d n h. h)
        (λ r d _. insert_key-IsFinal user key p r d) (λ r d _. complete_key-IsFinal user key p r d)
        d cs (h, k)).0

  -- A key is reserved once: after a call of Reserve that answered, with either answer, no later call
  -- for the same key answers true, whatever happens to the table in between.
  pub reserve_once :
      (user : ℤ) (key : String) (b : Bool) (d e : Db) (cs : List Call)
      → reserve user key d ≡ (ok b, e)
      → (reserve user key (run e cs)).0 ≢ ok true
  reserve_once user key b d e cs h again =
      let taken =
        run_keeps (IsTaken user key) (λ d rs h. h) (λ d n h. h)
          (λ r d _. insert_key-IsTaken user key r d) (λ r d _. complete_key-IsTaken user key r d) e
          cs (reserve-eq-ok user key b d e h).0 in
      let second =
        reserve-eq-ok user key true (run e cs) (reserve user key (run e cs)).1
          (λ i. (again i, (reserve user key (run e cs)).1)) in
      ground arith
