-- ===== src/Worker/Delivery.antt =====
-- process of worker/click_worker.go, by the rows of the table of clicks.
use go_url_shortener.Base.{
  ℕ, zero, suc, ◌≤◌, ◌≡◌, ◌≢◌, refl, Bool, false, List, [], ◌∷◌, exists, count_if, arith,
}
use go_url_shortener.Base.Text.{String, ◌==◌, eq_iff}
use go_url_shortener.Model.{ClickEvent}
use go_url_shortener.Outcome.{Error, Result, ok, err, Action, wrapped, map_error_keeps}
use go_url_shortener.Db.{Db, Reply, exec, exec_keeps}
use go_url_shortener.Repository.Clicks.{same_event, insert_click, create}
use go_url_shortener.Worker.{after_attempt, process_from, process}

-- The rows of an event key.
abbrev pub rows_of : String → Db → ℕ
rows_of key d = count_if (λ (c : ClickEvent). c.event_key == key) d.clicks

count-eq-zero :
    (p : ClickEvent → Bool) (rows : List ClickEvent) → exists p rows ≡ false → count_if p rows ≡ 0
count-eq-zero p [] h = refl
count-eq-zero p (r ∷ rs) h = ground (arith, count-eq-zero p rs)

-- The statement keeps the bound of one row, and the rows of every other key.
abbrev pub AtMostOnce : String → Db → Type 0
AtMostOnce key d = rows_of key d ≤ 1

insert_click-AtMostOnce :
    (event : ClickEvent) (key : String) (d : Db)
    → AtMostOnce key d
    → AtMostOnce key (insert_click event d).1
unfolding insert_click
insert_click-AtMostOnce event key d h =
    ground (arith, eq_iff event.event_key key, count-eq-zero (same_event event) d.clicks)

abbrev HasRows : String → ℕ → Db → Type 0
HasRows key n d = rows_of key d ≡ n

insert_click-HasRows :
    (event : ClickEvent) (key : String) (n : ℕ) (d : Db)
    → key ≢ event.event_key
    → HasRows key n d
    → HasRows key n (insert_click event d).1
unfolding insert_click
insert_click-HasRows event key n d ne h = ground (arith, eq_iff event.event_key key)

-- What one attempt keeps the whole loop keeps, if it does not speak of the clock.
module _ {ℓ} (P : Db → Type ℓ) (event : ClickEvent)
    (blind : (d : Db) (rs : List Reply) → P d → P (record d { replies = rs }))
    (timeless : (d : Db) (n : ℕ) → P d → P (record d { now = n }))
    (inserted : (d : Db) → P d → P (insert_click event d).1) where
  create_keeps : (d : Db) → P d → P (create event d).1
  unfolding create
  create_keeps =
      map_error_keeps P (wrapped "create click event") (exec (insert_click event))
        (exec_keeps (insert_click event) P blind inserted)

  after_attempt_keeps :
      (next : Error → Action Db (Unit {0}))
      → ((e : Error) (d : Db) → P d → P (next e d).1)
      → (r : Result (Unit {0}) × Db) → P r.1
      → P (after_attempt next r).1
  after_attempt_keeps next keep (ok _, d) h = h
  after_attempt_keeps next keep (err e, d) h = keep e d h

  process_from_keeps :
      (left attempt base : ℕ) (last : Result (Unit {0})) (d : Db)
      → P d
      → P (process_from left attempt base event last d).1
  unfolding process_from
  process_from_keeps zero attempt base last d h = h
  process_from_keeps (suc zero) attempt base last d h =
      after_attempt_keeps _ (λ e d' k. k) (create event d) (create_keeps d h)
  process_from_keeps (suc (suc left)) attempt base last d h =
      after_attempt_keeps _
        (λ e d' k. process_from_keeps (suc left) (suc attempt) base (err e) _ (timeless d' _ k))
        (create event d) (create_keeps d h)

-- Retries are idempotent: however often the event is tried, and whatever the server answers, also
-- where it runs an insertion and the answer is lost, a table with at most one row for a key keeps
-- at most one.
pub process-AtMostOnce :
    (max_retries base : ℕ) (event : ClickEvent) (key : String) (d : Db)
    → AtMostOnce key d
    → AtMostOnce key (process max_retries base event d).1
unfolding process
process-AtMostOnce max_retries base event key d h =
    process_from_keeps (AtMostOnce key) event (λ d rs k. k) (λ d n k. k)
      (insert_click-AtMostOnce event key) max_retries 1 base (ok tt) d h

-- The attempts for one event leave the number of rows of every other event key as it was.
pub process_isolated :
    (max_retries base : ℕ) (event : ClickEvent) (key : String) (d : Db)
    → key ≢ event.event_key
    → rows_of key (process max_retries base event d).1 ≡ rows_of key d
unfolding process
process_isolated max_retries base event key d ne =
    process_from_keeps (HasRows key (rows_of key d)) event (λ d rs k. k) (λ d n k. k)
      (λ d' k. insert_click-HasRows event key (rows_of key d) d' ne k) max_retries 1 base (ok tt) d
      refl
