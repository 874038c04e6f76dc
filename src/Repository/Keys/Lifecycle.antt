-- ===== src/Repository/Keys/Lifecycle.antt =====
-- The record of an idempotency key under the statements of repository/idempotency_repository.go.
use mathlib.Core.Option
use go_url_shortener.Base.{
  not, ◌≡◌, refl, Bool, true, Option, some, List, [], ◌∷◌, map, exists, find, arith, exists_of_find,
}
use go_url_shortener.Base.Int.{ℤ, id_eq_iff}
use go_url_shortener.Base.Text.{String, eq_iff}
use go_url_shortener.Model.{IdempotencyRecord, completed}
use go_url_shortener.Outcome.{ok, wrapped, map_error-eq-ok}
use go_url_shortener.Db.{Db, exec, exec-eq-ok, later_replies}
use go_url_shortener.Repository.Keys.{
  is_key, insert_key, reservation, reserve, complete_row, complete_key,
}

module _ (user : ℤ) (key : String) where
  abbrev pub lookup : Db → Option IdempotencyRecord
  lookup d = find (is_key user key) d.keys

  -- Two rows of the same key are told from others alike.
  is_key_same :
      (r q : IdempotencyRecord)
      → is_key user key r ≡ true
      → is_key r.user_id r.idempotency_key q ≡ is_key user key q
  unfolding is_key
  is_key_same r q h = ground (arith, id_eq_iff r.user_id user, eq_iff r.idempotency_key key)

  complete_row-key :
      (done r : IdempotencyRecord) → is_key user key (complete_row done r) ≡ is_key user key r
  unfolding complete_row is_key
  complete_row-key done r = ground arith

  find-complete_row :
      (done : IdempotencyRecord) (rows : List IdempotencyRecord)
      → find (is_key user key) (map (complete_row done) rows)
        ≡ Option.map (complete_row done) (find (is_key user key) rows)
  find-complete_row done [] = refl
  find-complete_row done (r ∷ rs) =
      ground (arith, complete_row-key done r, find-complete_row done rs)

  exists_same :
      (r : IdempotencyRecord) (rows : List IdempotencyRecord)
      → is_key user key r ≡ true
      → exists (is_key r.user_id r.idempotency_key) rows ≡ exists (is_key user key) rows
  exists_same r [] h = refl
  exists_same r (q ∷ rs) h = rw (is_key_same r q h, exists_same r rs h)

  -- An insertion leaves alone the record that the key has.
  lookup-insert :
      (r p : IdempotencyRecord) (d : Db) → lookup d ≡ some p → lookup (insert_key r d).1 ≡ some p
  unfolding insert_key
  lookup-insert r p d h =
      ground (arith, exists_same r d.keys, exists_of_find (is_key user key) d.keys p)

  complete_row_fixed : (done p : IdempotencyRecord) → p.state ≡ completed → complete_row done p ≡ p
  unfolding complete_row
  complete_row_fixed done p h = ground arith

  -- What the key is known to hold: a record that no later write changes.
  abbrev pub IsFinal : IdempotencyRecord → Db → Type 0
  IsFinal p d = (lookup d ≡ some p) × (p.state ≡ completed)

  pub insert_key-IsFinal :
      (p r : IdempotencyRecord) (d : Db) → IsFinal p d → IsFinal p (insert_key r d).1
  insert_key-IsFinal p r d h = (lookup-insert r p d h.0, h.1)

  pub complete_key-IsFinal :
      (p r : IdempotencyRecord) (d : Db) → IsFinal p d → IsFinal p (complete_key r d).1
  unfolding complete_key
  complete_key-IsFinal p r d h =
      (ground (arith, find-complete_row r d.keys, complete_row_fixed r p h.1), h.1)

  -- The key has a row.
  abbrev pub IsTaken : Db → Type 0
  IsTaken d = exists (is_key user key) d.keys ≡ true

  exists-complete_row :
      (done : IdempotencyRecord) (rows : List IdempotencyRecord)
      → exists (is_key user key) (map (complete_row done) rows) ≡ exists (is_key user key) rows
  exists-complete_row done [] = refl
  exists-complete_row done (r ∷ rs) =
      ground (arith, complete_row-key done r, exists-complete_row done rs)

  pub insert_key-IsTaken : (r : IdempotencyRecord) (d : Db) → IsTaken d → IsTaken (insert_key r d).1
  unfolding insert_key
  insert_key-IsTaken r d h = ground arith

  pub complete_key-IsTaken :
      (r : IdempotencyRecord) (d : Db) → IsTaken d → IsTaken (complete_key r d).1
  unfolding complete_key
  complete_key-IsTaken r d h = rw (exists-complete_row r d.keys) h

insert_key-eq-ok :
    (r : IdempotencyRecord) (b : Bool) (d e : Db)
    → insert_key r d ≡ (ok b, e)
    → is_key r.user_id r.idempotency_key r ≡ true
    → (exists (is_key r.user_id r.idempotency_key) e.keys ≡ true)
      × (exists (is_key r.user_id r.idempotency_key) d.keys ≡ not b)
unfolding insert_key
insert_key-eq-ok r b d e h self = ground arith

pub is_key_self : (user : ℤ) (key : String) → is_key user key (reservation user key) ≡ true
unfolding is_key
is_key_self user key = ground (arith, id_eq_iff user user, eq_iff key key)

pub reserve-eq-ok :
    (user : ℤ) (key : String) (b : Bool) (d e : Db)
    → reserve user key d ≡ (ok b, e)
    → IsTaken user key e × (exists (is_key user key) d.keys ≡ not b)
unfolding reserve
reserve-eq-ok user key b d e h =
    insert_key-eq-ok (reservation user key) b (record d { replies = later_replies d.replies }) e
      (exec-eq-ok (insert_key (reservation user key)) d b e (
        map_error-eq-ok (wrapped "reserve idempotency record")
          (exec (insert_key (reservation user key))) d b e h))
      (is_key_self user key)
