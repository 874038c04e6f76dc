-- ===== src/Repository/Keys/Printed.antt =====
-- The bodies of the table idempotency_keys are texts that PostgreSQL has printed.
use go_url_shortener.Base.{
  ◌≡◌, Bool, some, List, [], ◌∷◌, map, find, All, arith, Bool-cases, inl, inr,
}
use go_url_shortener.Base.Int.{ℤ}
use go_url_shortener.Base.Text.{String}
use go_url_shortener.Model.{IdempotencyRecord}
use go_url_shortener.Outcome.{wrapped, map_error_keeps}
use go_url_shortener.Db.{Db, exec, exec_keeps}
use go_url_shortener.Repository.Keys.{
  JsonText, insert_key, is_open, complete_row, complete_key, reserve, get, select_key,
}
use go_url_shortener.Repository.Keys.Lifecycle.{lookup}
use go_url_shortener.Repository.Keys.History.{Call, run, IsPrinted, reserve_keeps, run_keeps}

module _ (json : JsonText) where
  -- Every body of the table has been printed.
  abbrev pub AllPrinted : Db → Type 0
  AllPrinted d = All (IsPrinted json) d.keys

  insert_key-AllPrinted :
      (r : IdempotencyRecord) (d : Db)
      → IsPrinted json r
      → AllPrinted d
      → AllPrinted (insert_key r d).1
  unfolding insert_key
  insert_key-AllPrinted r d p h = ground (arith, p, h)

  complete_row-IsPrinted :
      (done r : IdempotencyRecord)
      → IsPrinted json done
      → IsPrinted json r
      → IsPrinted json (complete_row done r)
  unfolding complete_row
  complete_row-IsPrinted done r p h =
      elim (Bool-cases (is_open done.user_id done.idempotency_key r)) [
        | inl open_ ↦ rw open_ p
        | inr other ↦ rw other h
      ]

  All-complete_row :
      (done : IdempotencyRecord) (rows : List IdempotencyRecord)
      → IsPrinted json done
      → All (IsPrinted json) rows
      → All (IsPrinted json) (map (complete_row done) rows)
  All-complete_row done [] p h = tt
  All-complete_row done (r ∷ rs) p h =
      (complete_row-IsPrinted done r p h.0, All-complete_row done rs p h.1)

  complete_key-AllPrinted :
      (r : IdempotencyRecord) (d : Db)
      → IsPrinted json r
      → AllPrinted d
      → AllPrinted (complete_key r d).1
  unfolding complete_key
  complete_key-AllPrinted r d p h = All-complete_row r d.keys p h

  pub get-AllPrinted :
      (user : ℤ) (key : String) (d : Db) → AllPrinted d → AllPrinted (get user key d).1
  unfolding get select_key
  get-AllPrinted user key =
      map_error_keeps AllPrinted (wrapped "get idempotency record") (exec (select_key user key))
        (exec_keeps (select_key user key) AllPrinted (λ d rs h. h) (λ d h. h))

  pub reserve-AllPrinted :
      (user : ℤ) (key : String) (d : Db) → AllPrinted d → AllPrinted (reserve user key d).1
  reserve-AllPrinted =
      reserve_keeps json AllPrinted (λ d rs h. h) (λ d n h. h) insert_key-AllPrinted
        complete_key-AllPrinted

  -- Every history of the table keeps it so.
  pub run-AllPrinted : (d : Db) (cs : List Call) → AllPrinted d → AllPrinted (run json d cs)
  run-AllPrinted =
      run_keeps json AllPrinted (λ d rs h. h) (λ d n h. h) insert_key-AllPrinted
        complete_key-AllPrinted

  All-find :
      (p : IdempotencyRecord → Bool) (rows : List IdempotencyRecord) (rec : IdempotencyRecord)
      → All (IsPrinted json) rows
      → find p rows ≡ some rec
      → IsPrinted json rec
  All-find p [] rec h e = absurd (grind arith)
  All-find p (r ∷ rs) rec h e = ground (arith, All-find p rs rec h.1, h.0)

  pub lookup-IsPrinted :
      (user : ℤ) (key : String) (d : Db) (rec : IdempotencyRecord)
      → AllPrinted d
      → lookup user key d ≡ some rec
      → IsPrinted json rec
  lookup-IsPrinted user key d rec h e = All-find _ d.keys rec h e
