-- ===== src/Repository/Keys.antt =====
-- repository/idempotency_repository.go: PostgresIdempotencyRepository over the table
-- idempotency_keys (migration/004_idempotency.sql, migration/005_idempotency_reservations.sql).
-- json.Valid and the column type JSONB of response_body are parameters of the operations that use them.
pub mod Lifecycle
pub mod Results
pub mod History
pub mod Printed
use Prim.Native.String.{count}
use go_url_shortener.Base.{
  ℕ, ◌≡◌, Bool, true, false, ◌&&◌, not, Option, none, some, List, [], ◌∷◌, map, ltb, if◌then◌else◌,
  exists, find, count_if, ◌==◌ as nat_eq,
}
use go_url_shortener.Base.Int.{ℤ, id_eq}
use go_url_shortener.Base.Text.{String, ◌==◌}
use go_url_shortener.Model.{IdempotencyRecord, KeyState, pending, completed, User}
use go_url_shortener.Outcome.{
  Error, message, wrapped, pg_error, Result, ok, err, Action, map_error, fail,
}
use go_url_shortener.Db.{Db, exec}

-- What encoding/json and a JSONB column make of a text. The column gives back the text in which PostgreSQL
-- prints the value, with its own spaces and order of keys, or refuses the text. Printed again it is the
-- same text, and an empty object is printed as it is written.
pub record JsonText : Type 0 where
  pub valid : String → Bool
  pub jsonb : String → Result String
  pub jsonb-empty : jsonb "{}" ≡ ok "{}"
  pub jsonb_again : (s t : String) → jsonb s ≡ ok t → jsonb t ≡ ok t

-- A statement with a response body for the column.
abbrev pub with_body :
    {A : Type 0}
    → (IdempotencyRecord → Action Db A)
    → IdempotencyRecord
    → Result String
    → Action Db A
with_body statement r (err e) d = (err e, d)
with_body statement r (ok text) d = statement (record r { response_body = text }) d

unfoldable pub store_body :
    {A : Type 0} → JsonText → (IdempotencyRecord → Action Db A) → IdempotencyRecord → Action Db A
store_body json statement r = with_body statement r (json.jsonb r.response_body)

-- user_id = $1 AND idempotency_key = $2
unfoldable pub is_key : ℤ → String → IdempotencyRecord → Bool
is_key user key r = id_eq r.user_id user && r.idempotency_key == key

abbrev pub is_pending : KeyState → Bool
is_pending pending = true
is_pending completed = false

-- SELECT …; no row is no record and no error
unfoldable pub select_key : ℤ → String → Action Db (Option IdempotencyRecord)
select_key user key d = (ok (find (is_key user key) d.keys), d)

unfoldable pub get : ℤ → String → Action Db (Option IdempotencyRecord)
get user key = map_error (wrapped "get idempotency record") (exec (select_key user key))

-- INSERT … ON CONFLICT (user_id, idempotency_key) DO NOTHING: whether a row was inserted.
-- idempotency_key is VARCHAR(255), user_id references users(id).
unfoldable pub insert_key : IdempotencyRecord → Action Db Bool
insert_key r d =
    if ltb 255 (count r.idempotency_key)
    then (err (pg_error "22001"), d)
    else if exists (is_key r.user_id r.idempotency_key) d.keys
    then (ok false, d)
    else if not (exists (λ (u : User). id_eq u.id r.user_id) d.users)
    then (err (pg_error "23503"), d)
    else (ok true, record d { keys = r ∷ d.keys })

-- INSERT … '{}'
abbrev pub reservation : ℤ → String → IdempotencyRecord
reservation user key = record {
  user_id = user;
  idempotency_key = key;
  response_body = "{}";
  status_code = 0;
  state = pending;
}

unfoldable pub reserve : ℤ → String → Action Db Bool
reserve user key =
    map_error (wrapped "reserve idempotency record") (exec (insert_key (reservation user key)))

abbrev pub is_open : ℤ → String → IdempotencyRecord → Bool
is_open user key r = is_key user key r && is_pending r.state

-- SET response_body = $1, status_code = $2, state = 'completed', with the body as the column gives it back
unfoldable pub complete_row : IdempotencyRecord → IdempotencyRecord → IdempotencyRecord
complete_row done r =
    if is_open done.user_id done.idempotency_key r
    then record r {
      response_body = done.response_body;
      status_code = done.status_code;
      state = completed;
    }
    else r

-- UPDATE … WHERE … AND state = 'pending': the number of rows
unfoldable pub complete_key : IdempotencyRecord → Action Db ℕ
complete_key done d = (
  ok (count_if (is_open done.user_id done.idempotency_key) d.keys),
  record d { keys = map (complete_row done) d.keys },
)

abbrev pub expect_one : Result ℕ → Result (Unit {0})
expect_one (ok n) = if nat_eq n 1 then ok tt else err (message "idempotency record was not pending")
expect_one (err e) = err (wrapped "complete idempotency record" e)

abbrev pub check_one : Result ℕ × Db → Result (Unit {0}) × Db
check_one (n, d) = (expect_one n, d)

unfoldable pub complete : JsonText → IdempotencyRecord → Action Db (Unit {0})
complete json r d =
    if json.valid r.response_body
    then check_one (exec (store_body json complete_key r) d)
    else (err (message "invalid response JSON"), d)

unfoldable pub create : JsonText → IdempotencyRecord → Action Db Bool
create json r d =
    if json.valid r.response_body
    then map_error (wrapped "create idempotency record")
        (exec (store_body json insert_key (record r { state = completed }))) d
    else (err (message "invalid response JSON"), d)
