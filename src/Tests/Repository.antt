-- ===== src/Tests/Repository.antt =====
-- Examples for the package repository.

use go_url_shortener.Base.{
  ◌≡◌, ◌≢◌, refl, Bool, true, ◌&&◌, some, List, [], ◌∷◌, All, count_if, arith,
}
use go_url_shortener.Base.Int.{pos, id_eq}
use go_url_shortener.Base.Text.{◌==◌}
use go_url_shortener.Model.{Url, IdempotencyRecord, completed}
use go_url_shortener.Outcome.{ok}
use go_url_shortener.Db.{Db, lost}
use go_url_shortener.Repository.Urls.{create, update, delete, find_by_user_id, owned_by}
use go_url_shortener.Repository.Urls.Invariant.{IsValid, writes-IsValid}
use go_url_shortener.Repository.Urls.Listing.{
  IsNewestFirst, owned_by-user_id, find_by_user_id-IsNewestFirst,
}
use go_url_shortener.Repository.Tokens.{rotate}
use go_url_shortener.Repository.Tokens.Rotation.{Ended, rotate_atomic}
use go_url_shortener.Repository.Keys.{is_key, reserve, insert_key, reservation}
use go_url_shortener.Repository.Keys.History as Keys
use go_url_shortener.Tests.Data.{row_of, token_of, sample_db, sample_json}

sample-IsValid : IsValid sample_db
sample-IsValid = record { fresh = (refl, tt); distinct = (refl, refl, tt) }

writes-IsValid_example :
    IsValid (create (row_of "xyz") sample_db).1
    × IsValid (update (row_of "xyz") sample_db).1
    × IsValid (delete (pos 1) sample_db).1
writes-IsValid_example = writes-IsValid (row_of "xyz") (pos 1) sample_db sample-IsValid

abbrev stored_row : Url
stored_row = record (row_of "xyz") { id = pos 2; created_at = 1000 }

abbrev stored_db : Db
stored_db = record sample_db { urls = stored_row ∷ row_of "abc" ∷ []; next_url = 3 }

-- The row with the code xyz, if it is the user's.
abbrev is_wanted : Url → Bool
is_wanted r = owned_by (pos 1) r && r.short_code == "xyz"

is_wanted-user_id : (r : Url) → is_wanted r ≡ true → r.user_id ≡ some (pos 1)
is_wanted-user_id r h = owned_by-user_id (pos 1) r (ground arith)

find_by_user_id-IsNewestFirst_example :
    (rows : List Url) × ((find_by_user_id (pos 1) stored_db).0 ≡ ok rows)
    × IsNewestFirst rows
    × All (λ (r : Url). r.user_id ≡ some (pos 1)) rows
    × (count_if is_wanted rows ≡ count_if is_wanted stored_db.urls)
find_by_user_id-IsNewestFirst_example =
    find_by_user_id-IsNewestFirst (pos 1) is_wanted stored_db refl is_wanted-user_id

-- The commit takes place and its answer is lost.
rotate_atomic_example :
    Ended
      (pos 1)
      (token_of 0 "second")
      (record sample_db { replies = lost ∷ [] })
      (rotate (pos 1) (token_of 0 "second") (record sample_db { replies = lost ∷ [] }))
rotate_atomic_example =
    rotate_atomic (pos 1) (token_of 0 "second") (record sample_db { replies = lost ∷ [] })

abbrev finished_key : IdempotencyRecord
finished_key = record {
  user_id = pos 1;
  idempotency_key = "key";
  response_body = "{\"id\":2}";
  status_code = 201;
  state = completed;
}

abbrev reserved_db : Db
reserved_db = record sample_db { keys = reservation (pos 1) "key" ∷ [] }

reserved_ok : reserve (pos 1) "key" sample_db ≡ (ok true, reserved_db)
unfolding reserve insert_key is_key id_eq
reserved_ok = refl

reserve_once_example :
    (reserve
      (pos 1)
      "key"
      (Keys.run sample_json reserved_db (Keys.waits 60 ∷ Keys.completes finished_key ∷ []))).0
    ≢ ok true
reserve_once_example =
    Keys.reserve_once sample_json (pos 1) "key" true sample_db reserved_db
      (Keys.waits 60 ∷ Keys.completes finished_key ∷ []) reserved_ok
