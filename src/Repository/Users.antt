-- ===== src/Repository/Users.antt =====
-- repository/user_repository.go: PostgresUserRepository over the table users
-- (migration/001_init.sql, migration/002_auth.sql).
use Prim.Native.String.{count}
use go_url_shortener.Base.{suc, ◌∷◌, ltb, ◌||◌, if◌then◌else◌, exists, find}
use go_url_shortener.Base.Int.{ℤ, pos, id_eq}
use go_url_shortener.Base.Text.{String, ◌==◌}
use go_url_shortener.Model.{User}
use go_url_shortener.Outcome.{pg_error, ok, err, Action}
use go_url_shortener.Db.{Db, exec}
use go_url_shortener.Repository.Urls.{row_or_error}

-- INSERT INTO users … RETURNING id, created_at; email is VARCHAR(320) NOT NULL UNIQUE and role is
-- VARCHAR(32).
unfoldable pub insert_user : User → Action Db User
insert_user user d =
    let row = record user { id = pos d.next_user; created_at = d.now } in
    let d' = record d { next_user = suc d.next_user } in
    if ltb 320 (count user.email) || ltb 32 (count user.role)
    then (err (pg_error "22001"), d')
    else if exists (λ (u : User). u.email == user.email) d.users
    then (err (pg_error "23505"), d')
    else (ok row, record d' { users = row ∷ d.users })

unfoldable pub create : User → Action Db User
create user = exec (insert_user user)

-- SELECT … WHERE email = $1
unfoldable pub select_by_email : String → Action Db User
select_by_email email d = (row_or_error (find (λ (u : User). u.email == email) d.users), d)

unfoldable pub find_by_email : String → Action Db User
find_by_email email = exec (select_by_email email)

-- SELECT … WHERE id = $1
unfoldable pub select_by_id : ℤ → Action Db User
select_by_id id d = (row_or_error (find (λ (u : User). id_eq u.id id) d.users), d)

unfoldable pub find_by_id : ℤ → Action Db User
find_by_id id = exec (select_by_id id)
