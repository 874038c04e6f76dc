-- ===== src/Repository/Tokens.antt =====
-- repository/refresh_token_repository.go: PostgresRefreshTokenRepository over the table
-- refresh_tokens (migration/002_auth.sql).
pub mod Rotation
pub mod Replay
pub mod Hashes
use Prim.Native.String.{count}
use go_url_shortener.Base.{
  ℕ, suc, Bool, true, false, ◌&&◌, not, Option, none, some, List, [], ◌∷◌, map, ltb, if◌then◌else◌,
  exists, find,
}
use go_url_shortener.Base.Int.{ℤ, pos, id_eq}
use go_url_shortener.Base.Text.{String, ◌==◌}
use go_url_shortener.Model.{RefreshToken, User}
use go_url_shortener.Outcome.{
  Error, driver, no_rows, pg_error, Result, ok, err, Action, ◌>>=◌, ◌>>◌,
}
use go_url_shortener.Db.{Db, Reply, served, refused, lost, exec, answer, next_reply, later_replies}
use go_url_shortener.Repository.Urls.{row_or_error}

-- INSERT INTO refresh_tokens … RETURNING id, created_at; token_hash is CHAR(64) NOT NULL UNIQUE,
-- user_id references users(id).
unfoldable pub insert_token : RefreshToken → Action Db RefreshToken
insert_token token d =
    let row = record token { id = pos d.next_token; created_at = d.now; revoked_at = none } in
    let d' = record d { next_token = suc d.next_token } in
    if ltb 64 (count token.token_hash)
    then (err (pg_error "22001"), d')
    else if exists (λ (t : RefreshToken). t.token_hash == token.token_hash) d.tokens
    then (err (pg_error "23505"), d')
    else if not (exists (λ (u : User). id_eq u.id token.user_id) d.users)
    then (err (pg_error "23503"), d')
    else (
      ok (record token { id = pos d.next_token; created_at = d.now }),
      record d' { tokens = row ∷ d.tokens },
    )

unfoldable pub create : RefreshToken → Action Db RefreshToken
create token = exec (insert_token token)

abbrev pub is_unrevoked : RefreshToken → Bool
is_unrevoked t = elim t.revoked_at [ none ↦ true | some _ ↦ false ]

-- token_hash = $1 AND revoked_at IS NULL AND expires_at > NOW()
unfoldable pub is_active : ℕ → String → RefreshToken → Bool
is_active now hash t = t.token_hash == hash && is_unrevoked t && ltb now t.expires_at

unfoldable pub select_active : String → Action Db RefreshToken
select_active hash d = (row_or_error (find (is_active d.now hash) d.tokens), d)

unfoldable pub find_active_by_hash : String → Action Db RefreshToken
find_active_by_hash hash = exec (select_active hash)

-- WHERE id = $1 AND revoked_at IS NULL
unfoldable pub is_target : ℤ → RefreshToken → Bool
is_target id t = id_eq t.id id && is_unrevoked t

unfoldable pub revoke_row : ℕ → ℤ → RefreshToken → RefreshToken
revoke_row now id t = if is_target id t then record t { revoked_at = some now } else t

-- UPDATE refresh_tokens SET revoked_at = NOW() WHERE …, and sql.ErrNoRows where no row is affected
unfoldable pub revoke_token : ℤ → Action Db (Unit {0})
revoke_token id d = (
  if exists (is_target id) d.tokens then ok tt else err no_rows,
  record d { tokens = map (revoke_row d.now id) d.tokens },
)

unfoldable pub revoke : ℤ → Action Db (Unit {0})
revoke id = exec (revoke_token id)

-- A statement inside a transaction works on the transaction's own copy of the tables; a lost answer
-- is an error there too.
abbrev begin_tx : Action Db (Unit {0})
begin_tx d = (ok tt, d)

abbrev in_tx : RefreshToken → ℤ → Action Db RefreshToken
in_tx new old = do exec begin_tx; exec (revoke_token old); exec (insert_token new)

-- What an outer database keeps of a transaction's copy: the tables where it commits, and in any case
-- the replies used up and the ids drawn from the sequence.
abbrev roll_back : Db → Db → Db
roll_back d t = record d { replies = t.replies; next_token = t.next_token }

-- tx.Commit; a lost answer means that the commit took place.
abbrev commit_tx : Reply → RefreshToken → Db → Db → Result RefreshToken × Db
commit_tx served row d t = (ok row, t)
commit_tx refused row d t = (err driver, roll_back d t)
commit_tx lost row d t = (err driver, t)

abbrev finish_tx : Db → Result RefreshToken × Db → Result RefreshToken × Db
finish_tx d (err e, t) = (err e, roll_back d t)
finish_tx d (ok row, t) =
    commit_tx (next_reply t.replies) row d (record t { replies = later_replies t.replies })

unfoldable pub rotate : ℤ → RefreshToken → Action Db RefreshToken
rotate old new d = finish_tx d (in_tx new old d)
