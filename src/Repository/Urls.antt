-- ===== src/Repository/Urls.antt =====
-- repository/url_repository.go: PostgresURLRepository over the table urls (migration/001_init.sql,
-- migration/006_custom_alias.sql). Each SQL statement is a function on the rows.
pub mod Invariant
pub mod Lookup
pub mod Codes
pub mod Lasting
pub mod Listing
use Prim.Native.String.{count}
use go_url_shortener.Base.{
  ℕ, suc, Bool, true, false, ◌||◌, ◌&&◌, not, Option, none, some, List, [], ◌∷◌, map, ltb, leb,
  if◌then◌else◌, exists, find, keep_if, ◌==◌ as nat_eq,
}
use go_url_shortener.Base.Int.{ℤ, pos, id_eq, leb_ℤ}
use go_url_shortener.Base.Text.{String, ◌==◌}
use go_url_shortener.Model.{Url, User, ClickEvent}
use go_url_shortener.Outcome.{Error, no_rows, pg_error, Result, ok, err, Action}
use go_url_shortener.Db.{Db, exec}

-- The row that Scan reads, or sql.ErrNoRows.
abbrev pub row_or_error : {A : Type 0} → Option A → Result A
row_or_error none = err no_rows
row_or_error (some row) = ok row

abbrev pub has_id : ℤ → Url → Bool
has_id id row = id_eq row.id id

-- short_code is UNIQUE; custom_alias is unique where it is not null.
abbrev pub same_alias : Option String → Option String → Bool
same_alias (some a) (some b) = a == b
same_alias _ _ = false

unfoldable pub clashes : Url → Url → Bool
clashes url row = url.short_code == row.short_code || same_alias url.custom_alias row.custom_alias

-- short_code and custom_alias are VARCHAR(32).
abbrev alias_too_long : Option String → Bool
alias_too_long none = false
alias_too_long (some a) = ltb 32 (count a)

unfoldable pub too_long : Url → Bool
too_long url = ltb 32 (count url.short_code) || alias_too_long url.custom_alias

-- user_id REFERENCES users(id)
abbrev lacks_owner : Option ℤ → List User → Bool
lacks_owner none users = false
lacks_owner (some id) users = not (exists (λ (u : User). id_eq u.id id) users)

unfoldable pub no_owner : Url → List User → Bool
no_owner url users = lacks_owner url.user_id users

-- INSERT INTO urls … RETURNING id, created_at. The sequence advances whatever comes of the row.
unfoldable pub insert_url : Url → Action Db Url
insert_url url d =
    let row = record url { id = pos d.next_url; created_at = d.now } in
    let d' = record d { next_url = suc d.next_url } in
    if too_long url
    then (err (pg_error "22001"), d')
    else if exists (clashes url) d.urls
    then (err (pg_error "23505"), d')
    else if no_owner url d.users
    then (err (pg_error "23503"), d')
    else (ok row, record d' { urls = row ∷ d.urls })

unfoldable pub create : Url → Action Db Url
create url = exec (insert_url url)

-- SELECT … WHERE id = $1
unfoldable pub select_by_id : ℤ → Action Db Url
select_by_id id d = (row_or_error (find (has_id id) d.urls), d)

unfoldable pub find_by_id : ℤ → Action Db Url
find_by_id id = exec (select_by_id id)

-- expires_at IS NULL OR expires_at > NOW()
abbrev pub unexpired : ℕ → Option ℕ → Bool
unexpired now none = true
unexpired now (some t) = ltb now t

unfoldable pub is_live : ℕ → String → Url → Bool
is_live now code row = row.short_code == code && row.is_active && unexpired now row.expires_at

-- SELECT … WHERE short_code = $1 AND is_active = TRUE AND (…)
unfoldable pub select_by_short_code : String → Action Db Url
select_by_short_code code d = (row_or_error (find (is_live d.now code) d.urls), d)

unfoldable pub find_by_short_code : String → Action Db Url
find_by_short_code code = exec (select_by_short_code code)

-- ORDER BY created_at DESC, id DESC
unfoldable pub precedes : Url → Url → Bool
precedes a b = ltb b.created_at a.created_at || nat_eq a.created_at b.created_at && leb_ℤ b.id a.id

insert_sorted : Url → List Url → List Url
insert_sorted row [] = row ∷ []
insert_sorted row (r ∷ rs) = if precedes row r then row ∷ r ∷ rs else r ∷ insert_sorted row rs

sort_rows : List Url → List Url
sort_rows [] = []
sort_rows (r ∷ rs) = insert_sorted r (sort_rows rs)

abbrev pub owned_by : ℤ → Url → Bool
owned_by id row = elim row.user_id [ none ↦ false | some u ↦ id_eq u id ]

-- SELECT … WHERE user_id = $1 ORDER BY created_at DESC, id DESC
unfoldable pub select_by_user_id : ℤ → Action Db (List Url)
unfolding insert_sorted sort_rows
select_by_user_id id d = (ok (sort_rows (keep_if (owned_by id) d.urls)), d)

unfoldable pub find_by_user_id : ℤ → Action Db (List Url)
find_by_user_id id = exec (select_by_user_id id)

-- SET original_url = $1, expires_at = $2, is_active = $3 WHERE id = $4
unfoldable pub edit_row : Url → Url → Url
edit_row url row =
    if has_id url.id row
    then record row {
      original_url = url.original_url;
      expires_at = url.expires_at;
      is_active = url.is_active;
    }
    else row

unfoldable pub update_url : Url → Action Db Url
update_url url d =
    let urls' = map (edit_row url) d.urls in
    (row_or_error (find (has_id url.id) urls'), record d { urls = urls' })

unfoldable pub update : Url → Action Db Url
update url = exec (update_url url)

-- DELETE FROM urls WHERE id = $1, and sql.ErrNoRows where no row is affected. The clicks of the
-- row go with it: click_events.url_id is ON DELETE CASCADE.
unfoldable pub delete_url : ℤ → Action Db (Unit {0})
delete_url id d = (
  if exists (has_id id) d.urls then ok tt else err no_rows,
  record d {
    urls = keep_if (λ (r : Url). not (has_id id r)) d.urls;
    clicks =
        keep_if (λ (c : ClickEvent). not (exists (has_id id) d.urls && id_eq c.url_id id)) d.clicks;
  },
)

unfoldable pub delete : ℤ → Action Db (Unit {0})
delete id = exec (delete_url id)
