-- ===== src/Repository/Clicks.antt =====
-- repository/click_event_repository.go: PostgresClickEventRepository.Create over the table
-- click_events (migration/003_click_events.sql).
pub mod Analytics
pub mod Totals
pub mod Summary
use Prim.Native.String.{count}
use go_url_shortener.Base.{suc, Bool, ◌||◌, not, ◌∷◌, ltb, if◌then◌else◌, exists}
use go_url_shortener.Base.Int.{pos}
use go_url_shortener.Base.Text.{◌==◌}
use go_url_shortener.Model.{ClickEvent}
use go_url_shortener.Outcome.{wrapped, pg_error, ok, err, Action, map_error}
use go_url_shortener.Db.{Db, exec}
use go_url_shortener.Repository.Urls.{has_id}

abbrev pub same_event : ClickEvent → ClickEvent → Bool
same_event event row = row.event_key == event.event_key

-- INSERT … ON CONFLICT (event_key) DO NOTHING; event_key is VARCHAR(64), device_category is
-- VARCHAR(32), url_id references urls(id).
unfoldable pub insert_click : ClickEvent → Action Db (Unit {0})
insert_click event d =
    let d' = record d { next_click = suc d.next_click } in
    if ltb 64 (count event.event_key) || ltb 32 (count event.device_category)
    then (err (pg_error "22001"), d')
    else if exists (same_event event) d.clicks
    then (ok tt, d')
    else if not (exists (has_id event.url_id) d.urls)
    then (err (pg_error "23503"), d')
    else (ok tt, record d' { clicks = record event { id = pos d.next_click } ∷ d.clicks })

unfoldable pub create : ClickEvent → Action Db (Unit {0})
create event = map_error (wrapped "create click event") (exec (insert_click event))
