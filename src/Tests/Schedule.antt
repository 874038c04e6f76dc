-- ===== src/Tests/Schedule.antt =====
-- Examples for the requests that share the cache.
use go_url_shortener.Base.{ℕ, ◌+◌, ◌≡◌, refl, false, none, some, [], ◌∷◌, find}
use go_url_shortener.Model.{Url}
use go_url_shortener.Outcome.{ok}
use go_url_shortener.Repository.Urls.{is_live}
use go_url_shortener.Cache.{url_cache_key, cache_ttl, get_url, set_url, delete_url}
use go_url_shortener.Service.Cached.Schedule.{
  Shared, cache_of, Reach, here, next, read, write, invalidate, fill_late,
}
use go_url_shortener.Tests.Data.{row_of, memory, row_json, sample_settings}

-- The row "abc", and an empty cache.
abbrev fresh : Shared memory
fresh = record {
  now = 1000;
  rows = row_of "abc" ∷ [];
  store = λ k. none;
  reading = [];
  disturbed = 0;
}

abbrev an_hour : ℕ
an_hour = 3_600_000_000_000

-- A write that leaves the table as it is, an hour, a read and its fill.
abbrev rewritten : Shared memory
rewritten = record fresh { disturbed = 1000 }

abbrev hour_later : Shared memory
hour_later = record rewritten { now = 1000 + an_hour }

abbrev reread : Shared memory
reread = record hour_later { reading = row_of "abc" ∷ [] }

abbrev filled : Shared memory
filled = record reread {
  store =
      (set_url memory row_json sample_settings reread.now (row_of "abc")
        (cache_of memory row_json sample_settings reread [])).1.store;
  reading = [];
}

-- A request has read the row; it is deactivated, and its entry deleted from the cache; then the first
-- request stores the old row.
abbrev has_read : Shared memory
has_read = record fresh { reading = row_of "abc" ∷ [] }

abbrev disabled : Url
disabled = record (row_of "abc") { is_active = false }

abbrev written : Shared memory
written = record has_read { rows = disabled ∷ []; disturbed = 1000 }

abbrev invalidated : Shared memory
invalidated = record written {
  store =
      (delete_url memory row_json sample_settings 1000 "abc"
        (cache_of memory row_json sample_settings written [])).1.store;
}

abbrev late : Shared memory
late = record invalidated {
  store =
      (set_url memory row_json sample_settings 1000 (row_of "abc")
        (cache_of memory row_json sample_settings invalidated [])).1.store;
  reading = [];
}

live_before : find (is_live 1000 "abc") (row_of "abc" ∷ []) ≡ some (row_of "abc")
unfolding is_live
live_before = refl

reached_late : Reach memory row_json sample_settings fresh late
reached_late =
    next
      (next (next (next here (read "abc" (row_of "abc") live_before)) (write (disabled ∷ [])))
        (invalidate "abc" []))
      (fill_late [] [] (row_of "abc") [] refl)

-- From then on the cache answers with the old row, which the table has no longer.
late_hit :
    ((get_url memory row_json sample_settings 2000 "abc"
        (cache_of memory row_json sample_settings late [])).0
      ≡ ok (row_of "abc"))
    × (find (is_live 2000 "abc") late.rows ≡ none)
unfolding set_url get_url delete_url url_cache_key cache_ttl is_live
late_hit = (refl, refl)
