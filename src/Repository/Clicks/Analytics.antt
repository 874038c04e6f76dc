-- ===== src/Repository/Clicks/Analytics.antt =====
-- GetAnalytics of repository/click_event_repository.go. The order that the database gives to texts,
-- and the day in UTC of an instant as TO_CHAR prints it, are parameters.
use go_url_shortener.Base.{
  ℕ, suc, Bool, ◌||◌, ◌&&◌, List, [], ◌∷◌, map, ltb, if◌then◌else◌, length, keep_if, ◌==◌ as nat_eq,
}
use go_url_shortener.Base.Int.{ℤ, id_eq}
use go_url_shortener.Base.Text.{String, ◌==◌}
use go_url_shortener.Model.{ClickEvent, AnalyticsCount, ClickAnalytics}
use go_url_shortener.Outcome.{wrapped, ok, Action, map_error, pure, ◌>>=◌}
use go_url_shortener.Db.{Db, exec}

pub record Locale : Type 0 where
  pub text_le : String → String → Bool
  pub day_of : ℕ → String

-- COALESCE(NULLIF(text, ''), default)
abbrev pub or_text : String → String → String
or_text default text = if text == "" then default else text

-- GROUP BY 1 with COUNT(*): one more row of a name.
unfoldable pub count_name : String → List AnalyticsCount → List AnalyticsCount
count_name name [] = record { name = name; count = 1 } ∷ []
count_name name (g ∷ gs) =
    if g.name == name then record g { count = suc g.count } ∷ gs else g ∷ count_name name gs

unfoldable pub group_names : List String → List AnalyticsCount
group_names [] = []
group_names (name ∷ names) = count_name name (group_names names)

-- Where a group stands in an order.
unfoldable pub insert_group :
    (AnalyticsCount → AnalyticsCount → Bool)
    → AnalyticsCount
    → List AnalyticsCount
    → List AnalyticsCount
insert_group before g [] = g ∷ []
insert_group before g (k ∷ ks) = if before g k then g ∷ k ∷ ks else k ∷ insert_group before g ks

unfoldable pub sort_groups :
    (AnalyticsCount → AnalyticsCount → Bool) → List AnalyticsCount → List AnalyticsCount
sort_groups before [] = []
sort_groups before (g ∷ gs) = insert_group before g (sort_groups before gs)

-- WHERE url_id = $1
abbrev pub is_click_of : ℤ → ClickEvent → Bool
is_click_of id c = id_eq c.url_id id

abbrev pub device_name : ClickEvent → String
device_name c = or_text "unknown" c.device_category

abbrev pub referrer_name : ClickEvent → String
referrer_name c = or_text "direct" c.referrer

module _ (locale : Locale) where
  -- ORDER BY COUNT(*) DESC, 1
  abbrev pub by_count : AnalyticsCount → AnalyticsCount → Bool
  by_count a b = ltb b.count a.count || nat_eq a.count b.count && locale.text_le a.name b.name

  -- ORDER BY 1
  abbrev pub by_name : AnalyticsCount → AnalyticsCount → Bool
  by_name a b = locale.text_le a.name b.name

  unfoldable pub select_total : ℤ → Action Db ℕ
  select_total id d = (ok (length (keep_if (is_click_of id) d.clicks)), d)

  unfoldable pub select_groups :
      (ClickEvent → String)
      → (AnalyticsCount → AnalyticsCount → Bool)
      → ℤ
      → Action Db (List AnalyticsCount)
  select_groups name before id d =
      (ok (sort_groups before (group_names (map name (keep_if (is_click_of id) d.clicks)))), d)

  abbrev pub day_name : ClickEvent → String
  day_name c = locale.day_of c.clicked_at

  unfoldable pub get_analytics : ℤ → Action Db ClickAnalytics
  get_analytics id = do
    total ← map_error (wrapped "count click events") (exec (select_total id))
    devices ←
        map_error (wrapped "query device analytics") (exec (select_groups device_name by_count id))
    referrers ←
        map_error (wrapped "query referrer analytics")
          (exec (select_groups referrer_name by_count id))
    days ← map_error (wrapped "query daily analytics") (exec (select_groups day_name by_name id))
    pure (record {
      total_clicks = total;
      by_device = devices;
      by_referrer = referrers;
      daily_clicks = days;
    })
