-- ===== src/Repository/Clicks/Summary.antt =====
-- What GetAnalytics of repository/click_event_repository.go answers.
use go_url_shortener.Base.{ℕ, ◌≡◌, Bool, sym, ap, ◌∙◌, List, map, keep_if, count_if, subst}
use go_url_shortener.Base.Int.{ℤ}
use go_url_shortener.Base.Text.{String}
use go_url_shortener.Model.{ClickEvent, AnalyticsCount, ClickAnalytics}
use go_url_shortener.Outcome.{ok, ok_inj, wrapped, map_error, map_error-eq-ok, >>=-eq-ok}
use go_url_shortener.Db.{Db, exec, exec-eq-ok}
use go_url_shortener.Repository.Clicks.Analytics.{
  Locale, group_names, sort_groups, is_click_of, by_count, by_name, select_total, select_groups,
  device_name, referrer_name, day_name, get_analytics,
}
use go_url_shortener.Repository.Clicks.Totals.{
  IsTally, Falling, sort_groups-IsTally, Falling-sort_groups, length-keep_if,
}

module _ (locale : Locale) where
  -- A statement that succeeds has tallied the rows of the table, which it leaves as they are.
  select_groups-IsTally :
      (text : String) (before : AnalyticsCount → AnalyticsCount → Bool) (id : ℤ)
      (name : ClickEvent → String) (d e : Db) (gs : List AnalyticsCount)
      → map_error (wrapped text) (exec (select_groups locale name before id)) d ≡ (ok gs, e)
      → (e.clicks ≡ d.clicks)
        × (gs ≡ sort_groups before (group_names (map name (keep_if (is_click_of id) d.clicks))))
        × IsTally id name d.clicks gs
  unfolding select_groups
  select_groups-IsTally text before id name d e gs h =
      let query = select_groups locale name before id in
      let h' = exec-eq-ok query d gs e (map_error-eq-ok (wrapped text) (exec query) d gs e h) in
      let gs-eq = ok_inj (ap (λ r. r.0) (sym h')) in
      (
        ap (λ r. r.1.clicks) (sym h'),
        gs-eq,
        subst (IsTally id name d.clicks) (sym gs-eq) (sort_groups-IsTally before id name d.clicks),
      )

  -- The counts of a reply, against the rows of the table.
  pub record IsSummary (id : ℤ) (clicks : List ClickEvent) (a : ClickAnalytics) : Type 0 where
    pub total : a.total_clicks ≡ count_if (is_click_of id) clicks
    pub devices : IsTally id device_name clicks a.by_device
    pub devices_fall : Falling a.by_device
    pub referrers : IsTally id referrer_name clicks a.by_referrer
    pub referrers_fall : Falling a.by_referrer
    pub days : IsTally id (day_name locale) clicks a.daily_clicks

  select_total-eq-ok :
      (id : ℤ) (d e : Db) (n : ℕ)
      → map_error (wrapped "count click events") (exec (select_total locale id)) d ≡ (ok n, e)
      → (e.clicks ≡ d.clicks) × (n ≡ count_if (is_click_of id) d.clicks)
  unfolding select_total
  select_total-eq-ok id d e n h =
      let query = select_total locale id in
      let h' =
        exec-eq-ok query d n e
          (map_error-eq-ok (wrapped "count click events") (exec query) d n e h) in
      (
        ap (λ r. r.1.clicks) (sym h'),
        ok_inj (ap (λ r. r.0) (sym h')) ∙ length-keep_if (is_click_of id) d.clicks,
      )

  -- The analytics that GetAnalytics returns agree with the rows of the table: the total is the
  -- number of clicks of the URL; the counts per device, per referrer and per day, summed over the
  -- names that pass any test, are the number of its clicks whose names pass it; no name stands
  -- twice; and devices and referrers stand by falling counts.
  pub get_analytics-IsSummary :
      (id : ℤ) (d e : Db) (a : ClickAnalytics)
      → get_analytics locale id d ≡ (ok a, e)
      → IsSummary id d.clicks a
  unfolding get_analytics
  get_analytics-IsSummary id d e a h =
      let total = map_error (wrapped "count click events") (exec (select_total locale id)) in
      let devices =
        map_error (wrapped "query device analytics")
          (exec (select_groups locale device_name (by_count locale) id)) in
      let referrers =
        map_error (wrapped "query referrer analytics")
          (exec (select_groups locale referrer_name (by_count locale) id)) in
      let days =
        map_error (wrapped "query daily analytics")
          (exec (select_groups locale (day_name locale) (by_name locale) id)) in
      let (n, d₁, h₁, k₁) = >>=-eq-ok total _ d h in
      let (by_device, d₂, h₂, k₂) = >>=-eq-ok devices _ d₁ k₁ in
      let (by_referrer, d₃, h₃, k₃) = >>=-eq-ok referrers _ d₂ k₂ in
      let (by_day, d₄, h₄, k₄) = >>=-eq-ok days _ d₃ k₃ in
      let (c₁, total-eq) = select_total-eq-ok id d d₁ n h₁ in
      let (c₂, devices-eq, t₂) =
        select_groups-IsTally "query device analytics" (by_count locale) id device_name d₁ d₂
          by_device h₂ in
      let (c₃, referrers-eq, t₃) =
        select_groups-IsTally "query referrer analytics" (by_count locale) id referrer_name d₂ d₃
          by_referrer h₃ in
      let (c₄, days-eq, t₄) =
        select_groups-IsTally "query daily analytics" (by_name locale) id (day_name locale) d₃ d₄
          by_day h₄ in
      let same : record {
        total_clicks = n;
        by_device = by_device;
        by_referrer = by_referrer;
        daily_clicks = by_day;
      }
          ≡ a =
        ok_inj (ap (λ r. r.0) k₄) in
      let same₂ = c₂ ∙ c₁ in
      let same₃ = c₃ ∙ same₂ in
      subst (IsSummary id d.clicks) same (record {
        total = total-eq;
        devices = subst (λ cs. IsTally id device_name cs by_device) c₁ t₂;
        devices_fall = subst Falling (sym devices-eq) (Falling-sort_groups locale _);
        referrers = subst (λ cs. IsTally id referrer_name cs by_referrer) same₂ t₃;
        referrers_fall = subst Falling (sym referrers-eq) (Falling-sort_groups locale _);
        days = subst (λ cs. IsTally id (day_name locale) cs by_day) same₃ t₄;
      })
