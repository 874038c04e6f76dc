-- ===== src/Repository/Clicks/Totals.antt =====
-- The counts of GetAnalytics of repository/click_event_repository.go against the rows of the table.
use go_url_shortener.Base.{
  ℕ, ◌+◌, ◌≤◌, ◌≡◌, refl, ◌∙◌, Bool, false, ◌||◌, ◌&&◌, List, [], ◌∷◌, map, if◌then◌else◌, length,
  keep_if, count_if, exists, All, arith,
}
use go_url_shortener.Base.Int.{ℤ}
use go_url_shortener.Base.Text.{String, ◌==◌, eq_iff}
use go_url_shortener.Model.{ClickEvent, AnalyticsCount}
use go_url_shortener.Repository.Clicks.Analytics.{
  Locale, count_name, group_names, insert_group, sort_groups, is_click_of, by_count,
}

-- The clicks of the groups whose names pass a test.
abbrev pub sum_if : (String → Bool) → List AnalyticsCount → ℕ
sum_if p [] = 0
sum_if p (g ∷ gs) = (if p g.name then g.count else 0) + sum_if p gs

-- Every group has a name of its own.
abbrev pub Apart : List AnalyticsCount → Type 0
Apart [] = Unit
Apart (g ∷ gs) = (exists (λ (k : AnalyticsCount). k.name == g.name) gs ≡ false) × Apart gs

-- The groups stand by falling counts.
abbrev pub Falling : List AnalyticsCount → Type 0
Falling [] = Unit
Falling (g ∷ gs) = All (λ (k : AnalyticsCount). k.count ≤ g.count) gs × Falling gs

sum_if-count_name :
    (p : String → Bool) (name : String) (gs : List AnalyticsCount)
    → sum_if p (count_name name gs) ≡ (if p name then 1 else 0) + sum_if p gs
unfolding count_name
sum_if-count_name p name [] = ground arith
sum_if-count_name p name (g ∷ gs) = ground (arith, eq_iff g.name name, sum_if-count_name p name gs)

sum_if-group_names :
    (p : String → Bool) (names : List String) → sum_if p (group_names names) ≡ count_if p names
unfolding group_names
sum_if-group_names p [] = refl
sum_if-group_names p (name ∷ names) =
    ground (arith, sum_if-count_name p name (group_names names), sum_if-group_names p names)

exists-count_name :
    (other name : String) (gs : List AnalyticsCount)
    → exists (λ (k : AnalyticsCount). k.name == other) (count_name name gs)
      ≡ (name == other || exists (λ (k : AnalyticsCount). k.name == other) gs)
unfolding count_name
exists-count_name other name [] = refl
exists-count_name other name (g ∷ gs) =
    ground (arith, eq_iff g.name name, exists-count_name other name gs)

Apart-count_name :
    (name : String) (gs : List AnalyticsCount) → Apart gs → Apart (count_name name gs)
unfolding count_name
Apart-count_name name [] a = (refl, tt)
Apart-count_name name (g ∷ gs) a = ground (
  arith,
  eq_iff g.name name,
  eq_iff name g.name,
  exists-count_name g.name name gs,
  Apart-count_name name gs a.1,
)

Apart-group_names : (names : List String) → Apart (group_names names)
unfolding group_names
Apart-group_names [] = tt
Apart-group_names (name ∷ names) =
    Apart-count_name name (group_names names) (Apart-group_names names)

module _ (before : AnalyticsCount → AnalyticsCount → Bool) where
  sum_if-insert_group :
      (p : String → Bool) (g : AnalyticsCount) (gs : List AnalyticsCount)
      → sum_if p (insert_group before g gs) ≡ sum_if p (g ∷ gs)
  unfolding insert_group
  sum_if-insert_group p g [] = refl
  sum_if-insert_group p g (k ∷ ks) = ground (arith, sum_if-insert_group p g ks)

  sum_if-sort_groups :
      (p : String → Bool) (gs : List AnalyticsCount)
      → sum_if p (sort_groups before gs) ≡ sum_if p gs
  unfolding sort_groups
  sum_if-sort_groups p [] = refl
  sum_if-sort_groups p (g ∷ gs) =
      ground (arith, sum_if-insert_group p g (sort_groups before gs), sum_if-sort_groups p gs)

  exists-insert_group :
      (q : AnalyticsCount → Bool) (g : AnalyticsCount) (gs : List AnalyticsCount)
      → exists q (insert_group before g gs) ≡ (q g || exists q gs)
  unfolding insert_group
  exists-insert_group q g [] = refl
  exists-insert_group q g (k ∷ ks) = ground (arith, exists-insert_group q g ks)

  exists-sort_groups :
      (q : AnalyticsCount → Bool) (gs : List AnalyticsCount)
      → exists q (sort_groups before gs) ≡ exists q gs
  unfolding sort_groups
  exists-sort_groups q [] = refl
  exists-sort_groups q (g ∷ gs) =
      ground (arith, exists-insert_group q g (sort_groups before gs), exists-sort_groups q gs)

  Apart-insert_group :
      (g : AnalyticsCount) (gs : List AnalyticsCount)
      → exists (λ (k : AnalyticsCount). k.name == g.name) gs ≡ false
      → Apart gs
      → Apart (insert_group before g gs)
  unfolding insert_group
  Apart-insert_group g [] n a = (refl, tt)
  Apart-insert_group g (k ∷ ks) n a = ground (
    arith,
    eq_iff g.name k.name,
    eq_iff k.name g.name,
    exists-insert_group (λ (j : AnalyticsCount). j.name == k.name) g ks,
    Apart-insert_group g ks,
  )

  Apart-sort_groups : (gs : List AnalyticsCount) → Apart gs → Apart (sort_groups before gs)
  unfolding sort_groups
  Apart-sort_groups [] a = tt
  Apart-sort_groups (g ∷ gs) a =
      Apart-insert_group g (sort_groups before gs)
        (exists-sort_groups (λ (k : AnalyticsCount). k.name == g.name) gs ∙ a.0)
        (Apart-sort_groups gs a.1)

abbrev UpTo : ℕ → List AnalyticsCount → Type 0
UpTo n gs = All (λ (k : AnalyticsCount). k.count ≤ n) gs

UpTo-le : (m n : ℕ) (gs : List AnalyticsCount) → m ≤ n → UpTo m gs → UpTo n gs
UpTo-le m n [] le h = tt
UpTo-le m n (g ∷ gs) le h = (omega arith, UpTo-le m n gs le h.1)

module _ (locale : Locale) where
  UpTo-insert_group :
      (n : ℕ) (g : AnalyticsCount) (gs : List AnalyticsCount)
      → g.count ≤ n
      → UpTo n gs
      → UpTo n (insert_group (by_count locale) g gs)
  unfolding insert_group
  UpTo-insert_group n g [] le h = (le, tt)
  UpTo-insert_group n g (k ∷ ks) le h = ground (arith, UpTo-insert_group n g ks le h.1)

  Falling-insert_group :
      (g : AnalyticsCount) (gs : List AnalyticsCount)
      → Falling gs
      → Falling (insert_group (by_count locale) g gs)
  unfolding insert_group
  Falling-insert_group g [] f = (tt, tt)
  Falling-insert_group g (k ∷ ks) f = ground (
    arith,
    UpTo-le k.count g.count ks,
    UpTo-insert_group k.count g ks,
    Falling-insert_group g ks f.1,
  )

  pub Falling-sort_groups : (gs : List AnalyticsCount) → Falling (sort_groups (by_count locale) gs)
  unfolding sort_groups
  Falling-sort_groups [] = tt
  Falling-sort_groups (g ∷ gs) =
      Falling-insert_group g (sort_groups (by_count locale) gs) (Falling-sort_groups gs)

-- The groups count, for every test on names, the clicks of a URL whose names pass it, and no name
-- stands twice.
abbrev pub IsTally : ℤ → (ClickEvent → String) → List ClickEvent → List AnalyticsCount → Type 0
IsTally id name clicks gs =
    ((p : String → Bool)
      → sum_if p gs ≡ count_if (λ (c : ClickEvent). is_click_of id c && p (name c)) clicks)
    × Apart gs

count_if-map :
    (id : ℤ) (name : ClickEvent → String) (p : String → Bool) (clicks : List ClickEvent)
    → count_if p (map name (keep_if (is_click_of id) clicks))
      ≡ count_if (λ (c : ClickEvent). is_click_of id c && p (name c)) clicks
count_if-map id name p [] = refl
count_if-map id name p (c ∷ cs) = ground (arith, count_if-map id name p cs)

pub length-keep_if :
    (p : ClickEvent → Bool) (clicks : List ClickEvent)
    → length (keep_if p clicks) ≡ count_if p clicks
length-keep_if p [] = refl
length-keep_if p (c ∷ cs) = ground (arith, length-keep_if p cs)

pub sort_groups-IsTally :
    (before : AnalyticsCount → AnalyticsCount → Bool) (id : ℤ) (name : ClickEvent → String)
    (clicks : List ClickEvent)
    → IsTally id name clicks
        (sort_groups before (group_names (map name (keep_if (is_click_of id) clicks))))
sort_groups-IsTally before id name clicks =
    let names = map name (keep_if (is_click_of id) clicks) in
    (
      λ p.
          sum_if-sort_groups before p (group_names names)
          ∙ sum_if-group_names p names
          ∙ count_if-map id name p clicks,
      Apart-sort_groups before (group_names names) (Apart-group_names names),
    )
