-- ===== src/Repository/Urls/Listing.antt =====
-- The order and the content of what FindByUserID of repository/url_repository.go returns.
use go_url_shortener.Base.{
  ◌≡◌, refl, ◌∙◌, Bool, true, false, List, [], ◌∷◌, arith, count_if, keep_if, All, Bool-cases,
  Option-cases, inl, inr, ◌&&◌, not, ◌<◌, ◌⊎◌, some,
}
use go_url_shortener.Base.Int.{ℤ, id_eq_iff, leb_ℤ}
use go_url_shortener.Model.{Url}
use go_url_shortener.Outcome.{ok}
use go_url_shortener.Db.{Db, served, next_reply}
use go_url_shortener.Repository.Urls.{
  precedes, insert_sorted, sort_rows, owned_by, select_by_user_id, find_by_user_id,
}

precedes_total : (a b : Url) → precedes a b ≡ false → precedes b a ≡ true
unfolding precedes leb_ℤ
precedes_total a b h = ground arith

precedes_trans : (a b c : Url) → precedes a b ≡ true → precedes b c ≡ true → precedes a c ≡ true
unfolding precedes leb_ℤ
precedes_trans a b c h k = ground arith

-- Each row precedes those after it.
abbrev IsSorted : List Url → Type 0
IsSorted [] = Unit
IsSorted (r ∷ rs) = All (λ (q : Url). precedes r q ≡ true) rs × IsSorted rs

All-insert :
    (P : Url → Bool) (row : Url) (rs : List Url)
    → P row ≡ true
    → All (λ (q : Url). P q ≡ true) rs
    → All (λ (q : Url). P q ≡ true) (insert_sorted row rs)
unfolding insert_sorted
All-insert P row [] p h = (p, tt)
All-insert P row (r ∷ rs) p h = ground (arith, All-insert P row rs p h.1)

All-precedes :
    (a b : Url) (rs : List Url)
    → precedes a b ≡ true
    → All (λ (q : Url). precedes b q ≡ true) rs
    → All (λ (q : Url). precedes a q ≡ true) rs
All-precedes a b [] p h = tt
All-precedes a b (r ∷ rs) p h = (precedes_trans a b r p h.0, All-precedes a b rs p h.1)

insert_sorted-IsSorted : (row : Url) (rs : List Url) → IsSorted rs → IsSorted (insert_sorted row rs)
unfolding insert_sorted
insert_sorted-IsSorted row [] h = (tt, tt)
insert_sorted-IsSorted row (r ∷ rs) h = elim (Bool-cases (precedes row r)) [
  | inl p ↦ rw p ((p, All-precedes row r rs p h.0), h)
  | inr n ↦ rw n (
    All-insert (precedes r) row rs (precedes_total row r n) h.0,
    insert_sorted-IsSorted row rs h.1,
  )
]

sort_rows-IsSorted : (rows : List Url) → IsSorted (sort_rows rows)
unfolding sort_rows
sort_rows-IsSorted [] = tt
sort_rows-IsSorted (r ∷ rs) = insert_sorted-IsSorted r (sort_rows rs) (sort_rows-IsSorted rs)

count_if-insert :
    (p : Url → Bool) (row : Url) (rs : List Url)
    → count_if p (insert_sorted row rs) ≡ count_if p (row ∷ rs)
unfolding insert_sorted
count_if-insert p row [] = refl
count_if-insert p row (r ∷ rs) = ground (arith, count_if-insert p row rs)

count_if-sort : (p : Url → Bool) (rows : List Url) → count_if p (sort_rows rows) ≡ count_if p rows
unfolding sort_rows
count_if-sort p [] = refl
count_if-sort p (r ∷ rs) = ground (arith, count_if-insert p r (sort_rows rs), count_if-sort p rs)

count_if-keep_if :
    (p keep : Url → Bool) (rows : List Url)
    → count_if p (keep_if keep rows) ≡ count_if (λ (r : Url). keep r && p r) rows
count_if-keep_if p keep [] = refl
count_if-keep_if p keep (r ∷ rs) = ground (arith, count_if-keep_if p keep rs)

-- What the two columns of ORDER BY say of a row and one that comes after it.
unfoldable pub ComesBefore : Url → Url → Type 0
ComesBefore r q =
    (q.created_at < r.created_at) ⊎ ((q.created_at ≡ r.created_at) × (leb_ℤ q.id r.id ≡ true))

-- Newest first, and of one instant the greater id first.
abbrev pub IsNewestFirst : List Url → Type 0
IsNewestFirst [] = Unit
IsNewestFirst (r ∷ rs) = All (ComesBefore r) rs × IsNewestFirst rs

precedes-ComesBefore : (r q : Url) → precedes r q ≡ true → ComesBefore r q
unfolding precedes ComesBefore
precedes-ComesBefore r q h = ground (arith, h)

All-ComesBefore :
    (r : Url) (rs : List Url) → All (λ (q : Url). precedes r q ≡ true) rs → All (ComesBefore r) rs
All-ComesBefore r [] h = tt
All-ComesBefore r (q ∷ qs) h = (precedes-ComesBefore r q h.0, All-ComesBefore r qs h.1)

IsSorted-IsNewestFirst : (rs : List Url) → IsSorted rs → IsNewestFirst rs
IsSorted-IsNewestFirst [] h = tt
IsSorted-IsNewestFirst (r ∷ rs) h = (All-ComesBefore r rs h.0, IsSorted-IsNewestFirst rs h.1)

pub owned_by-user_id : (id : ℤ) (r : Url) → owned_by id r ≡ true → r.user_id ≡ some id
owned_by-user_id id r h = elim (Option-cases r.user_id) [
  | inl nobody ↦ absurd (ground (arith, nobody))
  | inr (u, owner) ↦ ground (arith, owner, id_eq_iff u id)
]

owned_by_self : (id : ℤ) (r : Url) → r.user_id ≡ some id → owned_by id r ≡ true
owned_by_self id r h = rw h ((id_eq_iff id id).1 refl)

All-owned :
    (id : ℤ) (rs : List Url)
    → count_if (λ (r : Url). not (owned_by id r)) rs ≡ 0
    → All (λ (r : Url). r.user_id ≡ some id) rs
All-owned id [] h = tt
All-owned id (r ∷ rs) h = (owned_by-user_id id r (ground arith), All-owned id rs (ground arith))

count_if-owned :
    (id : ℤ) (p : Url → Bool) (rs : List Url)
    → ((r : Url) → p r ≡ true → r.user_id ≡ some id)
    → count_if (λ (r : Url). owned_by id r && p r) rs ≡ count_if p rs
count_if-owned id p [] only = refl
count_if-owned id p (r ∷ rs) only =
    ground (arith, count_if-owned id p rs only, only r, owned_by_self id r)

count_if-none :
    (id : ℤ) (rs : List Url) → count_if (λ (r : Url). owned_by id r && not (owned_by id r)) rs ≡ 0
count_if-none id [] = refl
count_if-none id (r ∷ rs) = ground (arith, count_if-none id rs)

-- FindByUserID, if the database serves the read, answers with rows of the user only, newest first
-- and those of one instant with the greater id first. It answers each as often as the table holds
-- it: every test that only rows of the user pass counts the same rows in the answer and in the
-- table.
pub find_by_user_id-IsNewestFirst :
    (id : ℤ) (p : Url → Bool) (d : Db)
    → next_reply d.replies ≡ served
    → ((r : Url) → p r ≡ true → r.user_id ≡ some id)
    → (rows : List Url) × ((find_by_user_id id d).0 ≡ ok rows)
      × IsNewestFirst rows
      × All (λ (r : Url). r.user_id ≡ some id) rows
      × (count_if p rows ≡ count_if p d.urls)
unfolding find_by_user_id select_by_user_id
find_by_user_id-IsNewestFirst id p d s only =
    let kept = keep_if (owned_by id) d.urls in
    let counts =
      λ (q : Url → Bool). count_if-sort q kept ∙ count_if-keep_if q (owned_by id) d.urls in
    (
      sort_rows kept,
      rw s refl,
      IsSorted-IsNewestFirst (sort_rows kept) (sort_rows-IsSorted kept),
      All-owned id (sort_rows kept)
          (counts (λ (r : Url). not (owned_by id r)) ∙ count_if-none id d.urls),
      counts p ∙ count_if-owned id p d.urls only,
    )
