-- ===== src/Repository/Urls/Codes.antt =====
-- The live row of a code under the writes of the table urls.
use go_url_shortener.Base.{
  ℕ, suc, Bool-cases, inl, inr, ◌≡◌, ◌≢◌, refl, false, not, some, List, [], ◌∷◌, map, find, exists,
  keep_if, arith,
}
use go_url_shortener.Base.Int.{ℤ, pos, id_eq_iff}
use go_url_shortener.Base.Text.{String, eq_iff}
use go_url_shortener.Model.{Url}
use go_url_shortener.Db.{Db}
use go_url_shortener.Repository.Urls.{
  has_id, clashes, edit_row, is_live, too_long, no_owner, insert_url,
}
use go_url_shortener.Repository.Urls.Invariant.{Distinct}

pub row_is_dead :
    (t : ℕ) (code : String) (row u : Url) (rows : List Url)
    → exists (clashes row) rows ≡ false
    → find (is_live t code) rows ≡ some u
    → is_live t code row ≡ false
unfolding is_live clashes
row_is_dead t code row u [] new live = absurd (grind arith)
row_is_dead t code row u (r ∷ rs) new live = ground (
  arith,
  row_is_dead t code row u rs,
  eq_iff row.short_code code,
  eq_iff r.short_code code,
  eq_iff row.short_code r.short_code,
)

-- A row of a new code hides no live row of another.
pub find-insert :
    (t : ℕ) (code : String) (row u : Url) (rows : List Url)
    → exists (clashes row) rows ≡ false
    → find (is_live t code) rows ≡ some u
    → find (is_live t code) (row ∷ rows) ≡ some u
find-insert t code row u rows new live = ground (arith, row_is_dead t code row u rows new live)

-- A property of the database through an insertion, which adds a row of a new code or only draws an id.
pub insert_url_keeps {ℓ} :
    (P : Db → Type ℓ) (url : Url) (d : Db)
    → P (record d { next_url = suc d.next_url })
    → (exists (clashes url) d.urls ≡ false
        → P (record d {
          next_url = suc d.next_url;
          urls = record url { id = pos d.next_url; created_at = d.now } ∷ d.urls;
        }))
    → P (insert_url url d).1
unfolding insert_url
insert_url_keeps P url d drawn added = elim (Bool-cases (too_long url)) [
  | inl long ↦ rw long drawn
  | inr short ↦ elim (Bool-cases (exists (clashes url) d.urls)) [
    | inl taken ↦ rw (short, taken) drawn
    | inr free ↦ elim (Bool-cases (no_owner url d.users)) [
      | inl nobody ↦ rw (short, free, nobody) drawn
      | inr owned ↦ rw (short, free, owned) (added free)
    ]
  ]
]

-- Editing an id that no row has changes nothing.
pub edit_absent :
    (url : Url) (k : ℤ) (rows : List Url)
    → k ≡ url.id
    → exists (has_id k) rows ≡ false
    → map (edit_row url) rows ≡ rows
unfolding edit_row
edit_absent url k [] same h = refl
edit_absent url k (r ∷ rs) same h = ground (arith, edit_absent url k rs same)

-- An edit changes the answer for no code but that of the row of its id.
pub find-edit_other :
    (t : ℕ) (code : String) (url r : Url) (rows : List Url)
    → Distinct rows
    → find (has_id url.id) rows ≡ some r
    → code ≢ r.short_code
    → find (is_live t code) (map (edit_row url) rows) ≡ find (is_live t code) rows
unfolding is_live edit_row
find-edit_other t code url r [] d h ne = refl
find-edit_other t code url r (q ∷ qs) d h ne = ground (
  arith,
  find-edit_other t code url r qs d.2,
  edit_absent url q.id qs,
  id_eq_iff q.id url.id,
  eq_iff q.short_code code,
)

-- Deleting an id that no row has changes nothing.
pub drop_absent :
    (id : ℤ) (rows : List Url)
    → exists (has_id id) rows ≡ false
    → keep_if (λ (r : Url). not (has_id id r)) rows ≡ rows
drop_absent id [] h = refl
drop_absent id (r ∷ rs) h = ground (arith, drop_absent id rs)

-- A deletion changes the answer for no code but that of the row of its id.
pub find-drop_other :
    (t : ℕ) (code : String) (id : ℤ) (r : Url) (rows : List Url)
    → find (has_id id) rows ≡ some r
    → Distinct rows
    → code ≢ r.short_code
    → find (is_live t code) (keep_if (λ (q : Url). not (has_id id q)) rows)
      ≡ find (is_live t code) rows
unfolding is_live
find-drop_other t code id r [] h d ne = refl
find-drop_other t code id r (q ∷ qs) h d ne = ground (
  arith,
  find-drop_other t code id r qs,
  drop_absent q.id qs,
  id_eq_iff q.id id,
  eq_iff q.short_code code,
)
