-- ===== src/Repository/Urls/Invariant.antt =====
-- The invariant of the table urls: its ids and the sequence, and its ids and codes.
use go_url_shortener.Base.{
  ℕ, suc, ◌≡◌, refl, Bool, true, false, List, [], ◌∷◌, map, ltb, exists, keep_if, arith, All,
}
use go_url_shortener.Base.Int.{ℤ, pos, negsuc, id_eq}
use go_url_shortener.Model.{Url}
use go_url_shortener.Db.{Db, Reply, exec_keeps}
use go_url_shortener.Repository.Urls.{
  has_id, clashes, edit_row, insert_url, create, update_url, update, delete_url, delete,
}

abbrev pub id_below : ℕ → ℤ → Bool
id_below n (pos k) = ltb k n
id_below n (negsuc k) = false

abbrev pub Below : ℕ → List Url → Type 0
Below n rows = All (λ (r : Url). id_below n r.id ≡ true) rows

abbrev pub Distinct : List Url → Type 0
Distinct [] = Unit
Distinct (r ∷ rs) =
    (exists (has_id r.id) rs ≡ false) × (exists (clashes r) rs ≡ false) × Distinct rs

pub record IsValid (d : Db) : Type 0 where
  pub fresh : Below d.next_url d.urls
  pub distinct : Distinct d.urls

-- The next id of the sequence names no row.
pub fresh_id : (n : ℕ) (rows : List Url) → Below n rows → exists (has_id (pos n)) rows ≡ false
unfolding id_eq
fresh_id n [] h = refl
fresh_id n (r ∷ rs) h = ground (arith, fresh_id n rs h.1)

Below-suc : (n : ℕ) (rows : List Url) → Below n rows → Below (suc n) rows
Below-suc n [] h = tt
Below-suc n (r ∷ rs) h = (ground arith, Below-suc n rs h.1)

module _ (url : Url) where
  edit_row-id : (r : Url) → (edit_row url r).id ≡ r.id
  unfolding edit_row
  edit_row-id r = ground arith

  edit_row-clashes : (q r : Url) → clashes q (edit_row url r) ≡ clashes q r
  unfolding edit_row clashes
  edit_row-clashes q r = ground arith

  pub clashes-edit_row : (q r : Url) → clashes (edit_row url r) q ≡ clashes r q
  unfolding edit_row clashes
  clashes-edit_row q r = ground arith

  exists-edit_id :
      (k : ℤ) (rows : List Url)
      → exists (has_id k) (map (edit_row url) rows) ≡ exists (has_id k) rows
  exists-edit_id k [] = refl
  exists-edit_id k (r ∷ rs) = rw (edit_row-id r, exists-edit_id k rs)

  exists-edit_clash :
      (q : Url) (rows : List Url)
      → exists (clashes (edit_row url q)) (map (edit_row url) rows) ≡ exists (clashes q) rows
  exists-edit_clash q [] = refl
  exists-edit_clash q (r ∷ rs) =
      rw (clashes-edit_row (edit_row url r) q, edit_row-clashes q r, exists-edit_clash q rs)

  Below-edit : (n : ℕ) (rows : List Url) → Below n rows → Below n (map (edit_row url) rows)
  Below-edit n [] h = tt
  Below-edit n (r ∷ rs) h = (rw (edit_row-id r) h.0, Below-edit n rs h.1)

  Distinct-edit : (rows : List Url) → Distinct rows → Distinct (map (edit_row url) rows)
  Distinct-edit [] h = tt
  Distinct-edit (r ∷ rs) h = (
    rw (edit_row-id r, exists-edit_id r.id rs) h.0,
    rw (exists-edit_clash r rs) h.1,
    Distinct-edit rs h.2,
  )

module _ (keep : Url → Bool) where
  exists-keep_if :
      (p : Url → Bool) (rows : List Url)
      → exists p rows ≡ false
      → exists p (keep_if keep rows) ≡ false
  exists-keep_if p [] h = refl
  exists-keep_if p (r ∷ rs) h = ground (arith, exists-keep_if p rs)

  Below-keep_if : (n : ℕ) (rows : List Url) → Below n rows → Below n (keep_if keep rows)
  Below-keep_if n [] h = tt
  Below-keep_if n (r ∷ rs) h = ground (arith, Below-keep_if n rs h.1)

  Distinct-keep_if : (rows : List Url) → Distinct rows → Distinct (keep_if keep rows)
  Distinct-keep_if [] h = tt
  Distinct-keep_if (r ∷ rs) h = ground (
    arith,
    Distinct-keep_if rs h.2,
    exists-keep_if (has_id r.id) rs h.0,
    exists-keep_if (clashes r) rs h.1,
  )

pub insert_url-IsValid : (url : Url) (d : Db) → IsValid d → IsValid (insert_url url d).1
unfolding insert_url clashes
insert_url-IsValid url d v =
    ground (arith, fresh_id d.next_url d.urls v.fresh, Below-suc d.next_url d.urls v.fresh)

pub update_url-IsValid : (url : Url) (d : Db) → IsValid d → IsValid (update_url url d).1
unfolding update_url
update_url-IsValid url d v = record {
  fresh = Below-edit url d.next_url d.urls v.fresh;
  distinct = Distinct-edit url d.urls v.distinct;
}

pub delete_url-IsValid : (id : ℤ) (d : Db) → IsValid d → IsValid (delete_url id d).1
unfolding delete_url
delete_url-IsValid id d v = record {
  fresh = Below-keep_if _ d.next_url d.urls v.fresh;
  distinct = Distinct-keep_if _ d.urls v.distinct;
}

pub with_replies : (d : Db) (rs : List Reply) → IsValid d → IsValid (record d { replies = rs })
with_replies d rs v = record { fresh = v.fresh; distinct = v.distinct }

-- Create, Update and Delete keep the ids of the table below the sequence and its ids, short codes
-- and custom aliases distinct, whatever the server answers.
pub writes-IsValid :
    (url : Url) (id : ℤ) (d : Db)
    → IsValid d
    → IsValid (create url d).1 × IsValid (update url d).1 × IsValid (delete id d).1
unfolding create update delete
writes-IsValid url id d v = (
  exec_keeps (insert_url url) IsValid with_replies (insert_url-IsValid url) d v,
  exec_keeps (update_url url) IsValid with_replies (update_url-IsValid url) d v,
  exec_keeps (delete_url id) IsValid with_replies (delete_url-IsValid id) d v,
)
