-- ===== src/Repository/Urls/Lookup.antt =====
-- The lookups of repository/url_repository.go after each of its writes.
use mathlib.Core.Option
use go_url_shortener.Base.{
  ℕ, ◌&&◌, ◌≡◌, refl, Bool, false, not, none, List, [], ◌∷◌, map, find, keep_if, exists, arith,
  if◌then◌else◌, suc, ap, ◌↔◌,
}
use go_url_shortener.Base.Int.{ℤ, pos, id_eq, id_eq_iff}
use go_url_shortener.Base.Text.{eq_refl, eq_iff}
use go_url_shortener.Model.{Url}
use go_url_shortener.Outcome.{ok, err, no_rows}
use go_url_shortener.Db.{Db, exec-eq-ok, later_replies}
use go_url_shortener.Repository.Urls.{
  row_or_error, has_id, clashes, is_live, unexpired, edit_row, insert_url, create, select_by_id,
  update_url, select_by_short_code, delete_url,
}

-- What a successful insertion has done.
pub record IsInserted (url row : Url) (d e : Db) : Type 0 where
  pub table : e.urls ≡ row ∷ d.urls
  pub id : row.id ≡ pos d.next_url
  pub sequence : e.next_url ≡ suc d.next_url
  pub stamped : row ≡ record url { id = pos d.next_url; created_at = d.now }
  pub unclashed : exists (clashes url) d.urls ≡ false
  pub clock : e.now ≡ d.now

insert_url-IsInserted :
    (url row : Url) (d e : Db) → insert_url url d ≡ (ok row, e) → IsInserted url row d e
unfolding insert_url
insert_url-IsInserted url row d e h = ground arith

pub create-IsInserted :
    (url row : Url) (d e : Db) → create url d ≡ (ok row, e) → IsInserted url row d e
unfolding create
create-IsInserted url row d e h =
    let i =
      insert_url-IsInserted url row (record d { replies = later_replies d.replies }) e
        (exec-eq-ok (insert_url url) d row e h) in
    record {
      table = i.table;
      id = i.id;
      sequence = i.sequence;
      stamped = i.stamped;
      unclashed = i.unclashed;
      clock = i.clock;
    }

-- The row hides every row of its code.
find-unclashed :
    (now : ℕ) (url : Url) (rows : List Url)
    → exists (clashes url) rows ≡ false
    → find (is_live now url.short_code) rows ≡ none
unfolding is_live clashes
find-unclashed now url [] h = refl
find-unclashed now url (r ∷ rs) h = ground (
  arith,
  eq_iff url.short_code r.short_code,
  eq_iff r.short_code url.short_code,
  find-unclashed now url rs,
)

-- A URL that Create has stored is what the server finds by the new id. By the short code it finds it
-- where the URL is active and not expired, and nothing at all where it is not.
pub find-create :
    (url row : Url) (d e : Db)
    → create url d ≡ (ok row, e)
    → (select_by_id row.id e ≡ (ok row, e))
      × (select_by_short_code url.short_code e
          ≡ (if url.is_active && unexpired e.now url.expires_at then ok row else err no_rows, e))
unfolding select_by_id select_by_short_code is_live
find-create url row d e h =
    let i = create-IsInserted url row d e h in
    (
      ground (arith, i, id_eq_iff row.id row.id),
      ground (arith, i, eq_refl url.short_code, find-unclashed e.now url d.urls i.unclashed),
    )

pub find-edit :
    (url : Url) (k : ℤ) (rows : List Url)
    → find (has_id k) (map (edit_row url) rows) ≡ Option.map (edit_row url) (find (has_id k) rows)
unfolding edit_row
find-edit url k [] = refl
find-edit url k (r ∷ rs) = ground (arith, find-edit url k rs)

-- What Update leaves under every id: the row of its own id with the three editable columns set, and
-- every other row as it was. Its answer is the edited row, or sql.ErrNoRows where there is none.
pub find-update :
    (url : Url) (k : ℤ) (d : Db)
    → (find (has_id k) (update_url url d).1.urls
        ≡ Option.map (edit_row url) (find (has_id k) d.urls))
      × ((update_url url d).0
          ≡ row_or_error (Option.map (edit_row url) (find (has_id url.id) d.urls)))
unfolding update_url
find-update url k d = (find-edit url k d.urls, ap row_or_error (find-edit url url.id d.urls))

find-drop :
    (id k : ℤ) (rows : List Url)
    → find (has_id k) (keep_if (λ (r : Url). not (has_id id r)) rows)
      ≡ (if id_eq id k then none else find (has_id k) rows)
find-drop id k [] = ground arith
find-drop id k (r ∷ rs) =
    ground (arith, find-drop id k rs, id_eq_iff id k, id_eq_iff r.id k, id_eq_iff r.id id)

pub exists-find :
    (p : Url → Bool) (rows : List Url) → (exists p rows ≡ false) ↔ (find p rows ≡ none)
exists-find p [] = (λ h. refl, λ h. refl)
exists-find p (r ∷ rs) = ground (arith, exists-find p rs)

-- Delete removes the row of its id and no other, and answers sql.ErrNoRows exactly where there was
-- no such row.
pub find-delete :
    (id k : ℤ) (d : Db)
    → (find (has_id k) (delete_url id d).1.urls
        ≡ (if id_eq id k then none else find (has_id k) d.urls))
      × (((delete_url id d).0 ≡ err no_rows) ↔ (find (has_id id) d.urls ≡ none))
unfolding delete_url
find-delete id k d = (find-drop id k d.urls, ground (arith, exists-find (has_id id) d.urls))
