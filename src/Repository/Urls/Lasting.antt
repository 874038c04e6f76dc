-- ===== src/Repository/Urls/Lasting.antt =====
-- A row of the table urls that leads on for good: under the writes of repository/url_repository.go to
-- other ids, whatever the server answers.
use mathlib.Core.Option
use go_url_shortener.Base.{
  ℕ, ◌≡◌, ◌≢◌, refl, ap, ◌∙◌, false, not, none, some, List, [], ◌∷◌, map, find, exists, keep_if,
  arith, Bool-cases, inl, inr,
}
use go_url_shortener.Base.Int.{ℤ, pos, id_eq, id_eq_iff}
use go_url_shortener.Base.Text.{String}
use go_url_shortener.Model.{Url}
use go_url_shortener.Db.{Db, Reply, exec_keeps}
use go_url_shortener.Repository.Urls.{
  has_id, clashes, edit_row, is_live, insert_url, create, update_url, update, delete_url, delete,
  find_by_id, select_by_id, find_by_user_id, select_by_user_id, find_by_short_code,
  select_by_short_code,
}
use go_url_shortener.Repository.Urls.Invariant.{
  Distinct, Below, IsValid, clashes-edit_row, insert_url-IsValid, update_url-IsValid,
  delete_url-IsValid, with_replies, fresh_id,
}
use go_url_shortener.Repository.Urls.Lookup.{find-update, find-delete, exists-find}
use go_url_shortener.Repository.Urls.Codes.{row_is_dead, find-insert, insert_url_keeps}

edit_row_other : (edit r : Url) → edit.id ≢ r.id → edit_row edit r ≡ r
unfolding edit_row
edit_row_other edit r ne = ground (arith, id_eq_iff r.id edit.id)

edited_clashes :
    (url q : Url) (rows : List Url)
    → exists (clashes (edit_row url q)) rows ≡ exists (clashes q) rows
edited_clashes url q [] = refl
edited_clashes url q (r ∷ rs) = rw (clashes-edit_row url r q, edited_clashes url q rs) refl

-- An edit gives life to no row in front of the live row of the code.
edited_is_dead :
    (t : ℕ) (code : String) (url q u : Url) (rows : List Url)
    → exists (clashes q) rows ≡ false
    → find (is_live t code) rows ≡ some u
    → is_live t code (edit_row url q) ≡ false
edited_is_dead t code url q u rows new live =
    row_is_dead t code (edit_row url q) u rows (edited_clashes url q rows ∙ new) live

-- An edit of another id leaves the live row of a code.
find-edit_kept :
    (t : ℕ) (code : String) (url u : Url) (rows : List Url)
    → Distinct rows
    → url.id ≢ u.id
    → find (is_live t code) rows ≡ some u
    → find (is_live t code) (map (edit_row url) rows) ≡ some u
find-edit_kept t code url u [] d ne live = absurd (grind arith)
find-edit_kept t code url u (q ∷ qs) d ne live = elim (Bool-cases (is_live t code q)) [
  | inl own ↦ ground (arith, edit_row_other url q, id_eq_iff q.id url.id)
  | inr other ↦
      let later : find (is_live t code) qs ≡ some u = rw other at live in
      rw (edited_is_dead t code url q u qs d.1 later) (find-edit_kept t code url u qs d.2 ne later)
]

-- So does a deletion of another id.
find-drop_kept :
    (t : ℕ) (code : String) (id : ℤ) (u : Url) (rows : List Url)
    → id ≢ u.id
    → find (is_live t code) rows ≡ some u
    → find (is_live t code) (keep_if (λ (q : Url). not (has_id id q)) rows) ≡ some u
find-drop_kept t code id u [] ne live = absurd (grind arith)
find-drop_kept t code id u (q ∷ qs) ne live =
    ground (arith, find-drop_kept t code id u qs, id_eq_iff q.id id)

fresh_ne :
    (k : ℤ) (n : ℕ) (u : Url) (rows : List Url)
    → Below n rows
    → find (has_id k) rows ≡ some u
    → id_eq (pos n) k ≡ false
fresh_ne k n u rows below h = elim (Bool-cases (id_eq (pos n) k)) [
  | inl same ↦
      let k_is : pos n ≡ k = (id_eq_iff (pos n) k).0 same in
      let missing : find (has_id (pos n)) rows ≡ none =
        (exists-find (has_id (pos n)) rows).0 (fresh_id n rows below) in
      absurd (ground (arith, missing, h, k_is))
  | inr other ↦ other
]

-- The row stands in the table, and is what the server finds for its code at any time.
pub record Lasts (url : Url) (d : Db) : Type 0 where
  pub valid : IsValid d
  pub stored : find (has_id url.id) d.urls ≡ some url
  pub live : (t : ℕ) → find (is_live t url.short_code) d.urls ≡ some url

module _ (url : Url) where
  insert_url-Lasts : (row : Url) (d : Db) → Lasts url d → Lasts url (insert_url row d).1
  unfolding clashes
  insert_url-Lasts row d l = record {
    valid = insert_url-IsValid row d l.valid;
    stored =
        insert_url_keeps (λ e. find (has_id url.id) e.urls ≡ some url) row d l.stored
          (λ free. rw (fresh_ne url.id d.next_url url d.urls l.valid.fresh l.stored) l.stored);
    live = λ t.
        insert_url_keeps (λ e. find (is_live t url.short_code) e.urls ≡ some url) row d (l.live t)
          (λ free.
            find-insert t url.short_code (record row { id = pos d.next_url; created_at = d.now })
              url d.urls free (l.live t));
  }

  update_url-Lasts :
      (edit : Url) (d : Db) → edit.id ≢ url.id → Lasts url d → Lasts url (update_url edit d).1
  unfolding update_url
  update_url-Lasts edit d ne l = record {
    valid = update_url-IsValid edit d l.valid;
    stored =
        (find-update edit url.id d).0
        ∙ ap (Option.map (edit_row edit)) l.stored
        ∙ ap some (edit_row_other edit url ne);
    live = λ t. find-edit_kept t url.short_code edit url d.urls l.valid.distinct ne (l.live t);
  }

  delete_url-Lasts : (id : ℤ) (d : Db) → id ≢ url.id → Lasts url d → Lasts url (delete_url id d).1
  unfolding delete_url
  delete_url-Lasts id d ne l = record {
    valid = delete_url-IsValid id d l.valid;
    stored = (find-delete id url.id d).0 ∙ ground (arith, l.stored, id_eq_iff id url.id);
    live = λ t. find-drop_kept t url.short_code id url d.urls ne (l.live t);
  }

  replies-Lasts : (d : Db) (rs : List Reply) → Lasts url d → Lasts url (record d { replies = rs })
  replies-Lasts d rs l = record {
    valid = with_replies d rs l.valid;
    stored = l.stored;
    live = l.live;
  }

  pub create-Lasts : (row : Url) (d : Db) → Lasts url d → Lasts url (create row d).1
  unfolding create
  create-Lasts row d l =
      exec_keeps (insert_url row) (Lasts url) replies-Lasts (insert_url-Lasts row) d l

  pub update-Lasts :
      (edit : Url) (d : Db) → edit.id ≢ url.id → Lasts url d → Lasts url (update edit d).1
  unfolding update
  update-Lasts edit d ne l =
      exec_keeps (update_url edit) (Lasts url) replies-Lasts (λ e. update_url-Lasts edit e ne) d l

  pub delete-Lasts : (id : ℤ) (d : Db) → id ≢ url.id → Lasts url d → Lasts url (delete id d).1
  unfolding delete
  delete-Lasts id d ne l =
      exec_keeps (delete_url id) (Lasts url) replies-Lasts (λ e. delete_url-Lasts id e ne) d l

  pub reads-Lasts :
      (id : ℤ) (code : String) (d : Db)
      → Lasts url d
      → Lasts url (find_by_id id d).1
        × Lasts url (find_by_user_id id d).1
        × Lasts url (find_by_short_code code d).1
  unfolding find_by_id select_by_id find_by_user_id select_by_user_id find_by_short_code
      select_by_short_code
  reads-Lasts id code d l = (
    exec_keeps (select_by_id id) (Lasts url) replies-Lasts (λ e k. k) d l,
    exec_keeps (select_by_user_id id) (Lasts url) replies-Lasts (λ e k. k) d l,
    exec_keeps (select_by_short_code code) (Lasts url) replies-Lasts (λ e k. k) d l,
  )
