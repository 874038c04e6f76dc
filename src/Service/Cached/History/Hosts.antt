-- ===== src/Service/Cached/History/Hosts.antt =====
-- What the calls of the two services leave of the host while the database serves every statement.
use go_url_shortener.Base.{
  ◌≡◌, refl, ap, ◌∙◌, true, false, List, [], ◌∷◌, find, exists, keep_if, arith, Bool-cases, inl,
  inr,
}
use go_url_shortener.Base.Int.{ℤ, is_positive}
use go_url_shortener.Base.Text.{String}
use go_url_shortener.Model.{Url}
use go_url_shortener.Outcome.{no_rows, Result, ok, err, from_result, ◌>>◌}
use go_url_shortener.Db.{Db}
use go_url_shortener.Repository.Urls.{
  has_id, row_or_error, insert_url, create, find_by_id, select_by_id, find_by_short_code,
  select_by_short_code, find_by_user_id, select_by_user_id, update, update_url, delete, delete_url,
}
use go_url_shortener.Repository.Urls.Codes.{drop_absent}
use go_url_shortener.Cache.{Redis, Json, Settings, Cache, get_url}
use go_url_shortener.Cache
use go_url_shortener.Service.Validate.{Net, validate_url}
use go_url_shortener.Service.Urls.{Host, on_db}
use go_url_shortener.Service.Urls
use go_url_shortener.Service.Urls.Keeps.{create_short_url_keeps, create_short_url_with_alias_keeps}
use go_url_shortener.Service.Cached.{
  Site, fill, hit_or, look_up, put_cache, get_original_url, invalidate, after_update, after_delete,
}

-- Every statement will be served.
abbrev pub IsUp : Db → Type 0
IsUp d = d.replies ≡ []

create-IsUp : (url : Url) (d : Db) → IsUp d → IsUp (create url d).1
unfolding create insert_url
create-IsUp url d up = rw up (ground (arith, up))

update-IsUp : (url : Url) (d : Db) → IsUp d → IsUp (update url d).1
unfolding update update_url
update-IsUp url d up = rw up refl

delete-IsUp : (id : ℤ) (d : Db) → IsUp d → IsUp (delete id d).1
unfolding delete delete_url
delete-IsUp id d up = rw up (ground arith)

-- A read leaves the database as it was.
pub find_by_id_same : (id : ℤ) (d : Db) → IsUp d → (find_by_id id d).1 ≡ d
unfolding find_by_id select_by_id
find_by_id_same id d up = rw up refl

pub find_by_id_served :
    (id : ℤ) (d : Db) → IsUp d → find_by_id id d ≡ (row_or_error (find (has_id id) d.urls), d)
unfolding find_by_id select_by_id
find_by_id_served id d up = rw up refl

keep_all : {A : Type 0} (xs : List A) → keep_if (λ (x : A). true) xs ≡ xs
keep_all [] = refl
keep_all (x ∷ xs) = ap (◌∷◌ x) (keep_all xs)

pub delete_missing :
    (id : ℤ) (d : Db) → IsUp d → exists (has_id id) d.urls ≡ false → delete id d ≡ (err no_rows, d)
unfolding delete delete_url
delete_missing id d up missing = rw up (
    rw missing (λ i. (
      err no_rows,
      record d {
        replies = [];
        urls = drop_absent id d.urls missing i;
        clicks = keep_all d.clicks i;
      },
    )))

find_by_short_code_same : (code : String) (d : Db) → IsUp d → (find_by_short_code code d).1 ≡ d
unfolding find_by_short_code select_by_short_code
find_by_short_code_same code d up = rw up refl

find_by_user_id_same : (user : ℤ) (d : Db) → IsUp d → (find_by_user_id user d).1 ≡ d
unfolding find_by_user_id select_by_user_id
find_by_user_id_same user d up = rw up refl

module _ (net : Net) (h : Host) (up : IsUp h.db) where
  pub create_short_url-IsUp :
      (original : String) (user : ℤ) → IsUp (Urls.create_short_url net original user h).1.db
  create_short_url-IsUp original user =
      create_short_url_keeps IsUp create-IsUp net original user h up

  pub create_short_url_with_alias-IsUp :
      (original alias : String) (user : ℤ)
      → IsUp (Urls.create_short_url_with_alias net original alias user h).1.db
  create_short_url_with_alias-IsUp original alias user =
      create_short_url_with_alias_keeps IsUp create-IsUp net original user alias h up

  checked-IsUp :
      (v : Result (Unit {0})) (url : Url) → IsUp ((from_result v >> on_db (update url)) h).1.db
  checked-IsUp (ok _) url = update-IsUp url h.db up
  checked-IsUp (err e) url = up

  pub update_url-IsUp : (url : Url) → IsUp (Urls.update_url net url h).1.db
  unfolding Urls.update_url
  update_url-IsUp url = checked-IsUp (validate_url net url.original_url) url

  pub delete_url-IsUp : (id : ℤ) → IsUp (Urls.delete_url id h).1.db
  unfolding Urls.delete_url
  delete_url-IsUp id = delete-IsUp id h.db up

  pub get_original_url_same : (code : String) → (Urls.get_original_url code h).1 ≡ h
  unfolding Urls.get_original_url
  get_original_url_same code = ap (λ d. record h { db = d }) (find_by_short_code_same code h.db up)

  pub get_url_by_id_same : (id : ℤ) → (Urls.get_url_by_id id h).1 ≡ h
  unfolding Urls.get_url_by_id
  get_url_by_id_same id = ap (λ d. record h { db = d }) (find_by_id_same id h.db up)

  pub list_urls_same : (user : ℤ) → (Urls.list_urls user h).1 ≡ h
  unfolding Urls.list_urls
  list_urls_same user = elim (Bool-cases (is_positive user)) [
    | inl given ↦ rw given (ap (λ d. record h { db = d }) (find_by_user_id_same user h.db up))
    | inr missing ↦ rw missing refl
  ]

module _ (redis : Redis) (json : Json) (settings : Settings) where
  fill_same : (x : Result Url × Site redis) → (fill redis json settings true x).1.host ≡ x.1.host
  fill_same (err e, s) = refl
  fill_same (ok url, s) = refl

  look_up_same :
      (code : String) (s : Site redis)
      → IsUp s.host.db
      → (look_up redis json settings true code s).1.host ≡ s.host
  look_up_same code s up =
      fill_same _ ∙ ap (λ d. record s.host { db = d }) (find_by_short_code_same code s.host.db up)

  hit_same :
      (code : String) (s : Site redis) (r : Result Url × Cache redis)
      → IsUp s.host.db
      → (hit_or redis json settings true
          (look_up redis json settings true code)
          (put_cache redis s r)).1.host
        ≡ s.host
  hit_same code s (ok url, c) up = refl
  hit_same code s (err e, c) up = look_up_same code (record s { cache = c }) up

  pub cached_get_original_url_same :
      (code : String) (s : Site redis)
      → IsUp s.host.db
      → (get_original_url redis json settings true code s).1.host ≡ s.host
  unfolding get_original_url
  cached_get_original_url_same code s up =
      hit_same code s (get_url redis json settings s.host.db.now code s.cache) up

  module _ (connected : settings.has_client ≡ true) where
    -- An invalidation leaves the host alone, and a Redis server that answers goes on to.
    abbrev pub IsQuiet : Site redis → Site redis → Type 0
    IsQuiet s s' = (s'.host ≡ s.host) × (s'.cache.answers ≡ [])

    invalidate-IsQuiet :
        (code : String) (s : Site redis)
        → s.cache.answers ≡ []
        → IsQuiet s (invalidate redis json settings true code s)
    unfolding Cache.delete_url
    invalidate-IsQuiet code s heard = rw connected (refl, rw heard refl)

    pub after_update-IsQuiet :
        (x : Result Url × Site redis)
        → x.1.cache.answers ≡ []
        → ((after_update redis json settings true x).0 ≡ x.0)
          × IsQuiet x.1 (after_update redis json settings true x).1
    after_update-IsQuiet (err e, s) heard = (refl, (refl, heard))
    after_update-IsQuiet (ok url, s) heard = (refl, invalidate-IsQuiet url.short_code s heard)

    pub after_delete-IsQuiet :
        (code : String) (x : Result (Unit {0}) × Site redis)
        → x.1.cache.answers ≡ []
        → ((after_delete redis json settings true code x).0 ≡ x.0)
          × IsQuiet x.1 (after_delete redis json settings true code x).1
    after_delete-IsQuiet code (err e, s) heard = (refl, (refl, heard))
    after_delete-IsQuiet code (ok _, s) heard = (refl, invalidate-IsQuiet code s heard)
