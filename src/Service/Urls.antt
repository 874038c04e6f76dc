-- ===== src/Service/Urls.antt =====
-- URLService of service/url_service.go, over a host: the database and the random bytes to come.
pub mod Created
pub mod Alias
pub mod Keeps
use Prim.Native.Char.{Char, code}
use go_url_shortener.Base.{
  ℕ, zero, suc, Bool, true, false, ◌&&◌, ◌||◌, not, Option, none, some, List, ltb, leb,
  if◌then◌else◌, ◌==◌ as nat_eq,
}
use go_url_shortener.Base.Int.{ℤ, pos, is_positive}
use go_url_shortener.Base.Text.{String, ◌==◌, len, trim_space, all_chars}
use go_url_shortener.Model.{Url}
use go_url_shortener.Outcome.{
  Error, message, wrapped, Result, ok, err, Action, map_error, fail, fail_if, from_result,
  is_unique_violation, continue, ◌>>=◌, ◌>>◌,
}
use go_url_shortener.Db.{Db}
use go_url_shortener.Repository.Urls.{
  create, find_by_id, find_by_short_code, find_by_user_id, update, delete,
}
use go_url_shortener.Service.ShortCode.{generate_short_code, short_code_length}
use go_url_shortener.Service.Validate.{Net, validate_url}

pub record Host : Type 0 where
  pub db : Db
  pub entropy : List ℕ

module _ {A : Type 0} where
  abbrev pub put_db : Host → Result A × Db → Result A × Host
  put_db h (r, d) = (r, record h { db = d })

  -- a call of the repository
  abbrev pub on_db : Action Db A → Action Host A
  on_db m h = put_db h (m h.db)

  abbrev pub put_entropy : Host → Result A × List ℕ → Result A × Host
  put_entropy h (r, bytes) = (r, record h { entropy = bytes })

  -- a call that reads from crypto/rand
  abbrev pub on_entropy : Action (List ℕ) A → Action Host A
  on_entropy m h = put_entropy h (m h.entropy)

abbrev pub max_generation_attempts : ℕ
max_generation_attempts = 10

-- The model.URL that the service hands to the repository; its zero fields are set there.
abbrev pub new_url : String → Option String → String → ℤ → Url
new_url code alias original user = record {
  id = pos 0;
  short_code = code;
  custom_alias = alias;
  original_url = trim_space original;
  user_id = some user;
  created_at = 0;
  expires_at = none;
  is_active = true;
}

-- One round of the loop after repository.Create: done, the next round, or an error.
abbrev settle : Action Host Url → Result Url × Host → Result Url × Host
settle again (ok url, h) = (ok url, h)
settle again (err e, h) =
    if is_unique_violation e then again h else (err (wrapped "create shortened URL" e), h)

abbrev store_or : Action Host Url → Url → Action Host Url
store_or again url h = settle again (on_db (create url) h)

-- the loop, with the number of attempts left
unfoldable pub attempts : ℕ → String → ℤ → Action Host Url
attempts zero original user = fail (message "unable to generate unique short code")
attempts (suc n) original user =
    let again = attempts n original user in
    do
      code ←
          map_error (wrapped "generate short code")
            (on_entropy (generate_short_code short_code_length))
      store_or again (new_url code none original user)

-- customAliasPattern, ^[A-Za-z0-9_-]+$
unfoldable pub is_alias_char : Char → Bool
is_alias_char c =
    leb b'A' (code c) && leb (code c) b'Z'
    || leb b'a' (code c) && leb (code c) b'z'
    || leb b'0' (code c) && leb (code c) b'9'
    || nat_eq (code c) b'_'
    || nat_eq (code c) b'-'

unfoldable pub matches_alias : String → Bool
matches_alias s = not (s == "") && all_chars is_alias_char s

unfoldable pub check_alias : String → Result (Unit {0})
check_alias alias =
    if ltb (len alias) 3 || ltb 32 (len alias)
    then err (message "alias must be between 3 and 32 characters")
    else if not (matches_alias alias)
    then err (message "alias may contain only letters, numbers, hyphens, and underscores")
    else ok tt

abbrev pub alias_error : Error → Error
alias_error e =
    if is_unique_violation e
    then message "alias is already in use"
    else wrapped "create shortened URL" e

module _ (net : Net) where
  unfoldable pub create_short_url : String → ℤ → Action Host Url
  create_short_url original user = do
    from_result (validate_url net original)
    fail_if (not (is_positive user)) (message "invalid user ID")
    attempts max_generation_attempts original user

  unfoldable pub create_short_url_with_alias : String → String → ℤ → Action Host Url
  create_short_url_with_alias original alias user = do
    from_result (validate_url net original)
    fail_if (not (is_positive user)) (message "invalid user ID")
    from_result (check_alias (trim_space alias))
    map_error alias_error
        (on_db (create (new_url (trim_space alias) (some (trim_space alias)) original user)))

  unfoldable pub update_url : Url → Action Host Url
  update_url url = do from_result (validate_url net url.original_url); on_db (update url)

unfoldable pub get_url_by_id : ℤ → Action Host Url
get_url_by_id id = on_db (find_by_id id)

unfoldable pub list_urls : ℤ → Action Host (List Url)
list_urls user =
    fail_if (not (is_positive user)) (message "invalid user ID") >> on_db (find_by_user_id user)

unfoldable pub get_original_url : String → Action Host Url
get_original_url code = on_db (find_by_short_code code)

unfoldable pub delete_url : ℤ → Action Host (Unit {0})
delete_url id = on_db (delete id)
