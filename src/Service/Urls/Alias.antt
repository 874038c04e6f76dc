-- ===== src/Service/Urls/Alias.antt =====
-- CreateShortURLWithAlias of service/url_service.go.
use Prim.Native.String.{count}
use Prim.Native.String.len
use text.Mathlib.TextLemmas.{length-cons, length-nil}
use text.Mathlib.TextPositions.{len_utf8-pos}
use go_url_shortener.Base.{◌≡◌, ◌≢◌, ap, sym, subst, ◌↔◌, true, not, some, exists, arith, ◌≤◌}
use go_url_shortener.Base.Int.{ℤ, is_positive}
use go_url_shortener.Base.Text.{String, len, eq_iff, trim_space, all_chars}
use go_url_shortener.Model.{Url}
use go_url_shortener.Outcome.{
  Result, Action, ok, err, message, map_error-eq-ok, from_result-eq-ok, fail_if-eq-ok,
  is_unique_violation,
}
use go_url_shortener.Db.{Db, served, next_reply}
use go_url_shortener.Repository.Urls.{clashes, create, insert_url, too_long}
use go_url_shortener.Service.Validate.{Net, validate_url}
use go_url_shortener.Service.Urls.{
  Host, on_db, new_url, is_alias_char, matches_alias, check_alias, alias_error,
  create_short_url_with_alias,
}
use go_url_shortener.Service.Urls.Created.{IsCreated, create_stored}

-- An alias of 3 to 32 bytes, all of them ASCII letters, digits, hyphens and underscores.
abbrev pub IsAlias : String → Type 0
IsAlias alias = (3 ≤ len alias) × (len alias ≤ 32) × (all_chars is_alias_char alias ≡ true)

len-nonempty : (s : String) → 3 ≤ len s → s ≢ ""
len-nonempty s h e = let z : 3 ≤ len "" = subst (λ t. 3 ≤ len t) e h in absurd (omega arith)

-- The check of an alias passes exactly the aliases of that form.
check_alias_iff : (alias : String) → (check_alias alias ≡ ok tt) ↔ IsAlias alias
unfolding check_alias matches_alias
check_alias_iff alias = (
  λ h. (ground arith, ground arith, ground arith),
  λ a. ground (arith, eq_iff alias "", len-nonempty alias),
)

count-le-len : (s : String) → count s ≤ len s
count-le-len String.[] = omega (arith, length-nil)
count-le-len (String.◌∷◌ c s) =
    let (k, e) = len_utf8-pos c in omega (arith, length-cons c s, len.cons c s, count-le-len s, e)

pub on_db-eq-ok :
    {A : Type 0} (m : Action Db A) (h : Host) (a : A) (h' : Host)
    → on_db m h ≡ (ok a, h')
    → (d' : Db) × (m h.db ≡ (ok a, d')) × (h' ≡ record h { db = d' })
on_db-eq-ok m h a h' e = (
  (m h.db).1,
  ap (λ (p : Result _ × Host). (p.0, (m h.db).1)) e,
  sym (ap (λ (p : Result _ × Host). p.1) e),
)

-- A short URL that CreateShortURLWithAlias returns has passed validation under a positive user id,
-- and the trimmed alias has 3 to 32 bytes, all ASCII letters, digits, hyphens and underscores. It is
-- the one row added to the table: active, without expiry, owned by the user, leading to the trimmed
-- destination, under the trimmed alias as code and as alias, which no row had before.
pub create_short_url_with_alias-IsCreated :
    (net : Net) (original alias : String) (user : ℤ) (row : Url) (h h' : Host)
    → create_short_url_with_alias net original alias user h ≡ (ok row, h')
    → (validate_url net original ≡ ok tt)
      × (is_positive user ≡ true)
      × IsAlias (trim_space alias)
      × IsCreated original user row h h'
      × (row.short_code ≡ trim_space alias)
      × (row.custom_alias ≡ some (trim_space alias))
unfolding create_short_url_with_alias
create_short_url_with_alias-IsCreated net original alias user row h h' e =
    let name = trim_space alias in
    let (valid, e₁) = from_result-eq-ok (validate_url net original) _ h e in
    let (known, e₂) = fail_if-eq-ok (not (is_positive user)) (message "invalid user ID") _ h e₁ in
    let (named, e₃) = from_result-eq-ok (check_alias name) _ h e₂ in
    let url = new_url name (some name) original user in
    let (d', made, after) =
      on_db-eq-ok (create url) h row h'
        (map_error-eq-ok alias_error (on_db (create url)) h row h' e₃) in
    let (created, coded, aliased) = create_stored name (some name) original user row h d' made in
    (
      valid,
      ground arith,
      (check_alias_iff name).0 named,
      subst (IsCreated original user row h) (sym after) created,
      coded,
      aliased,
    )

-- Where a served request asks for an alias of the right form that a row already has as its short code
-- or alias, the answer is that the alias is in use, and the table stays as it was.
pub alias_in_use :
    (net : Net) (original alias : String) (user : ℤ) (h : Host)
    → validate_url net original ≡ ok tt
    → is_positive user ≡ true
    → IsAlias (trim_space alias)
    → next_reply h.db.replies ≡ served
    → exists
        (clashes (new_url (trim_space alias) (some (trim_space alias)) original user))
        h.db.urls
      ≡ true
    → ((create_short_url_with_alias net original alias user h).0
        ≡ err (message "alias is already in use"))
      × ((create_short_url_with_alias net original alias user h).1.db.urls ≡ h.db.urls)
unfolding create_short_url_with_alias create insert_url too_long is_unique_violation clashes
alias_in_use net original alias user h valid known named answered taken =
    ground (arith, (check_alias_iff (trim_space alias)).1 named, count-le-len (trim_space alias))
