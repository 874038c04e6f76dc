-- ===== src/Service/Urls/Keeps.antt =====
-- CreateShortURL and CreateShortURLWithAlias of service/url_service.go: properties of the database
-- through their calls of repository.Create.
use go_url_shortener.Base.{ℕ, zero, suc, Bool, true, false, none, some, not, if_keeps}
use go_url_shortener.Base.Int.{ℤ, is_positive}
use go_url_shortener.Base.Text.{String, trim_space}
use go_url_shortener.Model.{Url}
use go_url_shortener.Outcome.{
  Error, Result, ok, err, Action, message, wrapped, map_error, map_error_keeps, >>=_keeps,
  from_result, fail_if, is_unique_violation,
}
use go_url_shortener.Db.{Db}
use go_url_shortener.Repository.Urls.{create}
use go_url_shortener.Service.ShortCode.{generate_short_code, short_code_length}
use go_url_shortener.Service.Validate.{Net, validate_url}
use go_url_shortener.Service.Urls.{
  Host, on_db, on_entropy, new_url, settle, store_or, attempts, max_generation_attempts,
  check_alias, alias_error, create_short_url, create_short_url_with_alias,
}

from_result_keeps {ℓ} :
    {S A : Type 0} (P : S → Type ℓ) (r : Result A) (s : S) → P s → P (from_result r s).1
from_result_keeps P r s h = h

fail_if_keeps {ℓ} :
    {S : Type 0} (P : S → Type ℓ) (b : Bool) (e : Error) (s : S) → P s → P (fail_if b e s).1
fail_if_keeps P true e s h = h
fail_if_keeps P false e s h = h

module _ {ℓ} (P : Db → Type ℓ) (stored : (url : Url) (d : Db) → P d → P (create url d).1) where
  abbrev Q : Host → Type ℓ
  Q h = P h.db

  settle_keeps :
      (again : Action Host Url)
      → ((h : Host) → Q h → Q (again h).1)
      → (r : Result Url × Host) → Q r.1
      → Q (settle again r).1
  settle_keeps again next (ok url, h) q = q
  settle_keeps again next (err e, h) q =
      if_keeps (λ (r : Result Url × Host). Q r.1) (is_unique_violation e) (next h q) q

  attempts_keeps :
      (n : ℕ) (original : String) (user : ℤ) (h : Host) → Q h → Q (attempts n original user h).1
  unfolding attempts
  attempts_keeps zero original user h q = q
  attempts_keeps (suc n) original user h q =
      >>=_keeps Q
        (map_error (wrapped "generate short code")
          (on_entropy (generate_short_code short_code_length)))
        (λ code. store_or (attempts n original user) (new_url code none original user))
        (map_error_keeps Q (wrapped "generate short code")
          (on_entropy (generate_short_code short_code_length)) (λ s k. k))
        (λ code s k.
          settle_keeps (attempts n original user) (attempts_keeps n original user)
            (on_db (create (new_url code none original user)) s)
            (stored (new_url code none original user) s.db k))
        h q

  module _ (net : Net) (original : String) (user : ℤ) where
    pub create_short_url_keeps : (h : Host) → Q h → Q (create_short_url net original user h).1
    unfolding create_short_url
    create_short_url_keeps h q =
        >>=_keeps Q (from_result (validate_url net original)) _ (λ s k. k)
          (λ _.
            >>=_keeps Q (fail_if (not (is_positive user)) (message "invalid user ID")) _
              (fail_if_keeps Q (not (is_positive user)) (message "invalid user ID"))
              (λ _. attempts_keeps max_generation_attempts original user))
          h q

    pub create_short_url_with_alias_keeps :
        (alias : String) (h : Host)
        → Q h
        → Q (create_short_url_with_alias net original alias user h).1
    unfolding create_short_url_with_alias
    create_short_url_with_alias_keeps alias h q =
        >>=_keeps Q (from_result (validate_url net original)) _ (λ s k. k)
          (λ _.
            >>=_keeps Q (fail_if (not (is_positive user)) (message "invalid user ID")) _
              (fail_if_keeps Q (not (is_positive user)) (message "invalid user ID"))
              (λ _.
                >>=_keeps Q (from_result (check_alias (trim_space alias))) _ (λ s k. k)
                  (λ _.
                    map_error_keeps Q alias_error
                      (on_db (
                        create
                          (new_url (trim_space alias) (some (trim_space alias)) original user)))
                      (λ s k.
                        stored (new_url (trim_space alias) (some (trim_space alias)) original user)
                          s.db k))))
          h q
