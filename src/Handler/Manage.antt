-- ===== src/Handler/Manage.antt =====
-- ListURLs, GetURL, UpdateURL and DeleteURL of handler/url_handler.go, over any URLService.
-- decodeJSONBody is a parameter.
use go_url_shortener.Base.{Bool, not, Option, none, some, List, if◌then◌else◌}
use go_url_shortener.Base.Int.{ℤ}
use go_url_shortener.Base.Text.{String, ◌==◌}
use go_url_shortener.Model.{Url}
use go_url_shortener.Outcome.{Error, Result, ok, err, is_not_found}
use go_url_shortener.Handler.Base.{
  UserClaims, Request, Response, http_error, json_url, json_urls, no_content, not_found, Texts,
  error_text, UrlService, ownership_error,
}
use go_url_shortener.Handler.Path.{parse_url_id}

-- UpdateURLRequest
pub record UpdateUrlRequest : Type 0 where
  pub url : String
  pub expires_at : String
  pub is_active : Option Bool

-- What a failed read of a URL is answered with.
abbrev pub lookup_error : Error → Response
lookup_error e = if is_not_found e then not_found else http_error 500 "Internal Server Error"

abbrev pub method_not_allowed : Response
method_not_allowed = http_error 405 "Method Not Allowed"

-- The stored row with the fields of the request that are given.
unfoldable pub apply_request : UpdateUrlRequest → Url → Url
apply_request request url = record url {
  original_url = if request.url == "" then url.original_url else request.url;
  is_active = elim request.is_active [ none ↦ url.is_active | some b ↦ b ];
}

module _ {S : Type 0} (service : UrlService S) where
  abbrev listed : Result (List Url) × S → Response × S
  listed (err e, s) = (http_error 500 "Internal Server Error", s)
  listed (ok urls, s) = (json_urls 200 urls, s)

  abbrev list_for : Option UserClaims → S → Response × S
  list_for none s = (http_error 401 "Authentication required", s)
  list_for (some user) s = listed (service.list_urls user.user_id s)

  unfoldable pub list_urls : Request → S → Response × S
  list_urls r s = if not (r.method == "GET") then (method_not_allowed, s) else list_for r.user s

  -- A URL that was read is handed on if the user owns it.
  abbrev pub if_owner : Option Response → (S → Response × S) → S → Response × S
  if_owner (some response) next s = (response, s)
  if_owner none next s = next s

  abbrev pub with_url : Option UserClaims → (Url → S → Response × S) → Result Url × S → Response × S
  with_url user next (err e, s) = (lookup_error e, s)
  with_url user next (ok url, s) = if_owner (ownership_error user url) (next url) s

  -- The common head of GetURL, UpdateURL and DeleteURL.
  abbrev pub with_id :
      Option UserClaims → (ℤ → Url → S → Response × S) → Option ℤ → S → Response × S
  with_id user next none s = (http_error 400 "Invalid URL ID", s)
  with_id user next (some id) s = with_url user (next id) (service.get_url_by_id id s)

  unfoldable pub get_url : Request → S → Response × S
  get_url r s =
      if not (r.method == "GET")
      then (method_not_allowed, s)
      else with_id r.user (λ _ url s'. (json_url 200 url, s')) (parse_url_id r.path) s

  module _ (texts : Texts) (decode : String → Result UpdateUrlRequest) where
    abbrev updated : Result Url × S → Response × S
    updated (err e, s) = (http_error 400 (error_text texts e), s)
    updated (ok url, s) = (json_url 200 url, s)

    abbrev update_with : Result UpdateUrlRequest → Url → S → Response × S
    update_with (err e) url s = (http_error 400 (error_text texts e), s)
    update_with (ok request) url s =
        if not (request.expires_at == "")
        then (http_error 400 "expires_at format is not supported yet", s)
        else updated (service.update_url (apply_request request url) s)

    unfoldable pub update_url : Request → S → Response × S
    update_url r s =
        if not (r.method == "PATCH")
        then (method_not_allowed, s)
        else with_id r.user (λ _. update_with (decode r.body)) (parse_url_id r.path) s

  abbrev deleted : Result (Unit {0}) × S → Response × S
  deleted (err e, s) = (lookup_error e, s)
  deleted (ok _, s) = (no_content, s)

  -- The id that is deleted is the one of the path.
  unfoldable pub delete_url : Request → S → Response × S
  delete_url r s =
      if not (r.method == "DELETE")
      then (method_not_allowed, s)
      else with_id r.user (λ id url s'. deleted (service.delete_url id s')) (parse_url_id r.path) s
