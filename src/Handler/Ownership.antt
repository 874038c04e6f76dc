-- ===== src/Handler/Ownership.antt =====
-- requireURLOwnership in GetURL, UpdateURL, DeleteURL and GetAnalytics of handler/url_handler.go.
use go_url_shortener.Base.{
  ℕ, ◌≡◌, refl, Bool, true, false, not, Option, none, some, arith, Bool-cases, Option-cases, inl,
  inr, ◌⊎◌, ◌≤◌, ap, sym, ◌∙◌, if◌then◌else◌,
}
use go_url_shortener.Base.Int.{ℤ, id_eq, id_eq_iff}
use go_url_shortener.Base.Text.{String, ◌==◌}
use go_url_shortener.Model.{Url, ClickAnalytics}
use go_url_shortener.Outcome.{Error, Result, ok, err, Action, is_not_found}
use go_url_shortener.Handler.Base.{
  UserClaims, Request, Response, http_error, Texts, UrlService, ownership_error,
}
use go_url_shortener.Handler.Path.{parse_url_id, parse_analytics_url_id}
use go_url_shortener.Handler.Analytics.{get_analytics}
use go_url_shortener.Handler.Manage.{
  UpdateUrlRequest, lookup_error, with_url, with_id, method_not_allowed, get_url, update_url,
  delete_url,
}

-- A request that names a URL is made by its owner: the service reads the row of the target, the id in
-- the path, and the user of the request is the row's user.
pub record IsOwners {S : Type 0} (service : UrlService S) (r : Request) (target : Option ℤ) (s : S)
    : Type 0 where
  pub id : ℤ
  pub named : target ≡ some id
  pub url : Url
  pub found : (service.get_url_by_id id s).0 ≡ ok url
  pub user : UserClaims
  pub signed_in : r.user ≡ some user
  pub owned : url.user_id ≡ some user.user_id

ownership_error_cases :
    (o : Option UserClaims) (url : Url)
    → ((user : UserClaims) × (o ≡ some user) × (url.user_id ≡ some user.user_id))
      ⊎ ((code : ℕ) × (text : String) × (ownership_error o url ≡ some (http_error code text))
          × (400 ≤ code))
unfolding ownership_error
ownership_error_cases none url = inr (401, "Authentication required", refl, omega arith)
ownership_error_cases (some user) url = elim (Option-cases url.user_id) [
  | inl nobody ↦ inr (403, "Forbidden", ground arith, omega arith)
  | inr (owner, e) ↦ elim (Bool-cases (id_eq owner user.user_id)) [
    | inl same ↦ inl (user, refl, e ∙ ap some ((id_eq_iff owner user.user_id).0 same))
    | inr other ↦ inr (403, "Forbidden", ground arith, omega arith)
  ]
]

-- The state after the read of the row.
abbrev pub after_read : {S : Type 0} → UrlService S → Option ℤ → S → S
after_read service none s = s
after_read service (some id) s = (service.get_url_by_id id s).1

-- An error response; the service was not called but for the read.
abbrev pub IsRefused : {S : Type 0} → UrlService S → Option ℤ → S → Response × S → Type 0
IsRefused service target s (response, s') =
    ((code : ℕ) × (text : String) × (response ≡ http_error code text) × (400 ≤ code))
    × ((s' ≡ s) ⊎ (s' ≡ after_read service target s))

module _ {S : Type 0} (service : UrlService S) (r : Request) (target : Option ℤ) (s : S) where
  lookup_error_code :
      (e : Error)
      → (code : ℕ) × (text : String) × (lookup_error e ≡ http_error code text) × (400 ≤ code)
  lookup_error_code e = elim (Bool-cases (is_not_found e)) [
    | inl missing ↦ (404, "404 page not found", rw missing refl, omega arith)
    | inr other ↦ (500, "Internal Server Error", rw other refl, omega arith)
  ]

  with_url_cases :
      (next : Url → S → Response × S) (id : ℤ) (out : Result Url × S)
      → target ≡ some id
      → service.get_url_by_id id s ≡ out
      → IsOwners service r target s ⊎ IsRefused service target s (with_url service r.user next out)
  with_url_cases next id (err e, s') named read =
      let same : s' ≡ after_read service target s = rw named (sym (ap (λ o. o.1) read)) in
      inr (lookup_error_code e, inr same)
  with_url_cases next id (ok url, s') named read = elim (ownership_error_cases r.user url) [
    | inl (user, signed_in, owned) ↦ inl (record {
      id = id;
      named = named;
      url = url;
      found = ap (λ o. o.0) read;
      user = user;
      signed_in = signed_in;
      owned = owned;
    })
    | inr (code, text, e, big) ↦
        let same : s' ≡ after_read service target s = rw named (sym (ap (λ o. o.1) read)) in
        inr (rw e ((code, text, refl, big), inr same))
  ]

  with_id_cases :
      (next : ℤ → Url → S → Response × S) (o : Option ℤ)
      → target ≡ o
      → IsOwners service r target s ⊎ IsRefused service target s (with_id service r.user next o s)
  with_id_cases next none e = inr ((400, "Invalid URL ID", refl, omega arith), inl refl)
  with_id_cases next (some id) e = with_url_cases (next id) id (service.get_url_by_id id s) e refl

  guarded :
      (b : Bool) (next : ℤ → Url → S → Response × S)
      → IsOwners service r target s
        ⊎ IsRefused service target s
            (if b then (method_not_allowed, s) else with_id service r.user next target s)
  guarded true next = inr ((405, "Method Not Allowed", refl, omega arith), inl refl)
  guarded false next = with_id_cases next target refl

module _ {S : Type 0} (service : UrlService S) (r : Request) (s : S) where
  with_analytics :
      (analytics : Option (ℤ → Action S ClickAnalytics))
      → IsOwners service r (parse_analytics_url_id r.path) s
        ⊎ IsRefused service (parse_analytics_url_id r.path) s (get_analytics service analytics r s)
  unfolding get_analytics
  with_analytics none = elim (Bool-cases (r.method == "GET")) [
    | inl get ↦ inr (rw get ((500, "Analytics service unavailable", refl, omega arith), inl refl))
    | inr other ↦ inr (rw other ((405, "Method Not Allowed", refl, omega arith), inl refl))
  ]
  with_analytics (some repository) =
      guarded service r (parse_analytics_url_id r.path) s (not (r.method == "GET")) _

  -- Only the owner gets through: a call of GetURL, UpdateURL, DeleteURL or GetAnalytics is a signed-in user's for a row
  -- that is that user's, or it ends in an error response and has called no method of the service but the
  -- read of the row.
  pub owner_only :
      (texts : Texts) (decode : String → Result UpdateUrlRequest)
      (analytics : Option (ℤ → Action S ClickAnalytics))
      → (IsOwners service r (parse_url_id r.path) s
          ⊎ IsRefused service (parse_url_id r.path) s (get_url service r s))
        × (IsOwners service r (parse_url_id r.path) s
            ⊎ IsRefused service (parse_url_id r.path) s (update_url service texts decode r s))
        × (IsOwners service r (parse_url_id r.path) s
            ⊎ IsRefused service (parse_url_id r.path) s (delete_url service r s))
        × (IsOwners service r (parse_analytics_url_id r.path) s
            ⊎ IsRefused service
                (parse_analytics_url_id r.path)
                s
                (get_analytics service analytics r s))
  unfolding get_url update_url delete_url
  owner_only texts decode analytics = (
    guarded service r (parse_url_id r.path) s (not (r.method == "GET")) _,
    guarded service r (parse_url_id r.path) s (not (r.method == "PATCH")) _,
    guarded service r (parse_url_id r.path) s (not (r.method == "DELETE")) _,
    with_analytics analytics,
  )
