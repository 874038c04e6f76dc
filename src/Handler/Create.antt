-- ===== src/Handler/Create.antt =====
-- CreateURL, createURL and createURLResponse of handler/url_handler.go, over any URLService and any
-- IdempotencyRepository. The mutex of the key makes one call of CreateURL one step. decodeJSONBody,
-- json.Marshal and the environment variable GOSHORT_PUBLIC_BASE_URL are parameters.
pub mod Replay
pub mod Final
use Prim.Native.Char.{Char}
use Prim.Native.String
use go_url_shortener.Base.{ℕ, Bool, true, false, not, Option, none, some, ltb, if◌then◌else◌}
use go_url_shortener.Base.Int.{ℤ}
use go_url_shortener.Base.Text.{String, ◌==◌, len, trim_space, trim_right_char}
use go_url_shortener.Model.{Url, IdempotencyRecord, KeyState, pending, completed}
use go_url_shortener.Outcome.{Error, driver, Result, ok, err, Action}
use go_url_shortener.Handler.Base.{
  UserClaims, Request, Response, http_error, try_later, json_text, Texts, error_text, UrlService,
}

-- The interface repository.IdempotencyRepository, as far as the handler calls it.
pub record IdempotencyRepository (S : Type 0) : Type 0 where
  pub get : ℤ → String → Action S (Option IdempotencyRecord)
  pub reserve : ℤ → String → Action S Bool
  pub complete : IdempotencyRecord → Action S (Unit {0})

-- CreateURLRequest
pub record CreateUrlRequest : Type 0 where
  pub url : String
  pub alias : String

-- CreateURLResponse
pub record CreateUrlResponse : Type 0 where
  pub id : ℤ
  pub short_code : String
  pub short_url : String

pub record Environment : Type 0 where
  pub texts : Texts
  pub decode : String → Result CreateUrlRequest
  pub marshal : CreateUrlResponse → Option String
  pub public_base_url : String
  pub slash : Char

-- What createURLResponse returns: a body with its status, or an error with its status.
pub data Created : Type 0 where
  created : String → ℕ → Created
  rejected : ℕ → Error → Created

module _ (env : Environment) where
  abbrev base_url : String
  base_url =
      let base = trim_right_char env.slash env.public_base_url in
      if base == "" then "http://localhost:9000" else base

  abbrev response_of : Url → CreateUrlResponse
  response_of url = record {
    id = url.id;
    short_code = url.short_code;
    short_url = String.◌++◌ base_url (String.◌++◌ "/" url.short_code);
  }

  abbrev marshalled : Option String → Created
  marshalled none = rejected 500 driver
  marshalled (some body) = created body 201

  module _ {S : Type 0} (service : UrlService S) where
    abbrev pub stored : Result Url × S → Created × S
    stored (err e, s) = (rejected 400 e, s)
    stored (ok url, s) = (marshalled (env.marshal (response_of url)), s)

    abbrev pub create_for : ℤ → Result CreateUrlRequest → S → Created × S
    create_for user (err e) s = (rejected 400 e, s)
    create_for user (ok request) s =
        if trim_space request.alias == ""
        then stored (service.create_short_url request.url user s)
        else stored (service.create_short_url_with_alias request.url request.alias user s)

    unfoldable pub create_url_response : Request → ℤ → S → Created × S
    create_url_response r user s = create_for user (env.decode r.body) s

    -- createURL
    abbrev pub plain : Created × S → Response × S
    plain (created body status, s) = (json_text status body, s)
    plain (rejected status e, s) = (http_error status (error_text env.texts e), s)

    abbrev pub in_progress : Response
    in_progress = try_later 409 "Request with this Idempotency-Key is in progress"

    -- A record that is there: in progress, or writeStoredIdempotencyResponse.
    abbrev pub answer_by : IdempotencyRecord → KeyState → Response
    answer_by record' pending = in_progress
    answer_by record' completed = json_text record'.status_code record'.response_body

    module _ (repo : IdempotencyRepository S) where
      abbrev pub done : IdempotencyRecord → Result (Unit {0}) × S → Response × S
      done rec (err e, s) = (http_error 500 "Failed to complete idempotency record", s)
      done rec (ok _, s) = (json_text rec.status_code rec.response_body, s)

      abbrev pub record_of : ℤ → String → String → ℕ → IdempotencyRecord
      record_of user key body status = record {
        user_id = user;
        idempotency_key = key;
        response_body = body;
        status_code = status;
        state = completed;
      }

      -- the request owns the reservation
      abbrev pub complete_with : ℤ → String → Created × S → Response × S
      complete_with user key (rejected status e, s) =
          (http_error status (error_text env.texts e), s)
      complete_with user key (created body status, s) =
          done (record_of user key body status) (repo.complete (record_of user key body status) s)

      -- another process has reserved the key since the first read
      abbrev pub again : Result (Option IdempotencyRecord) × S → Response × S
      again (err e, s) = (http_error 500 "Failed to load idempotency record", s)
      again (ok none, s) = (http_error 500 "Idempotency record unavailable", s)
      again (ok (some rec), s) = (answer_by rec rec.state, s)

      abbrev pub reserved : Request → ℤ → String → Result Bool × S → Response × S
      reserved r user key (err e, s) = (http_error 500 "Failed to reserve idempotency key", s)
      reserved r user key (ok false, s) = again (repo.get user key s)
      reserved r user key (ok true, s) = complete_with user key (create_url_response r user s)

      abbrev looked_up : Request → ℤ → String → Result (Option IdempotencyRecord) × S → Response × S
      looked_up r user key (err e, s) = (http_error 500 "Internal Server Error", s)
      looked_up r user key (ok (some rec), s) = (answer_by rec rec.state, s)
      looked_up r user key (ok none, s) = reserved r user key (repo.reserve user key s)

      -- has_repo is h.idempotencyRepo != nil.
      abbrev create_with_key : Bool → Request → ℤ → String → S → Response × S
      create_with_key has_repo r user key s =
          if ltb 255 (len key)
          then (http_error 400 "Idempotency-Key is too long", s)
          else if key == ""
          then plain (create_url_response r user s)
          else if not has_repo
          then (http_error 500 "Idempotency service unavailable", s)
          else looked_up r user key (repo.get user key s)

      abbrev create_by : Bool → Request → Option UserClaims → S → Response × S
      create_by has_repo r none s = (http_error 401 "Authentication required", s)
      create_by has_repo r (some user) s =
          create_with_key has_repo r user.user_id (trim_space r.idempotency_key) s

      unfoldable pub create_url : Bool → Request → S → Response × S
      create_url has_repo r s =
          if not (r.method == "POST")
          then (http_error 405 "Method Not Allowed", s)
          else create_by has_repo r r.user s
