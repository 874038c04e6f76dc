-- ===== src/Tests/Handler.antt =====
-- Examples for the package handler, over the service on the database.
use go_url_shortener.Base.{leb, none, ◌⊎◌, some, ◌≡◌, ◌≢◌, refl, arith, true, ◌∷◌, []}
use go_url_shortener.Base.Int.{ℤ, pos, id_eq}
use go_url_shortener.Base.Text.{String, eq_iff, trim_space, len, trim_prefix, has_suffix}
use go_url_shortener.Outcome.{Result, err, message, Action}
use go_url_shortener.Service.Urls.{Host, on_db}
use go_url_shortener.Service.Urls
use go_url_shortener.Handler.{UserClaims, Request, Texts, UrlService, http_error, error_text}
use go_url_shortener.Handler.Manage.{UpdateUrlRequest, get_url, update_url, delete_url}
use go_url_shortener.Repository.Clicks.Analytics as Clicks
use go_url_shortener.Repository.Clicks.Analytics.{Locale}
use go_url_shortener.Handler.Analytics.{get_analytics}
use go_url_shortener.Handler.Path.{parse_url_id, parse_analytics_url_id}
use go_url_shortener.Base.Decimal.{parse_int}
use go_url_shortener.Handler.Ownership.{IsOwners, IsRefused, owner_only}
use go_url_shortener.Model.{ClickAnalytics}
use go_url_shortener.Repository.Keys.{reservation}
use go_url_shortener.Handler.Create.{
  Environment, rejected, create_url_response, in_progress, create_url,
}
use go_url_shortener.Handler.Create.Replay.{
  postgres, IsKeyed, IsFree, after_reply, after_reserve, rejected_locks,
}
use go_url_shortener.Tests.Data.{sample_host, sample_net, sample_json}

abbrev pub direct : UrlService Host
direct = record {
  create_short_url = Urls.create_short_url sample_net;
  create_short_url_with_alias = Urls.create_short_url_with_alias sample_net;
  get_url_by_id = Urls.get_url_by_id;
  list_urls = Urls.list_urls;
  get_original_url = Urls.get_original_url;
  update_url = Urls.update_url sample_net;
  delete_url = Urls.delete_url;
}

abbrev mallory : UserClaims
mallory = record { user_id = pos 7; email = "mallory@example.com"; role = "user" }

-- A deletion of the URL of another user.
abbrev pub request : Request
request = record {
  method = "DELETE";
  path = "/api/v1/urls/1";
  idempotency_key = "";
  user = some mallory;
  body = "";
  authorization = "Bearer token";
  user_agent = "";
  referrer = "";
  remote_addr = "10.0.0.1:4711";
}

abbrev pub texts : Texts
texts = record { pg_text = λ code. code; driver_text = "driver"; canceled_text = "canceled" }

abbrev pub decode : String → Result UpdateUrlRequest
decode body = err (message "EOF")

abbrev pub by_day : Locale
by_day = record { text_le = λ s t. leb (len s) (len t); day_of = λ t. "1970-01-01" }

abbrev pub host_analytics : ℤ → Action Host ClickAnalytics
host_analytics id = on_db (Clicks.get_analytics by_day id)

owner_only_example :
    (IsOwners direct request (some (pos 1)) sample_host
      ⊎ IsRefused direct (some (pos 1)) sample_host (get_url direct request sample_host))
    × (IsOwners direct request (some (pos 1)) sample_host
        ⊎ IsRefused direct
            (some (pos 1))
            sample_host
            (update_url direct texts decode request sample_host))
    × (IsOwners direct request (some (pos 1)) sample_host
        ⊎ IsRefused direct (some (pos 1)) sample_host (delete_url direct request sample_host))
    × (IsOwners direct request none sample_host
        ⊎ IsRefused direct none sample_host
            (get_analytics direct (some host_analytics) request sample_host))
unfolding parse_url_id parse_analytics_url_id parse_int trim_prefix has_suffix
owner_only_example = owner_only direct request sample_host texts decode (some host_analytics)

abbrev pub alice_claims : UserClaims
alice_claims = record { user_id = pos 1; email = "alice@example.com"; role = "user" }

-- A creation whose body is no JSON.
abbrev pub post : Request
post = record {
  method = "POST";
  path = "/api/v1/urls";
  idempotency_key = "key";
  user = some alice_claims;
  body = "";
  authorization = "Bearer token";
  user_agent = "";
  referrer = "";
  remote_addr = "10.0.0.1:4711";
}

abbrev pub environment : Environment
environment = record {
  texts = texts;
  decode = λ body. err (message "EOF");
  marshal = λ response. some "{}";
  public_base_url = "http://localhost:9000/";
  slash = "/";
}

not_empty : ◌≢◌ {A = String} "key" ""
not_empty e = absurd (ground (arith, eq_iff "key" ""))

pub post-IsKeyed : IsKeyed alice_claims "key" post
unfolding trim_space
post-IsKeyed = record {
  posted = refl;
  signed_in = refl;
  keyed = refl;
  short = refl;
  given = not_empty;
}

key-IsFree : IsFree (pos 1) "key" sample_host.db
unfolding id_eq
key-IsFree = record { unused = refl; fits = refl; known = refl }

abbrev locked_host : Host
locked_host = record sample_host {
  db = record sample_host.db { keys = reservation (pos 1) "key" ∷ [] };
}

rejected_body :
    create_url_response environment direct post (pos 1) (after_reserve (pos 1) "key" sample_host)
    ≡ (rejected 400 (message "EOF"), locked_host)
unfolding create_url_response
rejected_body = refl

rejected_locks_example :
    (create_url environment direct (postgres sample_json) true post sample_host
      ≡ (http_error 400 (error_text texts (message "EOF")), locked_host))
    × (create_url environment direct (postgres sample_json) true post locked_host
        ≡ (in_progress environment direct, after_reply locked_host))
rejected_locks_example =
    rejected_locks environment direct sample_json alice_claims "key" post post 400 (message "EOF")
      sample_host locked_host post-IsKeyed post-IsKeyed key-IsFree refl refl rejected_body refl refl
