-- ===== src/Tests/Auth.antt =====
-- Examples for the package auth, over a host with one user and one refresh token.
use go_url_shortener.Base.{
  ℕ, ◌≡◌, ◌↔◌, refl, false, none, some, List, [], ◌∷◌, arith, if◌then◌else◌,
}
use go_url_shortener.Base.Int.{pos, id_eq}
use go_url_shortener.Base.Decimal.{show_int, show, parse_int}
use go_url_shortener.Base.Text.{◌==◌, trim_space, to_lower, all_chars, is_space}
use go_url_shortener.Model.{User}
use go_url_shortener.Outcome.{ok, err, message, is_ok}
use go_url_shortener.Repository.Tokens
use go_url_shortener.Repository.Tokens.Hashes.{IsKeyed}
use go_url_shortener.Repository.Users
use go_url_shortener.Repository.Users.{insert_user, select_by_id}
use go_url_shortener.Repository.Tokens.{
  rotate, insert_token, revoke_row, is_target, is_active, select_active, find_active_by_hash,
  revoke, revoke_token,
}
use go_url_shortener.Service.Urls.{Host}
use go_url_shortener.Auth.Password.{validate_password, scan, look}
use go_url_shortener.Auth.Password.Policy.{IsStrong, validate_password_iff}
use go_url_shortener.Auth.Tokens.{
  hash_token, hex_encode, generate_access_token, generate_refresh_token, read_bytes,
}
use go_url_shortener.Auth.Service.{
  Session, refresh, logout, login, register, open_session, find_token, normalized, access_token,
  new_refresh_token, create_refresh_token,
}
use go_url_shortener.Auth.Service.Ended.{waits, refreshes, run}
use go_url_shortener.Auth.Service.Reuse.{refresh_once, logout_ends}
use go_url_shortener.Auth.Service.Registered.{IsRegistered, after_reply, register_login}
use go_url_shortener.Auth.Middleware.{parse_access_token, parser_options, read_claims, require_auth}
use go_url_shortener.Auth.Middleware.Access.{IsNamed, IsVouched, parse_access_token-IsVouched}
use go_url_shortener.Auth.Middleware.Bearer.{IsWord}
use go_url_shortener.Auth.Admission.{login_admits}
use go_url_shortener.Handler.{UserClaims, Request, Endpoint, http_error}
use go_url_shortener.Tests.Handler.{request}
use go_url_shortener.Tests.Data.{sample_host, sample_db, token_of, alice}
use go_url_shortener.Tests.Secrets.{sample_auth, secret_jwt, latin}

abbrev sixteen : List ℕ → List ℕ
sixteen bytes = 1 ∷ 2 ∷ 3 ∷ 4 ∷ 5 ∷ 6 ∷ 7 ∷ 8 ∷ 9 ∷ 10 ∷ 11 ∷ 12 ∷ 13 ∷ 14 ∷ 15 ∷ 255 ∷ bytes

-- The hash of the stored token is the digest of "first".
abbrev pub token_host : Host
token_host = record {
  db = record sample_db { tokens = token_of 1 "05" ∷ [] };
  entropy = sixteen (sixteen []);
}

pub token_host-IsKeyed : IsKeyed token_host.db
token_host-IsKeyed = (refl, tt)

abbrev pub session : Session
session = record {
  access_token = "secret";
  refresh_token = "0102030405060708090a0b0c0d0e0fff0102030405060708090a0b0c0d0e0fff";
}

abbrev pub renewed_host : Host
renewed_host = (refresh sample_auth "first" token_host).1

pub refreshed : refresh sample_auth "first" token_host ≡ (ok session, renewed_host)
unfolding refresh find_token hash_token hex_encode access_token new_refresh_token
    generate_access_token generate_refresh_token read_bytes trim_space show_int show rotate
    insert_token revoke_row is_target is_active select_active find_active_by_hash select_by_id
    Users.find_by_id id_eq revoke_token
refreshed = refl

refresh_once_example :
    (is_ok
        (refresh sample_auth " first"
          (run sample_auth renewed_host (waits 5 ∷ refreshes "first" ∷ []))).0
      ≡ false)
    × (is_ok
          (logout sample_auth " first"
            (run sample_auth renewed_host (waits 5 ∷ refreshes "first" ∷ []))).0
        ≡ false)
unfolding trim_space
refresh_once_example =
    refresh_once sample_auth "first" " first" token_host renewed_host session
      (waits 5 ∷ refreshes "first" ∷ []) token_host-IsKeyed refreshed refl

abbrev logged_out_host : Host
logged_out_host = (logout sample_auth "first" token_host).1

logged_out : logout sample_auth "first" token_host ≡ (ok tt, logged_out_host)
unfolding logout find_token hash_token hex_encode trim_space revoke revoke_token revoke_row
    is_target is_active select_active find_active_by_hash id_eq
logged_out = refl

logout_ends_example :
    (is_ok (refresh sample_auth " first" (run sample_auth logged_out_host (waits 5 ∷ []))).0
      ≡ false)
    × (is_ok (logout sample_auth " first" (run sample_auth logged_out_host (waits 5 ∷ []))).0
        ≡ false)
unfolding trim_space
logout_ends_example =
    logout_ends sample_auth "first" " first" token_host logged_out_host (waits 5 ∷ [])
      token_host-IsKeyed logged_out refl

abbrev bob : User
bob = record {
  id = pos 2;
  email = "bob@example.com";
  password_hash = "secret123";
  role = "user";
  created_at = 1000;
}

abbrev bob_host : Host
bob_host = (register sample_auth " bob@example.com" "secret123" sample_host).1

registered : register sample_auth " bob@example.com" "secret123" sample_host ≡ (ok bob, bob_host)
unfolding register normalized trim_space to_lower validate_password scan look Users.create
    insert_user
registered = refl

register_login_example :
    IsRegistered sample_auth " bob@example.com" "secret123" bob sample_host bob_host
    × (login sample_auth "bob@example.com" "wrong" bob_host ≡ (
        if "secret123" == "wrong"
        then open_session sample_auth bob (after_reply bob_host)
        else (err (message "invalid credentials"), after_reply bob_host)))
unfolding normalized trim_space register to_lower validate_password scan Users.create insert_user
register_login_example =
    register_login sample_auth " bob@example.com" "secret123" "bob@example.com" "wrong" bob
      sample_host bob_host registered refl refl

validate_password_iff_example :
    (validate_password latin "secret123" ≡ ok tt) ↔ IsStrong latin "secret123"
validate_password_iff_example = validate_password_iff latin "secret123"

alice-IsNamed : IsNamed alice
unfolding trim_space
alice-IsNamed = record {
  positive = refl;
  fits = omega arith;
  email = λ e. absurd cc;
  role = λ e. absurd cc;
}

abbrev alice_claims : UserClaims
alice_claims = record { user_id = pos 1; email = "alice@example.com"; role = "user" }

alice_parsed : parse_access_token secret_jwt "secret" 2000 "secret" ≡ ok alice_claims
unfolding parse_access_token trim_space parse_int read_claims parser_options
alice_parsed = refl

abbrev signed_in_host : Host
signed_in_host = (login sample_auth " alice@example.com" "hash" token_host).1

signed_in :
    login sample_auth " alice@example.com" "hash" token_host ≡ (ok (session, alice), signed_in_host)
unfolding login open_session normalized trim_space to_lower access_token new_refresh_token
    generate_access_token generate_refresh_token read_bytes show_int show hex_encode hash_token
    insert_token Users.find_by_email Users.select_by_email create_refresh_token Tokens.create id_eq
signed_in = refl

secret-IsWord : IsWord "secret"
unfolding all_chars is_space
secret-IsWord = record { given = λ e. absurd cc; solid = refl }

-- a request that carries the token of the session
abbrev carrying : Request
carrying = record request { user = none; authorization = "Bearer secret" }

abbrev echo : Endpoint ℕ
echo r n = (http_error 200 r.path, n)

login_admits_example :
    require_auth (λ c. c) (parse_access_token secret_jwt "secret" 2000) echo carrying 7
    ≡ echo (record carrying { user = some alice_claims }) 7
login_admits_example =
    login_admits sample_auth (λ c. c) echo " alice@example.com" "hash" alice session token_host
      signed_in_host 2000 carrying 7 signed_in alice-IsNamed secret-IsWord (omega arith)
      (omega arith) refl

parse_access_token-IsVouched_example :
    IsVouched secret_jwt "secret" 2000 "secret"
      (record { user_id = pos 1; email = "alice@example.com"; role = "user" })
parse_access_token-IsVouched_example =
    parse_access_token-IsVouched secret_jwt "secret" 2000 "secret" alice_claims alice_parsed
