-- ===== src/Auth/Service.antt =====
-- auth/auth_service.go: AuthService over the repositories of users and refresh tokens. A host is the
-- database and the random bytes to come; time.Now reads the clock of the database. bcrypt is a
-- parameter: its hash takes a salt from the random bytes.
pub mod Keeps
pub mod Ended
pub mod Reuse
pub mod Registered
use go_url_shortener.Base.{ℕ, ◌≡◌, Bool, true, false, not, Option, none, some, List, if◌then◌else◌}
use go_url_shortener.Base.Int.{ℤ, pos}
use go_url_shortener.Base.Text.{String, ◌==◌, trim_space, to_lower}
use go_url_shortener.Model.{User, RefreshToken}
use go_url_shortener.Outcome.{
  Error, message, wrapped, email_exists, driver, Result, ok, err, Action, map_error, from_result,
  fail_if, fail, pure, is_unique_violation, ◌>>=◌, ◌>>◌,
}
use go_url_shortener.Db.{Db}
use go_url_shortener.Repository.Users
use go_url_shortener.Repository.Tokens
use go_url_shortener.Service.Urls.{Host, on_db, on_entropy}
use go_url_shortener.Auth.Password.{Letters, validate_password}
use go_url_shortener.Auth.Tokens.{Jwt, hash_token, generate_refresh_token, generate_access_token}
use Prim.Native.Char.{Char}

-- bcrypt at its default cost. What it hashes it recognises.
pub record Bcrypt : Type 0 where
  pub generate : String → Action (List ℕ) String
  pub matches : String → String → Bool
  pub matches-generate :
      (password hash : String) (bytes rest : List ℕ)
      → generate password bytes ≡ (ok hash, rest)
      → matches hash password ≡ true

-- AuthService, with the libraries that it calls.
pub record AuthService : Type 0 where
  pub jwt_secret : String
  pub letters : Letters
  pub lower : Char → Char
  pub bcrypt : Bcrypt
  pub sha256 : String → List ℕ
  pub jwt : Jwt

-- NewAuthService, of its secret
unfoldable pub new_secret : String → Result String
new_secret secret =
    if trim_space secret == "" then err (message "JWT secret is required") else ok secret

-- err is replaced by the message.
abbrev pub hide : String → Error → Error
hide text e = message text

abbrev pub create_user_error : Error → Error
create_user_error e = if is_unique_violation e then email_exists else wrapped "create user" e

-- The model.User that Register hands to the repository.
abbrev pub new_user : String → String → User
new_user email hash = record {
  id = pos 0;
  email = email;
  password_hash = hash;
  role = "user";
  created_at = 0;
}

-- What Login and Refresh return: an access token and a refresh token.
pub record Session : Type 0 where
  pub access_token : String
  pub refresh_token : String

module _ (auth : AuthService) where
  -- the email as the service looks it up
  unfoldable pub normalized : String → String
  normalized email = to_lower auth.lower (trim_space email)

  unfoldable pub register : String → String → Action Host User
  register email password = do
    fail_if (normalized email == "") (message "email is required")
    from_result (validate_password auth.letters password)
    hash ← map_error (wrapped "hash password") (on_entropy (auth.bcrypt.generate password))
    map_error create_user_error (on_db (Users.create (new_user (normalized email) hash)))

  -- generateAccessToken at the time of the host
  unfoldable pub access_token : User → Action Host String
  access_token user h = (generate_access_token auth.jwt auth.jwt_secret h.db.now user, h)

  -- generateRefreshToken at the time of the host
  unfoldable pub new_refresh_token : ℤ → Action Host (String × RefreshToken)
  new_refresh_token user h = on_entropy (generate_refresh_token auth.sha256 user h.db.now) h

  abbrev pub store_token : String × RefreshToken → Action Host String
  store_token (raw, stored) = do
    map_error (wrapped "store refresh token") (on_db (Tokens.create stored))
    pure raw

  unfoldable pub create_refresh_token : ℤ → Action Host String
  create_refresh_token user = new_refresh_token user >>= store_token

  unfoldable pub open_session : User → Action Host (Session × User)
  open_session user = do
    access ← map_error (wrapped "generate access token") (access_token user)
    refresh ← create_refresh_token user.id
    pure (record { access_token = access; refresh_token = refresh }, user)

  unfoldable pub login : String → String → Action Host (Session × User)
  login email password = do
    user ← map_error (hide "invalid credentials") (on_db (Users.find_by_email (normalized email)))
    fail_if (not (auth.bcrypt.matches user.password_hash password)) (message "invalid credentials")
    open_session user

  -- the check and the lookup that Refresh and Logout begin with
  unfoldable pub find_token : String → Action Host RefreshToken
  find_token raw = do
    fail_if (trim_space raw == "") (message "invalid refresh token")
    map_error (hide "invalid refresh token")
        (on_db (Tokens.find_active_by_hash (hash_token auth.sha256 (trim_space raw))))

  abbrev pub rotate_to : ℤ → String → String × RefreshToken → Action Host Session
  rotate_to old access (raw, stored) = do
    map_error (hide "invalid refresh token") (on_db (Tokens.rotate old stored))
    pure (record { access_token = access; refresh_token = raw })

  abbrev pub renew : RefreshToken → Action Host Session
  renew token = do
    user ← map_error (hide "invalid refresh token") (on_db (Users.find_by_id token.user_id))
    access ← map_error (wrapped "generate access token") (access_token user)
    fresh ← new_refresh_token user.id
    rotate_to token.id access fresh

  unfoldable pub refresh : String → Action Host Session
  refresh raw = find_token raw >>= renew

  unfoldable pub logout : String → Action Host (Unit {0})
  logout raw = find_token raw >>= λ token. on_db (Tokens.revoke token.id)
