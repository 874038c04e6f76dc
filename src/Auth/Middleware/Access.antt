-- ===== src/Auth/Middleware/Access.antt =====
-- The access tokens of auth/auth_service.go under parseAccessToken of auth/auth_middleware.go.
use go_url_shortener.Base.{
  ℕ, ◌+◌, ◌*◌, ◌/◌, ◌<◌, ◌≤◌, ◌≡◌, ◌≢◌, refl, ◌∙◌, true, some, arith, Option-cases, inl, inr,
}
use go_url_shortener.Base.Int.{ℤ, pos, negsuc, is_positive}
use go_url_shortener.Base.Text.{String, eq_iff, trim_space}
use go_url_shortener.Base.Decimal.{
  trim_space-show, show_int, parse_int, parse_int-show_int, FitsInt64,
}
use go_url_shortener.Model.{User}
use go_url_shortener.Outcome.{Result, ok, err, is_ok}
use go_url_shortener.Handler.{UserClaims}
use go_url_shortener.Auth.Tokens.{
  Jwt, IsReached, IsValidated, Claims, Token, Method, hs256, other, access_claims,
  generate_access_token, access_token_lifetime, one_second,
}
use go_url_shortener.Auth.Middleware.{
  key_of, parser_options, read_token, read_claims, parse_access_token,
}

-- A user that a token can speak of: a positive id of 64 bits, an email and a role that are not blank.
pub record IsNamed (user : User) : Type 0 where
  pub positive : is_positive user.id ≡ true
  pub fits : FitsInt64 user.id
  pub email : trim_space user.email ≢ ""
  pub role : trim_space user.role ≢ ""

-- Claims of this issuer for this audience, which are not over, issued and started.
pub record IsCurrent (now : ℕ) (c : Claims) : Type 0 where
  pub expiry : ℕ
  pub expires : c.expires_at ≡ some expiry
  pub unexpired : now < expiry * one_second
  pub issued : IsReached now c.issued_at
  pub started : IsReached now c.not_before
  pub issuer : c.issuer ≡ some "goshort"
  pub audience : c.audience ≡ some "goshort-api"

-- The options of the program ask for that.
IsCurrent-IsValidated : (now : ℕ) (c : Claims) → IsCurrent now c → IsValidated parser_options now c
unfolding parser_options
IsCurrent-IsValidated now c i = record {
  required = λ _ missing. absurd (ground (arith, i.expires, missing));
  unexpired = λ t e. ground (arith, i.unexpired, i.expires, e);
  started = i.started;
  issued = λ _. i.issued;
  issuer = λ name e. i.issuer ∙ e;
  audience = λ name e. i.audience ∙ e;
}

IsValidated-IsCurrent : (now : ℕ) (c : Claims) → IsValidated parser_options now c → IsCurrent now c
unfolding parser_options
IsValidated-IsCurrent now c v = elim (Option-cases c.expires_at) [
  | inl missing ↦ absurd (v.required refl missing)
  | inr (t, e) ↦ record {
    expiry = t;
    expires = e;
    unexpired = v.unexpired t e;
    issued = v.issued refl;
    started = v.started;
    issuer = v.issuer "goshort" refl;
    audience = v.audience "goshort-api" refl;
  }
]

access-IsCurrent :
    (now t : ℕ) (user : User)
    → now ≤ t
    → t < (now + access_token_lifetime) / one_second * one_second
    → IsCurrent t (access_claims now user)
access-IsCurrent now t user le early = record {
  expiry = (now + access_token_lifetime) / one_second;
  expires = refl;
  unexpired = early;
  issued = omega arith;
  started = omega arith;
  issuer = refl;
  audience = refl;
}

shown : (z : ℤ) → is_positive z ≡ true → trim_space (show_int z) ≢ ""
shown (pos n) h = trim_space-show n
shown (negsuc n) h = absurd (grind arith)

read_claims-access :
    (now t : ℕ) (user : User)
    → IsNamed user
    → IsCurrent t (access_claims now user)
    → read_claims t (access_claims now user)
      ≡ ok (record { user_id = user.id; email = user.email; role = user.role })
unfolding read_claims
read_claims-access now t user n c = ground (
  arith,
  c,
  eq_iff (trim_space (show_int user.id)) "",
  eq_iff (trim_space user.email) "",
  eq_iff (trim_space user.role) "",
  shown user.id n.positive,
  parse_int-show_int user.id n.fits,
  n,
)

module _ (jwt : Jwt) (secret : String) where
  -- Within 15 minutes of its creation, by whole seconds, an access token of a user with a positive id
  -- of 64 bits and an email and a role that are not blank is accepted under the same secret, and tells
  -- the id, the email and the role of the user.
  pub parse_access_token-generate :
      (now t : ℕ) (user : User) (raw : String)
      → IsNamed user
      → generate_access_token jwt secret now user ≡ ok raw
      → now ≤ t
      → t < (now + access_token_lifetime) / one_second * one_second
      → parse_access_token jwt secret t raw
        ≡ ok (record { user_id = user.id; email = user.email; role = user.role })
  unfolding generate_access_token parse_access_token
  parse_access_token-generate now t user raw n made le early =
      let current = access-IsCurrent now t user le early in
      let signed : jwt.sign secret (access_claims now user) ≡ some raw = ground arith in
      rw
        (jwt.parse-sign parser_options secret raw (key_of secret) (access_claims now user) t signed
          refl (IsCurrent-IsValidated t (access_claims now user) current))
        (read_claims-access now t user n current)

-- What vouches for the claims that parseAccessToken returns.
pub record IsVouched (jwt : Jwt) (secret : String) (t : ℕ) (raw : String) (user : UserClaims)
    : Type 0 where
  pub token : Token
  pub parsed : jwt.parse parser_options (key_of secret) t raw ≡ ok token
  pub method : token.method ≡ hs256
  pub current : IsCurrent t token.claims
  pub subject : String
  pub named : token.claims.subject ≡ some subject
  pub id : parse_int subject ≡ some user.user_id
  pub positive : is_positive user.user_id ≡ true
  pub email : token.claims.email ≡ some user.email
  pub role : token.claims.role ≡ some user.role
  pub email_shown : trim_space user.email ≢ ""
  pub role_shown : trim_space user.role ≢ ""
  -- by the check of the program, after that of the library
  pub expiration : ℕ
  pub expiring : token.claims.expires_at ≡ some expiration
  pub in_time : t ≤ expiration * one_second

keyed : (secret : String) (m : Method) → is_ok (key_of secret m) ≡ true → m ≡ hs256
keyed secret hs256 h = refl
keyed secret (other name) h = absurd (grind arith)

read_claims_expiry :
    (t : ℕ) (c : Claims) (user : UserClaims)
    → read_claims t c ≡ ok user
    → (e : ℕ) × (c.expires_at ≡ some e) × (t ≤ e * one_second)
unfolding read_claims
read_claims_expiry t c user h = elim (Option-cases c.expires_at) [
  | inl missing ↦ absurd (ground arith)
  | inr (e, held) ↦ (e, held, ground arith)
]

read_claims-eq-ok :
    (t : ℕ) (c : Claims) (user : UserClaims)
    → read_claims t c ≡ ok user
    → (subject : String) × (c.subject ≡ some subject)
      × (parse_int subject ≡ some user.user_id)
      × (is_positive user.user_id ≡ true)
      × ((c.email ≡ some user.email)
          × (c.role ≡ some user.role)
          × (trim_space user.email ≢ "")
          × (trim_space user.role ≢ ""))
      × ((e : ℕ) × (c.expires_at ≡ some e) × (t ≤ e * one_second))
unfolding read_claims
read_claims-eq-ok t c user h = elim (Option-cases c.subject) [
  | inl missing ↦ absurd (ground arith)
  | inr (subject, named) ↦ (
    subject,
    named,
    ground arith,
    ground arith,
    (
      ground arith,
      ground arith,
      ground (arith, eq_iff (trim_space user.email) ""),
      ground (arith, eq_iff (trim_space user.role) ""),
    ),
    read_claims_expiry t c user h,
  )
]

module _ (jwt : Jwt) (secret : String) where
  vouched :
      (t : ℕ) (raw : String) (user : UserClaims) (r : Result Token)
      → jwt.parse parser_options (key_of secret) t raw ≡ r
      → read_token t r ≡ ok user
      → IsVouched jwt secret t raw user
  unfolding read_claims
  vouched t raw user (err x) made h = absurd (grind arith)
  vouched t raw user (ok token) made h =
      let (key, validated) = jwt.parse_checked parser_options (key_of secret) t raw token made in
      let (
        subject,
        named,
        id,
        positive,
        (email, role, email_shown, role_shown),
        (expiration, expiring, in_time),
      ) =
        read_claims-eq-ok t token.claims user (ground arith) in
      record {
        token = token;
        parsed = made;
        method = keyed secret token.method key;
        current = IsValidated-IsCurrent t token.claims validated;
        subject = subject;
        named = named;
        id = id;
        positive = positive;
        email = email;
        role = role;
        email_shown = email_shown;
        role_shown = role_shown;
        expiration = expiration;
        expiring = expiring;
        in_time = in_time;
      }

  -- Claims that parseAccessToken returns come from a token that was parsed with the method HS256,
  -- and whose claims have an expiration that is not over, were not issued later than now, and name
  -- this issuer and this audience: the options of the code ask for it, and its own test of the
  -- expiration has passed. They are the number that its subject spells, which is positive, and its
  -- email and its role, which are not blank.
  pub parse_access_token-IsVouched :
      (t : ℕ) (raw : String) (user : UserClaims)
      → parse_access_token jwt secret t raw ≡ ok user
      → IsVouched jwt secret t raw user
  unfolding parse_access_token
  parse_access_token-IsVouched t raw user e =
      vouched t raw user (jwt.parse parser_options (key_of secret) t raw) refl e
