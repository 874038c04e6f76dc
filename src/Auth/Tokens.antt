-- ===== src/Auth/Tokens.antt =====
-- The tokens of auth/auth_service.go: hashToken, generateRefreshToken and generateAccessToken.
-- crypto/sha256 and the library jwt are parameters; encoding/hex is written out.
use Prim.Native.Char.{Char}
use Prim.Native.String.{char_at}
use go_url_shortener.Base.{
  ℕ, zero, suc, ◌+◌, ◌*◌, ◌/◌, ◌%◌, ◌<◌, ◌≤◌, ◌≡◌, ◌≢◌, Bool, true, Option, none, some, List, [],
  ◌∷◌,
}
use go_url_shortener.Base.Int.{ℤ, pos}
use go_url_shortener.Base.Text.{String}
use go_url_shortener.Base.Decimal.{show_int}
use go_url_shortener.Model.{User, RefreshToken}
use go_url_shortener.Outcome.{driver, wrapped, Result, ok, err, is_ok, Action}

abbrev pub one_second : ℕ
one_second = 1_000_000_000

-- accessTokenLifetime, 15 minutes
abbrev pub access_token_lifetime : ℕ
access_token_lifetime = 900 * one_second

-- refreshTokenLifetime, 7 days
abbrev pub refresh_token_lifetime : ℕ
refresh_token_lifetime = 604_800 * one_second

abbrev pub refresh_token_bytes : ℕ
refresh_token_bytes = 32

abbrev hex_digit : ℕ → Char
hex_digit n = char_at "0123456789abcdef" (n % 16)

-- hex.EncodeToString
unfoldable pub hex_encode : List ℕ → String
hex_encode [] = String.[]
hex_encode (b ∷ bs) = String.◌∷◌ (hex_digit (b / 16)) (String.◌∷◌ (hex_digit b) (hex_encode bs))

-- hashToken, with the digest of crypto/sha256
unfoldable pub hash_token : (String → List ℕ) → String → String
hash_token sha256 token = hex_encode (sha256 token)

abbrev push_byte : ℕ → Result (List ℕ) × List ℕ → Result (List ℕ) × List ℕ
push_byte b (ok bs, rest) = (ok (b ∷ bs), rest)
push_byte b (err e, rest) = (err e, rest)

-- rand.Read into a slice of n bytes
unfoldable pub read_bytes : ℕ → Action (List ℕ) (List ℕ)
read_bytes zero bytes = (ok [], bytes)
read_bytes (suc n) [] = (err driver, [])
read_bytes (suc n) (b ∷ bytes) = push_byte b (read_bytes n bytes)

abbrev stored_token : ℤ → ℕ → String → RefreshToken
stored_token user now hash = record {
  id = pos 0;
  user_id = user;
  token_hash = hash;
  expires_at = now + refresh_token_lifetime;
  revoked_at = none;
  created_at = 0;
}

abbrev pub fresh_token :
    (String → List ℕ) → ℤ → ℕ → Result (List ℕ) × List ℕ → Result (String × RefreshToken) × List ℕ
fresh_token sha256 user now (err e, rest) = (err (wrapped "generate refresh token" e), rest)
fresh_token sha256 user now (ok bytes, rest) =
    (ok (hex_encode bytes, stored_token user now (hash_token sha256 (hex_encode bytes))), rest)

unfoldable pub generate_refresh_token :
    (String → List ℕ) → ℤ → ℕ → Action (List ℕ) (String × RefreshToken)
generate_refresh_token sha256 user now bytes =
    fresh_token sha256 user now (read_bytes refresh_token_bytes bytes)

-- The claims of an access token that the program sets and reads. A string claim is none where the
-- token has none or one that is no string.
pub record Claims : Type 0 where
  pub subject : Option String
  pub issuer : Option String
  pub audience : Option String
  pub email : Option String
  pub role : Option String
  pub issued_at : Option ℕ
  pub not_before : Option ℕ
  pub expires_at : Option ℕ

-- A signing method of the library, by the name in the header of a token.
pub data Method : Type 0 where
  hs256 : Method
  other : String → Method

pub record Token : Type 0 where
  pub method : Method
  pub claims : Claims
  pub valid : Bool

-- at an instant of the clock, against a time in seconds
abbrev pub IsReached : ℕ → Option ℕ → Type 0
IsReached now none = Unit
IsReached now (some t) = t * one_second ≤ now

-- The options of the library's parser that the program uses.
pub record Options : Type 0 where
  -- WithExpirationRequired
  pub expiration_required : Bool
  -- WithIssuedAt
  pub issued_at : Bool
  -- WithIssuer
  pub issuer : Option String
  -- WithAudience
  pub audience : Option String

-- What the library's validator asks of claims under options: an expiration time where it is required,
-- and one that is to come where there is one; a start that is reached; and what the other options name.
pub record IsValidated (o : Options) (now : ℕ) (c : Claims) : Type 0 where
  pub required : o.expiration_required ≡ true → c.expires_at ≢ none
  pub unexpired : (t : ℕ) → c.expires_at ≡ some t → now < t * one_second
  pub started : IsReached now c.not_before
  pub issued : o.issued_at ≡ true → IsReached now c.issued_at
  pub issuer : (name : String) → o.issuer ≡ some name → c.issuer ≡ some name
  pub audience : (name : String) → o.audience ≡ some name → c.audience ≡ some name

-- SignedString with HS256 under a secret, and jwt.Parse with options and a function that gives the key
-- for a method. A token that was signed is parsed under the same key while its claims are valid under
-- the options, and a token that is parsed has a key and claims that are.
pub record Jwt : Type 0 where
  pub sign : String → Claims → Option String
  pub parse : Options → (Method → Result String) → ℕ → String → Result Token
  pub parse-sign :
      (o : Options) (secret raw : String) (key : Method → Result String) (c : Claims) (now : ℕ)
      → sign secret c ≡ some raw
      → key hs256 ≡ ok secret
      → IsValidated o now c
      → parse o key now raw ≡ ok (record { method = hs256; claims = c; valid = true })
  pub parse_checked :
      (o : Options) (key : Method → Result String) (now : ℕ) (raw : String) (token : Token)
      → parse o key now raw ≡ ok token
      → (is_ok (key token.method) ≡ true) × IsValidated o now token.claims

abbrev pub access_claims : ℕ → User → Claims
access_claims now user = record {
  subject = some (show_int user.id);
  issuer = some "goshort";
  audience = some "goshort-api";
  email = some user.email;
  role = some user.role;
  issued_at = some (now / one_second);
  not_before = some (now / one_second);
  expires_at = some ((now + access_token_lifetime) / one_second);
}

abbrev signed : Option String → Result String
signed none = err driver
signed (some raw) = ok raw

unfoldable pub generate_access_token : Jwt → String → ℕ → User → Result String
generate_access_token jwt secret now user = signed (jwt.sign secret (access_claims now user))
