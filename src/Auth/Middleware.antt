-- ===== src/Auth/Middleware.antt =====
-- auth/auth_middleware.go: parseAccessToken, RequireAuth and RequireRole. strings.EqualFold compares
-- under the fold of a character, a parameter.
pub mod Access
pub mod Bearer
use Prim.Native.Char.{Char}
use Prim.Native.String
use go_url_shortener.Base.{
  ℕ, ◌*◌, Bool, true, false, not, Option, none, some, List, [], ◌∷◌, ltb, if◌then◌else◌,
}
use go_url_shortener.Base.Int.{ℤ, is_positive}
use go_url_shortener.Base.Text.{String, ◌==◌, trim_space, is_space, to_lower}
use go_url_shortener.Base.Decimal.{parse_int}
use go_url_shortener.Outcome.{message, driver, Result, ok, err}
use go_url_shortener.Handler.{UserClaims, Request, Response, http_error, Endpoint}
use go_url_shortener.Auth.Tokens.{Jwt, Options, Claims, Token, Method, hs256, other, one_second}

-- the key of a signing method
abbrev pub key_of : String → Method → Result String
key_of secret hs256 = ok secret
key_of secret (other name) = err (message "unexpected signing method")

-- a string claim that is there and not blank
abbrev present : Option String → Bool
present none = false
present (some text) = not (trim_space text == "")

abbrev text_of : Option String → String
text_of none = ""
text_of (some text) = text

abbrev positive_id : Option ℤ → Option ℤ
positive_id none = none
positive_id (some id) = if is_positive id then some id else none

-- exp is there and not before now
abbrev pub check_expiry : ℕ → Option ℕ → UserClaims → Result UserClaims
check_expiry now none user = err (message "invalid expiration")
check_expiry now (some t) user =
    let expiry = t * one_second in if ltb expiry now then err (message "token expired") else ok user

abbrev with_id : ℕ → Claims → Option ℤ → Result UserClaims
with_id now c none = err (message "invalid user ID")
with_id now c (some id) =
    if not (present c.email)
    then err (message "invalid email")
    else if not (present c.role)
    then err (message "invalid role")
    else check_expiry now c.expires_at
        (record { user_id = id; email = text_of c.email; role = text_of c.role })

unfoldable pub read_claims : ℕ → Claims → Result UserClaims
read_claims now c =
    if not (present c.subject)
    then err (message "invalid subject")
    else with_id now c (positive_id (parse_int (text_of c.subject)))

abbrev pub read_token : ℕ → Result Token → Result UserClaims
read_token now (err e) = err e
read_token now (ok token) =
    if not token.valid then err (message "invalid token") else read_claims now token.claims

-- The options of the call of jwt.Parse.
unfoldable pub parser_options : Options
parser_options = record {
  expiration_required = true;
  issued_at = true;
  issuer = some "goshort";
  audience = some "goshort-api";
}

unfoldable pub parse_access_token : Jwt → String → ℕ → String → Result UserClaims
parse_access_token jwt secret now raw =
    read_token now (jwt.parse parser_options (key_of secret) now raw)

abbrev pub close_word : String → List String → List String
close_word String.[] ws = ws
close_word (String.◌∷◌ c w) ws = String.◌∷◌ c w ∷ ws

-- the word that a text begins with, and the words after it
abbrev pub push_char : Char → String × List String → String × List String
push_char c (w, ws) = if is_space c then ("", close_word w ws) else (String.◌∷◌ c w, ws)

unfoldable pub words : String → String × List String
unfolding is_space
words String.[] = ("", [])
words (String.◌∷◌ c s) = push_char c (words s)

-- strings.Fields
unfoldable pub split_fields : String → List String
unfolding words
split_fields s = close_word (words s).0 (words s).1

-- strings.EqualFold
unfoldable pub equal_fold : (Char → Char) → String → String → Bool
equal_fold fold s t = to_lower fold s == to_lower fold t

-- The token of the header Authorization, or none where it has not the form "Bearer token".
abbrev pub bearer : (Char → Char) → List String → Option String
bearer fold (scheme ∷ token ∷ []) = if equal_fold fold scheme "Bearer" then some token else none
bearer fold _ = none

module _ {S : Type 0} where
  abbrev pub unauthorized : String → S → Response × S
  unauthorized text s = (http_error 401 text, s)

  -- what follows parseAccessToken
  abbrev pub admit : Endpoint S → Request → Result UserClaims → S → Response × S
  admit next r (err e) s = unauthorized "Invalid access token" s
  admit next r (ok user) s = next (record r { user = some user }) s

  abbrev pub with_token :
      (String → Result UserClaims) → Endpoint S → Request → Option String → S → Response × S
  with_token check next r none s = unauthorized "Invalid authorization header" s
  with_token check next r (some token) s = admit next r (check token) s

  -- RequireAuth, where check parses a token
  unfoldable pub require_auth :
      (Char → Char) → (String → Result UserClaims) → Endpoint S → Endpoint S
  require_auth fold check next r s =
      if trim_space r.authorization == ""
      then unauthorized "Authentication required" s
      else with_token check next r (bearer fold (split_fields (trim_space r.authorization))) s

  abbrev pub has_role : String → Option UserClaims → Endpoint S → Endpoint S
  has_role role none next r s = unauthorized "Authentication required" s
  has_role role (some user) next r s =
      if not (user.role == role) then (http_error 403 "Forbidden", s) else next r s

  -- RequireRole
  unfoldable pub require_role : String → Endpoint S → Endpoint S
  require_role role next r s = has_role role r.user next r s
