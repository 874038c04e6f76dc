-- ===== src/Tests/Secrets.antt =====
-- Sample libraries for the authentication service: a bcrypt that keeps the password, a digest of one
-- byte, and a signature for the claims of one user.
use Prim.Native.Char.{Char, code}
use go_url_shortener.Base.{
  ℕ, ◌*◌, ◌<◌, ◌≡◌, refl, ap, ◌∙◌, Bool, true, false, ◌&&◌, Option, none, some, List, [], ◌∷◌, ltb,
  leb, if◌then◌else◌, arith, ◌==◌ as nat_eq, Bool-cases, inl, inr, some_inj, subst,
}
use go_url_shortener.Base.Text.{String, ◌==◌, eq_iff, len}
use go_url_shortener.Outcome.{message, Result, ok, err, is_ok, Action}
use go_url_shortener.Auth.Password.{Letters}
use go_url_shortener.Auth.Tokens.{
  Claims, Token, Method, hs256, Options, IsValidated, Jwt, one_second,
}
use go_url_shortener.Auth.Service.{Bcrypt, AuthService}

abbrev pub latin : Letters
latin = record {
  is_letter = λ c. leb 97 (code c) && leb (code c) 122;
  is_number = λ c. leb 48 (code c) && leb (code c) 57;
}

abbrev keep_password : String → Action (List ℕ) String
keep_password password bytes = (ok password, bytes)

pub keep_password_matches :
    (password hash : String) (bytes rest : List ℕ)
    → keep_password password bytes ≡ (ok hash, rest)
    → hash == password ≡ true
keep_password_matches password hash bytes rest e = ground (arith, eq_iff hash password)

abbrev pub plain_bcrypt : Bcrypt
plain_bcrypt = record {
  generate = keep_password;
  matches = λ hash password. hash == password;
  matches-generate = keep_password_matches;
}

-- The claims of the first user for the first 15 minutes.
abbrev pub alice_access : Claims
alice_access = record {
  subject = some "1";
  issuer = some "goshort";
  audience = some "goshort-api";
  email = some "alice@example.com";
  role = some "user";
  issued_at = some 0;
  not_before = some 0;
  expires_at = some 900;
}

abbrev is_text : String → Option String → Bool
is_text s none = false
is_text s (some t) = t == s

abbrev is_time : ℕ → Option ℕ → Bool
is_time n none = false
is_time n (some m) = nat_eq m n

abbrev is_alice : Claims → Bool
is_alice c =
    is_text "1" c.subject
    && is_text "goshort" c.issuer
    && is_text "goshort-api" c.audience
    && is_text "alice@example.com" c.email
    && is_text "user" c.role
    && is_time 0 c.issued_at
    && is_time 0 c.not_before
    && is_time 900 c.expires_at

is_text-eq : (s : String) (o : Option String) → is_text s o ≡ true → o ≡ some s
is_text-eq s none h = absurd (grind arith)
is_text-eq s (some t) h = ap some ((eq_iff t s).0 h)

is_time-eq : (n : ℕ) (o : Option ℕ) → is_time n o ≡ true → o ≡ some n
is_time-eq n none h = absurd (grind arith)
is_time-eq n (some m) h = ground arith

is_alice-eq : (c : Claims) → is_alice c ≡ true → c ≡ alice_access
is_alice-eq c h = ground (
  arith,
  is_text-eq "1" c.subject,
  is_text-eq "goshort" c.issuer,
  is_text-eq "goshort-api" c.audience,
  is_text-eq "alice@example.com" c.email,
  is_text-eq "user" c.role,
  is_time-eq 0 c.issued_at,
  is_time-eq 0 c.not_before,
  is_time-eq 900 c.expires_at,
)

-- The token is the secret.
abbrev sign : String → Claims → Option String
sign secret c = if is_alice c then some secret else none

-- whether an option that names a text, if it is given, names this one
abbrev option_fits : String → Option String → Bool
option_fits text none = true
option_fits text (some name) = text == name

option_fits-eq :
    (text name : String) (o : Option String)
    → option_fits text o ≡ true
    → o ≡ some name
    → ◌≡◌ {A = Option String} (some text) (some name)
option_fits-eq text name none fits e = absurd cc
option_fits-eq text name (some other) fits e = ap some ((eq_iff text other).0 fits ∙ some_inj e)

fits-option :
    (text : String) (o : Option String)
    → ((name : String) → o ≡ some name → text ≡ name)
    → option_fits text o ≡ true
fits-option text none same = refl
fits-option text (some name) same = (eq_iff text name).1 (same name refl)

abbrev verified : Options → Result String → ℕ → String → Result Token
verified o (err e) now raw = err e
verified o (ok secret) now raw =
    if secret == raw
      && ltb now (900 * one_second)
      && option_fits "goshort" o.issuer
      && option_fits "goshort-api" o.audience
    then ok (record { method = hs256; claims = alice_access; valid = true })
    else err (message "token is invalid")

abbrev parse : Options → (Method → Result String) → ℕ → String → Result Token
parse o key now raw = verified o (key hs256) now raw

alice-IsValidated :
    (o : Options) (now : ℕ)
    → now < 900 * one_second
    → option_fits "goshort" o.issuer ≡ true
    → option_fits "goshort-api" o.audience ≡ true
    → IsValidated o now alice_access
alice-IsValidated o now early issuer audience = record {
  required = λ _ missing. absurd cc;
  unexpired = λ t e. subst (λ n. now < n * one_second) (some_inj e) early;
  started = omega arith;
  issued = λ _. omega arith;
  issuer = λ name. option_fits-eq "goshort" name o.issuer issuer;
  audience = λ name. option_fits-eq "goshort-api" name o.audience audience;
}

signed_alice :
    (secret raw : String) (c : Claims)
    → sign secret c ≡ some raw
    → (c ≡ alice_access) × (secret ≡ raw)
signed_alice secret raw c e = elim (Bool-cases (is_alice c)) [
  | inl alice ↦ (is_alice-eq c alice, some_inj (rw alice at e))
  | inr other ↦ let bad : ◌≡◌ {A = Option String} none (some raw) = rw other at e in absurd cc
]

abbrev early_token : Token
early_token = record { method = hs256; claims = alice_access; valid = true }

verified_raw :
    (o : Options) (secret raw : String) (now : ℕ)
    → secret ≡ raw
    → now < 900 * one_second
    → option_fits "goshort" o.issuer ≡ true
    → option_fits "goshort-api" o.audience ≡ true
    → verified o (ok secret) now raw ≡ ok early_token
verified_raw o secret raw now e early issuer audience =
    rw (issuer, audience) (ground (arith, eq_iff secret raw))

pub parse-sign :
    (o : Options) (secret raw : String) (key : Method → Result String) (c : Claims) (now : ℕ)
    → sign secret c ≡ some raw
    → key hs256 ≡ ok secret
    → IsValidated o now c
    → parse o key now raw ≡ ok (record { method = hs256; claims = c; valid = true })
parse-sign o secret raw key c now e k valid =
    let (claims, same) = signed_alice secret raw c e in
    let v : IsValidated o now alice_access = subst (IsValidated o now) claims valid in
    rw (k, claims)
      (verified_raw o secret raw now same (v.unexpired 900 refl)
        (fits-option "goshort" o.issuer (λ name given. some_inj (v.issuer name given)))
        (fits-option "goshort-api" o.audience (λ name given. some_inj (v.audience name given))))

verified_token :
    (o : Options) (r : Result String) (now : ℕ) (raw : String) (token : Token)
    → verified o r now raw ≡ ok token
    → (is_ok r ≡ true)
      × (now < 900 * one_second)
      × (token ≡ early_token)
      × ((option_fits "goshort" o.issuer ≡ true) × (option_fits "goshort-api" o.audience ≡ true))
verified_token o (err e) now raw token h = absurd (grind arith)
verified_token o (ok secret) now raw token h =
    (refl, grind arith, grind arith, (grind arith, grind arith))

pub parse_checked :
    (o : Options) (key : Method → Result String) (now : ℕ) (raw : String) (token : Token)
    → parse o key now raw ≡ ok token
    → (is_ok (key token.method) ≡ true) × IsValidated o now token.claims
parse_checked o key now raw token h =
    let (good, early, same, (issuer, audience)) = verified_token o (key hs256) now raw token h in
    rw same (good, alice-IsValidated o now early issuer audience)

abbrev pub secret_jwt : Jwt
secret_jwt = record {
  sign = sign;
  parse = parse;
  parse-sign = parse-sign;
  parse_checked = parse_checked;
}

abbrev pub sample_auth : AuthService
sample_auth = record {
  jwt_secret = "secret";
  letters = latin;
  lower = λ (c : Char). c;
  bcrypt = plain_bcrypt;
  sha256 = λ s. len s ∷ [];
  jwt = secret_jwt;
}
