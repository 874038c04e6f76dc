-- ===== src/Auth/Middleware/Bearer.antt =====
-- RequireAuth of auth/auth_middleware.go at a header "Bearer token".
use Prim.Native.Char.{Char}
use Prim.Native.String
use Prim.Native.String.append
use go_url_shortener.Base.{◌≡◌, ◌≢◌, refl, ap, ◌∙◌, sym, true, false, not, List, [], ◌∷◌, arith}
use go_url_shortener.Base.Text.{
  String, is_space, trim_space, trim_right, push_trimmed, all_chars, to_lower, ◌==◌, eq_iff,
  eq_refl,
}
use go_url_shortener.Outcome.{Result}
use go_url_shortener.Handler.{UserClaims, Request, Endpoint}
use go_url_shortener.Auth.Middleware.{
  close_word, push_char, words, split_fields, equal_fold, require_auth, admit,
}

-- A text that is not empty and has no blank in it.
pub record IsWord (text : String) : Type 0 where
  pub given : text ≢ ""
  pub solid : all_chars (λ c. not (is_space c)) text ≡ true

words_solid :
    (text : String) → all_chars (λ c. not (is_space c)) text ≡ true → words text ≡ (text, [])
unfolding words all_chars
words_solid String.[] solid = refl
words_solid (String.◌∷◌ c s) solid = ground (arith, words_solid s)

push_trimmed_solid :
    (c : Char) (s : String) → is_space c ≡ false → push_trimmed c s ≡ String.◌∷◌ c s
push_trimmed_solid c String.[] visible = rw visible refl
push_trimmed_solid c (String.◌∷◌ d s) visible = refl

trim_right_solid :
    (text : String) → all_chars (λ c. not (is_space c)) text ≡ true → trim_right text ≡ text
unfolding all_chars
trim_right_solid String.[] solid = refl
trim_right_solid (String.◌∷◌ c s) solid =
    rw (trim_right_solid s (ground arith)) (push_trimmed_solid c s (ground arith))

-- The header of a scheme and a token.
abbrev pub header : String → String → String
header scheme token = String.◌++◌ scheme (String.◌∷◌ " " token)

is_space-blank : is_space " " ≡ true
unfolding is_space
is_space-blank = refl

close_word-given : (word : String) (ws : List String) → word ≢ "" → close_word word ws ≡ word ∷ ws
close_word-given String.[] ws given = absurd (given refl)
close_word-given (String.◌∷◌ c w) ws given = refl

push_char-blank :
    (c : Char) (p : String × List String)
    → is_space c ≡ true
    → push_char c p ≡ ("", close_word p.0 p.1)
push_char-blank c (w, ws) blank = rw blank refl

words-blank :
    (c : Char) (token : String)
    → is_space c ≡ true
    → IsWord token
    → words (String.◌∷◌ c token) ≡ ("", token ∷ [])
unfolding words
words-blank c token blank w =
    push_char-blank c (words token) blank
    ∙ ap (λ (p : String × List String). ("", close_word p.0 p.1)) (words_solid token w.solid)
    ∙ ap (λ ws. ("", ws)) (close_word-given token [] w.given)

words-cons :
    (c : Char) (rest : String) (p : String × List String)
    → is_space c ≡ false
    → words rest ≡ p
    → words (String.◌∷◌ c rest) ≡ (String.◌∷◌ c p.0, p.1)
unfolding words
words-cons c rest p visible e = ap (push_char c) e ∙ rw visible refl

words-scheme :
    (blank : Char) (scheme token : String)
    → is_space blank ≡ true
    → all_chars (λ c. not (is_space c)) scheme ≡ true
    → IsWord token
    → words (String.◌++◌ scheme (String.◌∷◌ blank token)) ≡ (scheme, token ∷ [])
unfolding all_chars
words-scheme blank String.[] token b solid w =
    ap words (append.nil (String.◌∷◌ blank token)) ∙ words-blank blank token b w
words-scheme blank (String.◌∷◌ c s) token b solid w =
    ap words (append.cons c s (String.◌∷◌ blank token))
    ∙ words-cons c _ (s, token ∷ []) (ground arith) (words-scheme blank s token b (ground arith) w)

trim_right-header :
    (scheme token : String)
    → all_chars (λ c. not (is_space c)) scheme ≡ true
    → IsWord token
    → trim_right (header scheme token) ≡ header scheme token
unfolding all_chars
trim_right-header String.[] String.[] solid w = absurd (w.given refl)
trim_right-header String.[] (String.◌∷◌ d t) solid w =
    rw (append.nil (String.◌∷◌ " " (String.◌∷◌ d t)))
      (rw (trim_right_solid (String.◌∷◌ d t) w.solid) refl)
trim_right-header (String.◌∷◌ c s) token solid w = rw (append.cons c s (String.◌∷◌ " " token)) (
    rw (trim_right-header s token (ground arith) w)
      (push_trimmed_solid c (header s token) (ground arith)))

trim_visible :
    (c : Char) (s : String)
    → is_space c ≡ false
    → trim_space (String.◌∷◌ c s) ≡ trim_right (String.◌∷◌ c s)
unfolding trim_space
trim_visible c s visible = rw visible refl

trim_space-header :
    (token : String) → IsWord token → trim_space (header "Bearer" token) ≡ header "Bearer" token
unfolding trim_space is_space all_chars
trim_space-header token w =
    ap trim_space (append.cons "B" "earer" (String.◌∷◌ " " token))
    ∙ trim_visible "B" (header "earer" token) refl
    ∙ ap trim_right (sym (append.cons "B" "earer" (String.◌∷◌ " " token)))
    ∙ trim_right-header "Bearer" token refl w

split_fields-header :
    (token : String) → IsWord token → split_fields (header "Bearer" token) ≡ "Bearer" ∷ token ∷ []
unfolding split_fields all_chars is_space
split_fields-header token w =
    ap (λ (p : String × List String). close_word p.0 p.1)
      (words-scheme " " "Bearer" token is_space-blank refl w)

fold_bearer : (fold : Char → Char) → equal_fold fold "Bearer" "Bearer" ≡ true
unfolding equal_fold
fold_bearer fold = eq_refl (to_lower fold "Bearer")

cons-ne-nil : (c : Char) (s : String) → String.◌∷◌ c s ≢ ""
cons-ne-nil c s e = cc

header_given : (token : String) → (header "Bearer" token == "") ≡ false
header_given token =
    ap (λ t. t == "") (append.cons "B" "earer" (String.◌∷◌ " " token))
    ∙ ground (
      arith,
      eq_iff (String.◌∷◌ "B" (header "earer" token)) "",
      cons-ne-nil "B" (header "earer" token),
    )

-- A request that carries a token in the header goes on with the answer of parseAccessToken to it.
pub require_auth-header :
    {S : Type 0} (fold : Char → Char) (check : String → Result UserClaims) (next : Endpoint S)
    (r : Request) (s : S) (token : String)
    → IsWord token
    → r.authorization ≡ header "Bearer" token
    → require_auth fold check next r s ≡ admit next r (check token) s
unfolding require_auth
require_auth-header fold check next r s token w e =
    rw
      (
        e,
        trim_space-header token w,
        split_fields-header token w,
        fold_bearer fold,
        header_given token,
      )
      refl
