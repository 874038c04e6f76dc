-- ===== src/Service/ShortCode/Laws.antt =====
-- The codes and the symbols of generateShortCode in service/url_service.go.
use Prim.Native.Char.{Char, code}
use Prim.Native.String.{count, char_at}
use text.Mathlib.TextLemmas.{length-cons, length-nil}
use go_url_shortener.Base.{
  ℕ, zero, suc, ◌%◌, ◌≤◌, ◌<◌, ◌≡◌, refl, Bool, true, false, ◌&&◌, ◌||◌, List, [], ◌∷◌, ltb, leb,
  if◌then◌else◌, count_if, arith, Bool-cases, inl, inr, ap, ◌∙◌, subst,
}
use go_url_shortener.Base.Text.{String, all_chars}
use go_url_shortener.Outcome.{Result, ok, err, ok_inj}
use go_url_shortener.Service.ShortCode.{
  base62_alphabet, symbol, prepend, fill_code, generate_short_code,
}

-- A decimal digit or an ASCII letter.
unfoldable pub is_alphanumeric : Char → Bool
is_alphanumeric c =
    leb b'0' (code c) && leb (code c) b'9'
    || leb b'a' (code c) && leb (code c) b'z'
    || leb b'A' (code c) && leb (code c) b'Z'

-- Whether the first n numbers pass a test, by trying each of them.
unfoldable pub try_each : (ℕ → Bool) → ℕ → Bool
try_each test zero = true
try_each test (suc n) = let others = try_each test n in if test n then others else false

pub try_each_lem : (test : ℕ → Bool) (x n : ℕ) → try_each test n ≡ true → x < n → test x ≡ true
unfolding try_each
try_each_lem test x zero passed small = absurd (omega arith)
try_each_lem test x (suc n) passed small = ground (arith, try_each_lem test x n)

alphabet_table : try_each (λ i. is_alphanumeric (char_at base62_alphabet i)) 62 ≡ true
unfolding try_each is_alphanumeric
alphabet_table = refl

symbol-alphanumeric : (b : ℕ) → is_alphanumeric (symbol b) ≡ true
unfolding symbol
symbol-alphanumeric b = try_each_lem _ (b % 62) 62 alphabet_table (omega arith)

prepend-eq-ok :
    (c : Char) (r : Result String × List ℕ) {s : String} {rest : List ℕ}
    → prepend c r ≡ (ok s, rest)
    → (t : String) × (r ≡ (ok t, rest)) × (s ≡ String.◌∷◌ c t)
prepend-eq-ok c (ok t, u) h = (t, ground arith, ground arith)
prepend-eq-ok c (err e, u) h = absurd (grind arith)

-- The text has this many characters, and all of them are alphanumeric.
abbrev pub IsCode : ℕ → String → Type 0
IsCode n s = (count s ≡ n) × (all_chars is_alphanumeric s ≡ true)

IsCode-cons : (n b : ℕ) (t : String) → IsCode n t → IsCode (suc n) (String.◌∷◌ (symbol b) t)
unfolding all_chars
IsCode-cons n b t h = (length-cons (symbol b) t ∙ ap suc h.0, rw (symbol-alphanumeric b) h.1)

fill_code_shape :
    (n : ℕ) (bytes rest : List ℕ) (s : String) → fill_code n bytes ≡ (ok s, rest) → IsCode n s
unfolding fill_code
fill_code_shape zero bytes rest s h =
    subst (IsCode 0) (ok_inj (ap (λ p. p.0) h)) (length-nil, unfold all_chars in refl)
fill_code_shape (suc n) [] rest s h = absurd (grind arith)
fill_code_shape (suc n) (b ∷ bytes) rest s h = elim (Bool-cases (leb 248 b)) [
  | inl skip ↦ fill_code_shape (suc n) bytes rest s (rw skip at h)
  | inr take ↦
      let (t, made, split) = prepend-eq-ok (symbol b) (fill_code n bytes) (rw take at h) in
      rw split (IsCode-cons n b t (fill_code_shape n bytes rest t made))
]

-- A generated code has the requested length, and each of its characters is a digit or an ASCII
-- letter, whatever bytes the random source delivers.
pub generate_short_code_shape :
    (n : ℕ) (bytes rest : List ℕ) (s : String)
    → generate_short_code n bytes ≡ (ok s, rest)
    → IsCode n s
unfolding generate_short_code
generate_short_code_shape zero bytes rest s h = absurd (grind arith)
generate_short_code_shape (suc n) bytes rest s h = fill_code_shape (suc n) bytes rest s h

prepend_ok :
    (c : Char) (r : Result String × List ℕ) {t : String} {rest : List ℕ}
    → r ≡ (ok t, rest)
    → prepend c r ≡ (ok (String.◌∷◌ c t), rest)
prepend_ok c r e = rw e

fill_code_total :
    (n : ℕ) (bytes : List ℕ)
    → n ≤ count_if (λ b. ltb b 248) bytes
    → (s : String) × (rest : List ℕ) × (fill_code n bytes ≡ (ok s, rest))
unfolding fill_code
fill_code_total zero bytes h = (String.[], bytes, refl)
fill_code_total (suc n) [] h = absurd (omega arith)
fill_code_total (suc n) (b ∷ bytes) h = elim (Bool-cases (leb 248 b)) [
  | inl skip ↦
      let (s, rest, e) = fill_code_total (suc n) bytes (ground arith) in (s, rest, rw skip e)
  | inr take ↦
      let (s, rest, e) = fill_code_total n bytes (ground arith) in
      (String.◌∷◌ (symbol b) s, rest, rw take (prepend_ok (symbol b) _ e))
]

-- The loop ends with a code as soon as the random source has delivered as many bytes below 248 as
-- the code has places; the bytes it rejects in between do not stop it.
pub generate_short_code_total :
    (n : ℕ) (bytes : List ℕ)
    → suc n ≤ count_if (λ b. ltb b 248) bytes
    → (s : String) × (rest : List ℕ) × (generate_short_code (suc n) bytes ≡ (ok s, rest))
unfolding generate_short_code
generate_short_code_total n bytes h = fill_code_total (suc n) bytes h
