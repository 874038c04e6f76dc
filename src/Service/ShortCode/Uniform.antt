-- ===== src/Service/ShortCode/Uniform.antt =====
-- No code of generateShortCode in service/url_service.go is more likely than another.
use Prim.Native.Char.{Char, code}
use Prim.Native.String.{char_at}
use go_url_shortener.Base.{
  ℕ, zero, suc, ◌+◌, ◌*◌, ◌^◌, ◌<◌, ◌≡◌, refl, ◌∙◌, Bool, true, false, ◌&&◌, not, List, [], ◌∷◌,
  length, All, leb, if◌then◌else◌, ◌==◌ as nat_eq, ==_iff, arith, Bool-cases, inl, inr,
}
use go_url_shortener.Base.Text.{String}
use go_url_shortener.Outcome.{Result, ok, err}
use go_url_shortener.Service.ShortCode.{
  base62_alphabet, symbol, prepend, fill_code, generate_short_code,
}
use go_url_shortener.Service.ShortCode.Laws.{try_each, try_each_lem}

-- Whether two texts have the same characters.
unfoldable pub same_text : String → String → Bool
same_text String.[] String.[] = true
same_text String.[] (String.◌∷◌ d t) = false
same_text (String.◌∷◌ c s) String.[] = false
same_text (String.◌∷◌ c s) (String.◌∷◌ d t) = nat_eq (code c) (code d) && same_text s t

-- Whether a call has returned this text.
unfoldable pub returns : String → Result String × List ℕ → Bool
returns s (ok t, rest) = same_text t s
returns s (err e, rest) = false

unfoldable pub sum_below : ℕ → (ℕ → ℕ) → ℕ
sum_below zero f = 0
sum_below (suc n) f = f n + sum_below n f

-- How many sequences of m bytes pass a test.
unfoldable pub count_bytes : ℕ → (List ℕ → Bool) → ℕ
count_bytes zero p = if p [] then 1 else 0
count_bytes (suc m) p = sum_below 256 (λ b. count_bytes m (λ bytes. p (b ∷ bytes)))

-- A sequence of m bytes fills n places: 8 of its first bytes are passed over, and 4 stand for the first
-- symbol of the code.
unfoldable pub ways : ℕ → ℕ → ℕ
ways zero m = 256 ^ m
ways (suc n) zero = 0
ways (suc n) (suc m) = 8 * ways (suc n) m + 4 * ways n m

-- The code of the symbols at these places of the alphabet.
unfoldable pub code_at : List ℕ → String
code_at [] = String.[]
code_at (i ∷ is) = String.◌∷◌ (char_at base62_alphabet i) (code_at is)

-- How many of the numbers below a bound pass a test.
count_below : ℕ → (ℕ → Bool) → ℕ
count_below zero p = 0
count_below (suc n) p = let rest = count_below n p in if p n then suc rest else rest

abbrev pass_over : ℕ → Bool
pass_over b = leb 248 b

abbrev stands_for : ℕ → ℕ → Bool
stands_for i b = not (leb 248 b) && nat_eq (code (symbol b)) (code (char_at base62_alphabet i))

skipped_table : count_below 256 pass_over ≡ 8
unfolding count_below
skipped_table = refl

symbols_table : try_each (λ i. nat_eq (count_below 256 (stands_for i)) 4) 62 ≡ true
unfolding try_each count_below symbol
symbols_table = refl

sum_below_ext : (n : ℕ) (f g : ℕ → ℕ) → ((b : ℕ) → f b ≡ g b) → sum_below n f ≡ sum_below n g
unfolding sum_below
sum_below_ext zero f g e = refl
sum_below_ext (suc n) f g e = rw (e n, sum_below_ext n f g e) refl

count_bytes_ext :
    (m : ℕ) (p q : List ℕ → Bool)
    → ((bytes : List ℕ) → p bytes ≡ q bytes)
    → count_bytes m p ≡ count_bytes m q
unfolding count_bytes
count_bytes_ext zero p q e = rw (e []) refl
count_bytes_ext (suc m) p q e =
    sum_below_ext 256 _ _ (λ b. count_bytes_ext m _ _ (λ bytes. e (b ∷ bytes)))

add_split :
    (p q : Bool) (x y k l : ℕ)
    → (p ≡ true → q ≡ false)
    → (if p then x else if q then y else 0) + (k * x + l * y)
      ≡ (if p then suc k else k) * x + (if q then suc l else l) * y
add_split true true x y k l apart = absurd (grind arith)
add_split true false x y k l apart = grind arith
add_split false true x y k l apart = grind arith
add_split false false x y k l apart = omega arith

-- A sum of two values over the numbers that take each.
sum_below_split :
    (n x y : ℕ) (p q : ℕ → Bool) (f : ℕ → ℕ)
    → ((b : ℕ) → f b ≡ (if p b then x else if q b then y else 0))
    → ((b : ℕ) → p b ≡ true → q b ≡ false)
    → sum_below n f ≡ count_below n p * x + count_below n q * y
unfolding sum_below count_below
sum_below_split zero x y p q f e apart = omega arith
sum_below_split (suc n) x y p q f e apart =
    rw (e n, sum_below_split n x y p q f e apart)
      (add_split (p n) (q n) x y (count_below n p) (count_below n q) (apart n))

sum_below_const : (n x : ℕ) → sum_below n (λ b. x) ≡ n * x
unfolding sum_below
sum_below_const zero x = omega arith
sum_below_const (suc n) x = rw (sum_below_const n x) (grind arith)

all_bytes : (m : ℕ) → count_bytes m (λ bytes. true) ≡ 256 ^ m
unfolding count_bytes
all_bytes zero = refl
all_bytes (suc m) = sum_below_const 256 _ ∙ rw (all_bytes m) (omega arith)

no_bytes : (m : ℕ) → count_bytes m (λ bytes. false) ≡ 0
unfolding count_bytes
no_bytes zero = refl
no_bytes (suc m) = sum_below_const 256 _ ∙ rw (no_bytes m) refl

returns-prepend :
    (c d : Char) (s : String) (r : Result String × List ℕ)
    → returns (String.◌∷◌ d s) (prepend c r) ≡ nat_eq (code c) (code d) && returns s r
unfolding returns same_text
returns-prepend c d s (ok t, rest) = refl
returns-prepend c d s (err e, rest) = ground arith

module _ (i n m b : ℕ) (s : String) where
  abbrev place : Char
  place = char_at base62_alphabet i

  skipped_first :
      leb 248 b ≡ true
      → count_bytes m (λ bytes. returns (String.◌∷◌ place s) (fill_code (suc n) (b ∷ bytes)))
        ≡ count_bytes m (λ bytes. returns (String.◌∷◌ place s) (fill_code (suc n) bytes))
  unfolding fill_code
  skipped_first over = count_bytes_ext m _ _ (λ bytes. rw over refl)

  taken_first :
      (same : Bool)
      → leb 248 b ≡ false
      → nat_eq (code (symbol b)) (code place) ≡ same
      → count_bytes m (λ bytes. returns (String.◌∷◌ place s) (fill_code (suc n) (b ∷ bytes)))
        ≡ (if same then count_bytes m (λ bytes. returns s (fill_code n bytes)) else 0)
  unfolding fill_code
  taken_first true below e =
      count_bytes_ext m _ _
        (λ bytes. rw below (returns-prepend (symbol b) place s (fill_code n bytes) ∙ rw e refl))
  taken_first false below e =
      count_bytes_ext m _ (λ bytes. false)
        (λ bytes. rw below (returns-prepend (symbol b) place s (fill_code n bytes) ∙ rw e refl))
      ∙ no_bytes m

  -- The sequences that begin with a given byte.
  first_byte :
      count_bytes m (λ bytes. returns (String.◌∷◌ place s) (fill_code (suc n) (b ∷ bytes))) ≡ (
        if pass_over b
        then count_bytes m (λ bytes. returns (String.◌∷◌ place s) (fill_code (suc n) bytes))
        else if stands_for i b
        then count_bytes m (λ bytes. returns s (fill_code n bytes))
        else 0)
  first_byte = elim (Bool-cases (leb 248 b)) [
    | inl over ↦ skipped_first over ∙ rw over refl
    | inr below ↦ taken_first (nat_eq (code (symbol b)) (code place)) below refl ∙ rw below refl
  ]

fill_code-ways :
    (is : List ℕ) (m : ℕ)
    → All (λ i. i < 62) is
    → count_bytes m (λ bytes. returns (code_at is) (fill_code (length is) bytes))
      ≡ ways (length is) m
unfolding ways code_at count_bytes fill_code returns same_text
fill_code-ways [] m small = all_bytes m
fill_code-ways (i ∷ is) zero small = refl
fill_code-ways (i ∷ is) (suc m) small =
    let later = fill_code-ways (i ∷ is) m small in
    let rest = fill_code-ways is m small.1 in
    let four = (==_iff _ 4).0 (try_each_lem _ i 62 symbols_table small.0) in
    sum_below_split 256 _ _ pass_over (stands_for i) _
      (λ b. first_byte i (length is) m b (code_at is)) (λ b over. rw over refl)
    ∙ rw (skipped_table, four, later, rest) refl

-- No code is more likely than another: among all sequences of m bytes from the random source, the
-- number of those from which generateShortCode returns a given code of n symbols of the alphabet,
-- where n is at least 1, is the same for every such code: it is ways n m, which depends on n and m
-- alone.
pub generate_short_code_uniform :
    (i : ℕ) (is : List ℕ) (m : ℕ)
    → All (λ j. j < 62) (i ∷ is)
    → count_bytes m
        (λ bytes. returns (code_at (i ∷ is)) (generate_short_code (length (i ∷ is)) bytes))
      ≡ ways (length (i ∷ is)) m
unfolding generate_short_code
generate_short_code_uniform i is m small = fill_code-ways (i ∷ is) m small
