-- ===== src/Base/Decimal.antt =====
-- Decimal integers: strconv.ParseInt for base 10 and 64 bits, and the verb %d of package fmt.
use Prim.Native.Char.{Char, code}
use Prim.Native.String
use Prim.Native.String.{char_at}
use Prim.Native.String.append
use mathlib.Core.Path.{◌≡◌, refl, ◌∙◌, ap}
use mathlib.Core.Logic.{◌≢◌, inl, inr}
use mathlib.Core.Bool.{Bool, false, ◌&&◌}
use mathlib.Core.Option.{Option, none, some}
use Prim.Native.Nat.{ℕ, zero, suc, ◌+◌, ◌-◌, ◌*◌, ◌/◌, ◌%◌, ◌^◌, ◌<◌}
use native.Mathlib.Omega.{arith}
use go_url_shortener.Base.Tests.{ltb, leb, ◌==◌ as nat_eq, if◌then◌else◌, Bool-cases}
use go_url_shortener.Base.Int.{ℤ, pos, negsuc}
use go_url_shortener.Base.Text.{String, trim_space, is_space, trim_space-ne-nil}

abbrev is_digit : Char → Bool
is_digit c = leb b'0' (code c) && leb (code c) b'9'

-- The digits of a text, from the left, onto a number.
unfoldable pub parse_digits : ℕ → String → Option ℕ
parse_digits n String.[] = some n
parse_digits n (String.◌∷◌ c s) =
    let rest = parse_digits (n * 10 + (code c - b'0')) s in if is_digit c then rest else none

unfoldable pub parse_number : String → Option ℕ
unfolding parse_digits
parse_number String.[] = none
parse_number (String.◌∷◌ c s) = parse_digits 0 (String.◌∷◌ c s)

abbrev in_range_pos : Option ℕ → Option ℤ
in_range_pos none = none
in_range_pos (some n) = if ltb n (2 ^ 63) then some (pos n) else none

abbrev negate : ℕ → ℤ
negate zero = pos zero
negate (suc n) = negsuc n

abbrev in_range_neg : Option ℕ → Option ℤ
in_range_neg none = none
in_range_neg (some n) = if leb n (2 ^ 63) then some (negate n) else none

-- strconv.ParseInt(s, 10, 64): an optional sign, digits, and the range of int64
unfoldable pub parse_int : String → Option ℤ
unfolding parse_number
parse_int String.[] = none
parse_int (String.◌∷◌ c s) =
    if nat_eq (code c) b'+'
    then in_range_pos (parse_number s)
    else if nat_eq (code c) b'-'
    then in_range_neg (parse_number s)
    else in_range_pos (parse_number (String.◌∷◌ c s))

abbrev pub digit : ℕ → Char
digit n = char_at "0123456789" (n % 10)

-- The decimal digits of a number in front of a text; the fuel is to be greater than the number.
show_onto : ℕ → ℕ → String → String
show_onto zero n s = s
show_onto (suc fuel) n s =
    let front = show_onto fuel (n / 10) (String.◌∷◌ (digit n) s) in
    if ltb n 10 then String.◌∷◌ (digit n) s else front

unfoldable pub show : ℕ → String
unfolding show_onto
show n = show_onto (suc n) n ""

-- fmt.Sprintf("%d", id)
unfoldable pub show_int : ℤ → String
unfolding show
show_int (pos n) = show n
show_int (negsuc n) = String.◌++◌ "-" (show (suc n))

digit_table : (n : ℕ) → n < 10 → code (char_at "0123456789" n) ≡ 48 + n
digit_table zero h = refl
digit_table (suc zero) h = refl
digit_table (suc (suc zero)) h = refl
digit_table (suc (suc (suc zero))) h = refl
digit_table (suc (suc (suc (suc zero)))) h = refl
digit_table (suc (suc (suc (suc (suc zero))))) h = refl
digit_table (suc (suc (suc (suc (suc (suc zero)))))) h = refl
digit_table (suc (suc (suc (suc (suc (suc (suc zero))))))) h = refl
digit_table (suc (suc (suc (suc (suc (suc (suc (suc zero)))))))) h = refl
digit_table (suc (suc (suc (suc (suc (suc (suc (suc (suc zero))))))))) h = refl
digit_table (suc (suc (suc (suc (suc (suc (suc (suc (suc (suc n)))))))))) h = absurd (omega arith)

code-digit : (n : ℕ) → code (digit n) ≡ 48 + n % 10
code-digit n = digit_table (n % 10) (omega arith)

parse_digits-digit :
    (acc n : ℕ) (s : String)
    → parse_digits acc (String.◌∷◌ (digit n) s) ≡ parse_digits (acc * 10 + n % 10) s
unfolding parse_digits
parse_digits-digit acc n s = ground (arith, code-digit n)

parse_digits-show_onto :
    (fuel n : ℕ) (s : String) → n < fuel → parse_digits 0 (show_onto fuel n s) ≡ parse_digits n s
unfolding show_onto
parse_digits-show_onto zero n s h = absurd (omega arith)
parse_digits-show_onto (suc fuel) n s h = elim (Bool-cases (ltb n 10)) [
  | inl small ↦
      let same : 0 * 10 + n % 10 ≡ n = ground arith in
      rw small (parse_digits-digit 0 n s ∙ ap (λ k. parse_digits k s) same)
  | inr large ↦
      let split : n / 10 * 10 + n % 10 ≡ n = omega arith in
      rw large (
        parse_digits-show_onto fuel (n / 10) (String.◌∷◌ (digit n) s) (ground arith)
        ∙ parse_digits-digit (n / 10) n s
        ∙ ap (λ k. parse_digits k s) split)
]

-- The text begins with a digit.
show_onto-head :
    (fuel n : ℕ) (s : String)
    → n < fuel
    → (d : ℕ) × (t : String) × (show_onto fuel n s ≡ String.◌∷◌ (digit d) t)
unfolding show_onto
show_onto-head zero n s h = absurd (omega arith)
show_onto-head (suc fuel) n s h = elim (Bool-cases (ltb n 10)) [
  | inl small ↦ (n, s, rw small refl)
  | inr large ↦
      let (d, t, e) = show_onto-head fuel (n / 10) (String.◌∷◌ (digit n) s) (ground arith) in
      (d, t, rw large e)
]

parse_number-digit :
    (s t : String) (d : ℕ) → s ≡ String.◌∷◌ (digit d) t → parse_number s ≡ parse_digits 0 s
unfolding parse_number
parse_number-digit s t d e = rw e refl

parse_number-show : (n : ℕ) → parse_number (show n) ≡ some n
unfolding show
parse_number-show n =
    let (d, t, e) = show_onto-head (suc n) n "" (omega arith) in
    parse_number-digit (show_onto (suc n) n "") t d e
    ∙ parse_digits-show_onto (suc n) n "" (omega arith)
    ∙ unfold parse_digits in refl

-- Not a sign.
digit_unsigned :
    (n : ℕ) → (nat_eq (code (digit n)) b'+' ≡ false) × (nat_eq (code (digit n)) b'-' ≡ false)
digit_unsigned n = ground (arith, code-digit n)

parse_int-digit :
    (d : ℕ) (t : String)
    → parse_int (String.◌∷◌ (digit d) t) ≡ in_range_pos (parse_number (String.◌∷◌ (digit d) t))
unfolding parse_int
parse_int-digit d t = rw ((digit_unsigned d).0, (digit_unsigned d).1) refl

parse_int-show : (n : ℕ) → n < 2 ^ 63 → parse_int (show n) ≡ some (pos n)
unfolding show
parse_int-show n small =
    let (d, t, e) = show_onto-head (suc n) n "" (omega arith) in
    let number : parse_number (String.◌∷◌ (digit d) t) ≡ some n = rw (← e) (parse_number-show n) in
    rw e (parse_int-digit d t ∙ rw number (ground arith))

-- A text with a minus sign.
parse_int-minus : (s : String) → parse_int (String.◌++◌ "-" s) ≡ in_range_neg (parse_number s)
unfolding parse_int
parse_int-minus s = rw (append.cons, append.nil) refl

-- The integer is an int64.
abbrev pub FitsInt64 : ℤ → Type 0
FitsInt64 (pos n) = n < 2 ^ 63
FitsInt64 (negsuc n) = n < 2 ^ 63

-- What %d prints of an int64 strconv.ParseInt reads back.
pub parse_int-show_int : (z : ℤ) → FitsInt64 z → parse_int (show_int z) ≡ some z
unfolding show_int
parse_int-show_int (pos n) small = parse_int-show n small
parse_int-show_int (negsuc n) small =
    parse_int-minus (show (suc n)) ∙ rw (parse_number-show (suc n)) (ground arith)

-- A number that is printed is not blank.
pub trim_space-show : (n : ℕ) → trim_space (show_int (pos n)) ≢ ""
unfolding show_int show is_space
trim_space-show n e =
    let (d, t, front) = show_onto-head (suc n) n "" (omega arith) in
    trim_space-ne-nil (digit d) t (ground (arith, code-digit d)) (rw front at e)
