-- ===== src/Auth/Password/Policy.antt =====
-- validatePassword of auth/password.go against a description of the passwords it is to accept.

use go_url_shortener.Base.{◌≤◌, ◌≡◌, ◌≢◌, ◌↔◌, true, false, not, ◌&&◌, ◌||◌, arith}
use go_url_shortener.Base.Text.{String, eq_iff, len, trim_space, some_char}
use go_url_shortener.Outcome.{ok}
use go_url_shortener.Auth.Password.{Letters, Seen, look, scan, validate_password}

-- A password of 8 to 72 bytes that is not blank, with a letter and with a number that is no letter.
pub record IsStrong (letters : Letters) (password : String) : Type 0 where
  pub visible : trim_space password ≢ ""
  pub long : 8 ≤ len password
  pub short : len password ≤ 72
  pub lettered : some_char letters.is_letter password ≡ true
  pub numbered : some_char (λ c. not (letters.is_letter c) && letters.is_number c) password ≡ true

module _ (letters : Letters) where
  scan-letter :
      (s : String) (seen : Seen)
      → (scan letters s seen).letter ≡ (seen.letter || some_char letters.is_letter s)
  unfolding scan look some_char
  scan-letter String.[] seen = ground arith
  scan-letter (String.◌∷◌ c s) seen = ground (arith, scan-letter s (look letters c seen))

  scan-number :
      (s : String) (seen : Seen)
      → (scan letters s seen).number
        ≡ (seen.number || some_char (λ c. not (letters.is_letter c) && letters.is_number c) s)
  unfolding scan look some_char
  scan-number String.[] seen = ground arith
  scan-number (String.◌∷◌ c s) seen = ground (arith, scan-number s (look letters c seen))

  -- validatePassword accepts exactly the passwords of 8 to 72 bytes that are not blank and have a
  -- letter and a number, where a character that is a letter does not count as a number.
  pub validate_password_iff :
      (password : String) → (validate_password letters password ≡ ok tt) ↔ IsStrong letters password
  unfolding validate_password
  validate_password_iff password =
      let seen : Seen = record { letter = false; number = false } in
      (
        λ h. record {
          visible = ground (arith, eq_iff (trim_space password) "");
          long = ground arith;
          short = ground arith;
          lettered = ground (arith, scan-letter password seen);
          numbered = ground (arith, scan-number password seen);
        },
        λ s. ground (
          arith,
          eq_iff (trim_space password) "",
          scan-letter password seen,
          scan-number password seen,
          s,
        ),
      )
