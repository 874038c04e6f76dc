-- ===== src/Auth/Password.antt =====
-- auth/password.go: validatePassword. unicode.IsLetter and unicode.IsNumber are parameters.
pub mod Policy
use Prim.Native.Char.{Char}
use Prim.Native.String
use go_url_shortener.Base.{Bool, true, false, not, ltb, if◌then◌else◌}
use go_url_shortener.Base.Text.{String, ◌==◌, len, trim_space}
use go_url_shortener.Outcome.{message, Result, ok, err}

pub record Letters : Type 0 where
  pub is_letter : Char → Bool
  pub is_number : Char → Bool

-- hasLetter and hasNumber
pub record Seen : Type 0 where
  pub letter : Bool
  pub number : Bool

module _ (letters : Letters) where
  -- one round of the loop: the switch takes the first case that holds
  unfoldable pub look : Char → Seen → Seen
  look c seen =
      if letters.is_letter c
      then record seen { letter = true }
      else if letters.is_number c
      then record seen { number = true }
      else seen

  unfoldable pub scan : String → Seen → Seen
  unfolding look
  scan String.[] seen = seen
  scan (String.◌∷◌ c s) seen = scan s (look c seen)

  unfoldable pub validate_password : String → Result (Unit {0})
  validate_password password =
      if trim_space password == ""
      then err (message "password is required")
      else if ltb (len password) 8
      then err (message "password must be at least 8 characters")
      else if ltb 72 (len password)
      then err (message "password must be at most 72 characters")
      else let seen = scan password (record { letter = false; number = false }) in
        if not seen.letter
        then err (message "password must contain at least one letter")
        else if not seen.number
        then err (message "password must contain at least one number")
        else ok tt
