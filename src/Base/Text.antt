-- ===== src/Base/Text.antt =====
-- The functions of Go's package strings that the program calls, over texts of Unicode scalars.
-- A Go string that is not valid UTF-8 has no counterpart here. `len` counts bytes, as in Go.
use Prim.Native.Char.{Char, code}
use mathlib.Core.Bool.{Bool, true, false, ◌||◌, ◌&&◌}
use mathlib.Core.Path.{◌≡◌, refl}
use mathlib.Core.Logic.{◌≢◌, ◌⊎◌, inl, inr}
use go_url_shortener.Base.Tests.{leb, ◌==◌ as nat_eq, if◌then◌else◌, Bool-cases}
pub use Prim.Native.String.{String, len}
pub use text.Mathlib.Text.{◌==◌}
pub use text.Mathlib.TextEquality.{eq_iff}
pub use text.Mathlib.TextPositions.{eq_refl}

-- unicode.IsSpace
unfoldable pub is_space : Char → Bool
is_space c =
    leb 9 (code c) && leb (code c) 13
    || nat_eq (code c) 32
    || nat_eq (code c) 0x85
    || nat_eq (code c) 0xa0
    || nat_eq (code c) 0x1680
    || leb 0x2000 (code c) && leb (code c) 0x200a
    || nat_eq (code c) 0x2028
    || nat_eq (code c) 0x2029
    || nat_eq (code c) 0x202f
    || nat_eq (code c) 0x205f
    || nat_eq (code c) 0x3000

abbrev trim_left : String → String
trim_left String.[] = String.[]
trim_left (String.◌∷◌ c s) = if is_space c then trim_left s else String.◌∷◌ c s

-- A blank is dropped where nothing but blanks follows it.
abbrev pub push_trimmed : Char → String → String
push_trimmed c String.[] = if is_space c then String.[] else String.◌∷◌ c String.[]
push_trimmed c (String.◌∷◌ d s) = String.◌∷◌ c (String.◌∷◌ d s)

abbrev pub trim_right : String → String
trim_right String.[] = String.[]
trim_right (String.◌∷◌ c s) = push_trimmed c (trim_right s)

-- strings.TrimSpace
unfoldable pub trim_space : String → String
unfolding is_space
trim_space s = trim_right (trim_left s)

push_trimmed-ne-nil : (c : Char) (s : String) → is_space c ≡ false → push_trimmed c s ≢ ""
push_trimmed-ne-nil c String.[] h e = let single : String.◌∷◌ c String.[] ≡ "" = rw h at e in cc
push_trimmed-ne-nil c (String.◌∷◌ d s) h e = cc

-- A text that begins with a character that is no blank is not blank.
pub trim_space-ne-nil :
    (c : Char) (s : String) → is_space c ≡ false → trim_space (String.◌∷◌ c s) ≢ ""
unfolding trim_space
trim_space-ne-nil c s h e = push_trimmed-ne-nil c (trim_right s) h (rw h at e)

push_trimmed_head :
    (c : Char) (s : String)
    → is_space c ≡ false
    → (t : String) × (push_trimmed c s ≡ String.◌∷◌ c t)
push_trimmed_head c String.[] h = (String.[], rw h refl)
push_trimmed_head c (String.◌∷◌ d s) h = (String.◌∷◌ d s, refl)

-- A trimmed text is empty or begins with a character that is no blank.
pub trim_space_cases :
    (s : String)
    → (trim_space s ≡ "")
      ⊎ ((c : Char) × (t : String) × (trim_space s ≡ String.◌∷◌ c t) × (is_space c ≡ false))
unfolding trim_space
trim_space_cases String.[] = inl refl
trim_space_cases (String.◌∷◌ c s) = elim (Bool-cases (is_space c)) [
  | inl blank ↦ rw blank (trim_space_cases s)
  | inr visible ↦
      let (t, e) = push_trimmed_head c (trim_right s) visible in inr (c, t, rw visible e, visible)
]

-- strings.TrimPrefix
unfoldable pub strip_prefix : String → String → String → String
strip_prefix whole String.[] s = s
strip_prefix whole (String.◌∷◌ c p) String.[] = whole
strip_prefix whole (String.◌∷◌ c p) (String.◌∷◌ d s) =
    if nat_eq (code c) (code d) then strip_prefix whole p s else whole

unfoldable pub trim_prefix : String → String → String
unfolding strip_prefix
trim_prefix s p = strip_prefix s p s

-- strings.HasPrefix
unfoldable pub has_prefix : String → String → Bool
has_prefix s String.[] = true
has_prefix String.[] (String.◌∷◌ c p) = false
has_prefix (String.◌∷◌ d s) (String.◌∷◌ c p) = nat_eq (code c) (code d) && has_prefix s p

-- strings.HasSuffix
unfoldable pub has_suffix : String → String → Bool
has_suffix String.[] t = String.[] == t
has_suffix (String.◌∷◌ c s) t = String.◌∷◌ c s == t || has_suffix s t

-- strings.TrimSuffix
unfoldable pub trim_suffix : String → String → String
trim_suffix String.[] t = String.[]
trim_suffix (String.◌∷◌ c s) t =
    if String.◌∷◌ c s == t then String.[] else String.◌∷◌ c (trim_suffix s t)

-- strings.TrimRight with a cutset of one character
unfoldable pub trim_right_char : Char → String → String
trim_right_char c String.[] = String.[]
trim_right_char c (String.◌∷◌ d s) = drop_last (trim_right_char c s)
  where
    drop_last : String → String
    drop_last String.[] = if nat_eq (code d) (code c) then String.[] else String.◌∷◌ d String.[]
    drop_last (String.◌∷◌ e r) = String.◌∷◌ d (String.◌∷◌ e r)

-- strings.ToLower, by a map on characters
unfoldable pub to_lower : (Char → Char) → String → String
to_lower lower String.[] = String.[]
to_lower lower (String.◌∷◌ c s) = String.◌∷◌ (lower c) (to_lower lower s)

-- Whether every character passes a test.
unfoldable pub all_chars : (Char → Bool) → String → Bool
all_chars p String.[] = true
all_chars p (String.◌∷◌ c s) = p c && all_chars p s

unfoldable pub some_char : (Char → Bool) → String → Bool
some_char p String.[] = false
some_char p (String.◌∷◌ c s) = p c || some_char p s

trim_space_test : trim_space " \t a b\n" ≡ "a b"
unfolding trim_space
trim_space_test = refl

trim_prefix_test : trim_prefix "/api/v1/urls/12" "/api/v1/urls/" ≡ "12"
unfolding trim_prefix
trim_prefix_test = refl
