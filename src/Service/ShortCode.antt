-- ===== src/Service/ShortCode.antt =====
-- generateShortCode of service/url_service.go over the bytes that crypto/rand delivers. A list
-- holds the bytes to come; a read past its end is the error of rand.Read.
pub mod Laws
pub mod Uniform
use Prim.Native.Char.{Char}
use Prim.Native.String.{char_at}
use go_url_shortener.Base.{ℕ, zero, suc, ◌%◌, List, [], ◌∷◌, leb, if◌then◌else◌}
use go_url_shortener.Base.Text.{String}
use go_url_shortener.Outcome.{message, driver, Result, ok, err, Action}

abbrev pub base62_alphabet : String
base62_alphabet = "0123456789abcdefghijklmnopqrstuvwxyzABCDEFGHIJKLMNOPQRSTUVWXYZ"

abbrev pub short_code_length : ℕ
short_code_length = 6

-- base62Alphabet[int(randomByte[0])%len(base62Alphabet)]
unfoldable pub symbol : ℕ → Char
symbol b = char_at base62_alphabet (b % 62)

abbrev pub prepend : Char → Result String × List ℕ → Result String × List ℕ
prepend c (ok s, rest) = (ok (String.◌∷◌ c s), rest)
prepend c (err e, rest) = (err e, rest)

-- the loop that fills `code`, with the number of places left
unfoldable pub fill_code : ℕ → Action (List ℕ) String
fill_code zero bytes = (ok String.[], bytes)
fill_code (suc n) [] = (err driver, [])
fill_code (suc n) (b ∷ bytes) =
    let skipped = fill_code (suc n) bytes in
    let taken = prepend (symbol b) (fill_code n bytes) in if leb 248 b then skipped else taken

unfoldable pub generate_short_code : ℕ → Action (List ℕ) String
generate_short_code zero bytes = (err (message "short code length must be positive"), bytes)
generate_short_code (suc n) bytes = fill_code (suc n) bytes
