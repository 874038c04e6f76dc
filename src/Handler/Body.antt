-- ===== src/Handler/Body.antt =====
-- decodeJSONBody of handler/json.go, over a json.Decoder that refuses unknown fields and reads at most
-- 1 MiB.
use Prim.Native.String
use go_url_shortener.Base.{Option, none, some}
use go_url_shortener.Base.Text.{String}
use go_url_shortener.Outcome.{Error, message, Result, ok, err}

-- What a call of Decode returns: a value, io.EOF, a *json.SyntaxError, a *json.UnmarshalTypeError with
-- its field, or another error.
pub data Decoded (A : Type 0) : Type 0 where
  value : A → Decoded A
  eof : Decoded A
  syntax_error : Decoded A
  type_error : String → Decoded A
  failed : Error → Decoded A

-- The decoder: Decode into a request, with the rest of the body, and Decode into an interface.
pub record Decoder (A : Type 0) : Type 0 where
  pub decode : String → Decoded A × String
  pub decode_any : String → Decoded (Unit {0})

-- the check that nothing follows
abbrev pub sole : {A : Type 0} → A → Decoded (Unit {0}) → Result A
sole a eof = ok a
sole a (value _) = err (message "request body must contain exactly one JSON object")
sole a _ = err (message "invalid JSON")

abbrev pub first_value :
    {A : Type 0} → (String → Decoded (Unit {0})) → Decoded A × String → Result A
first_value next (value a, rest) = sole a (next rest)
first_value next (eof, rest) = err (message "request body is required")
first_value next (syntax_error, rest) = err (message "invalid JSON")
first_value next (type_error field, rest) =
    err (message (String.◌++◌ "invalid value for field " field))
first_value next (failed e, rest) = err e

-- A body of none is a nil r.Body.
unfoldable pub decode_json_body : {A : Type 0} → Decoder A → Option String → Result A
decode_json_body decoder none = err (message "request body is required")
decode_json_body decoder (some body) = first_value decoder.decode_any (decoder.decode body)
