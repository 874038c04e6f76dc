-- ===== src/Service/Validate.antt =====
-- validateURL and isPublicIP of service/url_service.go. The parsers of net/url and net, and the
-- lower case of a character, are parameters; a parsed IP address is given by what To4 makes of it.
pub mod Address
pub mod Reserved
pub mod Accepted
use Prim.Native.Char.{Char}
use go_url_shortener.Base.{
  ℕ, ◌/◌, ◌%◌, Bool, true, false, ◌&&◌, ◌||◌, not, Option, none, some, List, [], ◌∷◌, if◌then◌else◌,
  ◌==◌ as nat_eq,
}
use go_url_shortener.Base.Text.{String, ◌==◌, trim_space, to_lower, has_suffix}
use go_url_shortener.Outcome.{message, Result, ok, err}

-- The fields of a *url.URL that validateURL reads: Scheme, Host, User != nil, Hostname().
pub record ParsedUrl : Type 0 where
  pub scheme : String
  pub host : String
  pub has_user : Bool
  pub hostname : String

-- A net.IP: the four bytes that To4 gives, or the sixteen bytes of an address for which it is nil.
pub data Ip : Type 0 where
  v4 : ℕ → ℕ → ℕ → ℕ → Ip
  v6 : List ℕ → Ip

pub record Net : Type 0 where
  pub parse_request_uri : String → Option ParsedUrl
  pub parse_ip : String → Option Ip
  pub lower : Char → Char

-- ip[i], for an address of sixteen bytes
abbrev pub byte : List ℕ → ℕ → ℕ
byte [] i = 0
byte (b ∷ bs) ℕ.zero = b
byte (b ∷ bs) (ℕ.suc i) = byte bs i

abbrev pub all_zero : List ℕ → Bool
all_zero [] = true
all_zero (b ∷ bs) = nat_eq b 0 && all_zero bs

-- net.IPv6loopback
abbrev pub is_v6_loopback : List ℕ → Bool
is_v6_loopback [] = false
is_v6_loopback (b ∷ []) = nat_eq b 1
is_v6_loopback (b ∷ c ∷ bs) = nat_eq b 0 && is_v6_loopback (c ∷ bs)

abbrev is_loopback : Ip → Bool
is_loopback (v4 a b c d) = nat_eq a 127
is_loopback (v6 bs) = is_v6_loopback bs

-- A mask that keeps high bits is a division: x&0xf0 == 16 is x / 16 == 1.
abbrev is_private : Ip → Bool
is_private (v4 a b c d) =
    nat_eq a 10 || nat_eq a 172 && nat_eq (b / 16) 1 || nat_eq a 192 && nat_eq b 168
is_private (v6 bs) = nat_eq (byte bs 0 / 2) 126

abbrev is_link_local_unicast : Ip → Bool
is_link_local_unicast (v4 a b c d) = nat_eq a 169 && nat_eq b 254
is_link_local_unicast (v6 bs) = nat_eq (byte bs 0) 254 && nat_eq (byte bs 1 / 64) 2

abbrev is_link_local_multicast : Ip → Bool
is_link_local_multicast (v4 a b c d) = nat_eq a 224 && nat_eq b 0 && nat_eq c 0
is_link_local_multicast (v6 bs) = nat_eq (byte bs 0) 255 && nat_eq (byte bs 1 % 16) 2

abbrev is_multicast : Ip → Bool
is_multicast (v4 a b c d) = nat_eq (a / 16) 14
is_multicast (v6 bs) = nat_eq (byte bs 0) 255

abbrev is_unspecified : Ip → Bool
is_unspecified (v4 a b c d) = nat_eq a 0 && nat_eq b 0 && nat_eq c 0 && nat_eq d 0
is_unspecified (v6 bs) = all_zero bs

-- the limited broadcast address
abbrev is_broadcast : Ip → Bool
is_broadcast (v4 a b c d) = nat_eq a 255 && nat_eq b 255 && nat_eq c 255 && nat_eq d 255
is_broadcast (v6 bs) = false

unfoldable pub is_public_ip : Ip → Bool
is_public_ip ip =
    if is_loopback ip
    then false
    else if is_private ip
    then false
    else if is_link_local_unicast ip
    then false
    else if is_link_local_multicast ip
    then false
    else if is_multicast ip
    then false
    else if is_unspecified ip
    then false
    else if is_broadcast ip
    then false
    else true

-- `ip := net.ParseIP(host); ip != nil` and then `!isPublicIP(ip)`; the source makes this test twice
abbrev pub is_internal : Option Ip → Bool
is_internal none = false
is_internal (some ip) = not (is_public_ip ip)

unfoldable pub is_localhost : String → Bool
is_localhost host =
    host == "localhost" || has_suffix host ".localhost" || host == "localhost.localdomain"

module _ (net : Net) where
  unfoldable pub check_host : String → Result (Unit {0})
  check_host host =
      if host == ""
      then err (message "URL host is required")
      else if is_localhost host
      then err (message "URL host must not be localhost")
      else if is_internal (net.parse_ip host)
      then err (message "URL host must be a public IP address")
      else if is_internal (net.parse_ip host)
      then err (message "URL host must be a public IP address")
      else ok tt

  abbrev check_parsed : Option ParsedUrl → Result (Unit {0})
  check_parsed none = err (message "invalid URL")
  check_parsed (some url) =
      if not (url.scheme == "http") && not (url.scheme == "https")
      then err (message "URL must use http or https")
      else if url.host == ""
      then err (message "URL host is required")
      else if url.has_user
      then err (message "URL credentials are not allowed")
      else check_host (to_lower net.lower (trim_space url.hostname))

  unfoldable pub validate_url : String → Result (Unit {0})
  unfolding check_host
  validate_url value =
      let trimmed = trim_space value in
      if trimmed == ""
      then err (message "URL is required")
      else check_parsed (net.parse_request_uri trimmed)
