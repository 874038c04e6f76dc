-- ===== src/Service/Validate/Accepted.antt =====
-- validateURL of service/url_service.go against a description of the destinations it is to accept.
use go_url_shortener.Base.{◌≡◌, ◌≢◌, refl, ◌↔◌, ◌⊎◌, true, false, Option, none, some, arith}
use go_url_shortener.Base.Text.{String, eq_iff, trim_space, to_lower, has_suffix}
use go_url_shortener.Outcome.{ok}
use go_url_shortener.Service.Validate.{
  ParsedUrl, Ip, Net, is_public_ip, is_internal, is_localhost, check_host, check_parsed,
  validate_url,
}

-- A host that is named, is no name of the local machine, and if it is an IP address is a public one.
pub record IsOutside (net : Net) (host : String) : Type 0 where
  pub named : host ≢ ""
  pub remote : host ≢ "localhost"
  pub remote_domain : has_suffix host ".localhost" ≡ false
  pub remote_alias : host ≢ "localhost.localdomain"
  pub public : (ip : Ip) → net.parse_ip host ≡ some ip → is_public_ip ip ≡ true

pub record IsAccepted (net : Net) (url : ParsedUrl) : Type 0 where
  pub web : (url.scheme ≡ "http") ⊎ (url.scheme ≡ "https")
  pub hosted : url.host ≢ ""
  pub anonymous : url.has_user ≡ false
  pub outside : IsOutside net (to_lower net.lower (trim_space url.hostname))

is_internal_iff :
    (o : Option Ip) → (is_internal o ≡ false) ↔ ((ip : Ip) → o ≡ some ip → is_public_ip ip ≡ true)
is_internal_iff none = (λ h ip e. absurd (grind arith), λ h. refl)
is_internal_iff (some ip) = (λ h ip' e. ground arith, λ h. ground (arith, h ip refl))

module _ (net : Net) where
  check_host-IsOutside : (host : String) → check_host net host ≡ ok tt → IsOutside net host
  unfolding check_host is_localhost
  check_host-IsOutside host h = record {
    named = ground (arith, eq_iff host "");
    remote = ground (arith, eq_iff host "", eq_iff host "localhost");
    remote_domain = ground arith;
    remote_alias = ground (arith, eq_iff host "localhost.localdomain");
    public = (is_internal_iff (net.parse_ip host)).0 (ground arith);
  }

  IsOutside-check_host : (host : String) → IsOutside net host → check_host net host ≡ ok tt
  unfolding check_host is_localhost
  IsOutside-check_host host o =
      let p : is_internal (net.parse_ip host) ≡ false =
        (is_internal_iff (net.parse_ip host)).1 o.public in
      ground (arith, eq_iff host "", eq_iff host "localhost", eq_iff host "localhost.localdomain")

  check_parsed-IsAccepted :
      (o : Option ParsedUrl)
      → check_parsed net o ≡ ok tt
      → (url : ParsedUrl) × (o ≡ some url) × IsAccepted net url
  check_parsed-IsAccepted none h = absurd (grind arith)
  check_parsed-IsAccepted (some url) h = (
    url,
    refl,
    record {
      web = ground (arith, eq_iff url.scheme "http", eq_iff url.scheme "https");
      hosted = ground (arith, eq_iff url.host "");
      anonymous = ground arith;
      outside = check_host-IsOutside (to_lower net.lower (trim_space url.hostname)) (ground arith);
    },
  )

  IsAccepted-check_parsed :
      (url : ParsedUrl) → IsAccepted net url → check_parsed net (some url) ≡ ok tt
  IsAccepted-check_parsed url a = ground (
    arith,
    a.web,
    eq_iff url.scheme "http",
    eq_iff url.scheme "https",
    eq_iff url.host "",
    IsOutside-check_host (to_lower net.lower (trim_space url.hostname)) a.outside,
  )

  -- validateURL accepts a destination exactly where its trimmed text is not empty and parses to a URL
  -- of scheme http or https with a host and no credentials, whose host name, trimmed and in lower
  -- case, is not empty, is no name of the local machine and, if it is an IP address, is a public one.
  pub validate_url_iff :
      (value : String)
      → (validate_url net value ≡ ok tt) ↔ (
          (trim_space value ≢ "")
          × ((url : ParsedUrl) × (net.parse_request_uri (trim_space value) ≡ some url)
              × IsAccepted net url))
  unfolding validate_url
  validate_url_iff value = (
    λ h. (
      ground (arith, eq_iff (trim_space value) ""),
      check_parsed-IsAccepted (net.parse_request_uri (trim_space value)) (ground arith),
    ),
    λ (named, (url, parsed, a)).
        ground (arith, eq_iff (trim_space value) "", IsAccepted-check_parsed url a),
  )
