-- ===== src/Tests/Service.antt =====
-- Examples for the package service.
use go_url_shortener.Base.{ℕ, ◌≡◌, ◌≢◌, ◌↔◌, refl, true, not, some, List, [], ◌∷◌, exists, arith}
use go_url_shortener.Base.Int.{pos, is_positive, id_eq}
use go_url_shortener.Base.Text.{String, trim_space, all_chars, to_lower, has_suffix}
use go_url_shortener.Model.{Url}
use go_url_shortener.Outcome.{ok, err, message}
use go_url_shortener.Repository.Urls.{create, insert_url, too_long, clashes, no_owner}
use go_url_shortener.Service.ShortCode.{symbol, fill_code, generate_short_code}
use go_url_shortener.Service.ShortCode.Laws.{generate_short_code_total}
use go_url_shortener.Service.ShortCode.Uniform.{
  count_bytes, returns, code_at, ways, generate_short_code_uniform,
}
use go_url_shortener.Service.Validate.{
  ParsedUrl, Ip, v6, is_public_ip, check_host, is_localhost, validate_url,
}
use go_url_shortener.Service.Validate.Reserved.{IsAddress, is_special, is_public_ip-is_special}
use go_url_shortener.Service.Validate.Accepted.{IsAccepted, validate_url_iff}
use go_url_shortener.Service.Urls.{
  Host, attempts, new_url, create_short_url, create_short_url_with_alias, is_alias_char,
  matches_alias, check_alias,
}
use go_url_shortener.Service.Urls.Created.{IsCreated, IsGenerated, create_short_url-IsGenerated}
use go_url_shortener.Service.Urls.Alias.{
  IsAlias, create_short_url_with_alias-IsCreated, alias_in_use,
}
use go_url_shortener.Tests.Data.{row_of, sample_db, sample_host, sample_net}

-- The byte 250 is passed over.
code_made : generate_short_code 6 sample_host.entropy ≡ (ok "11a345", [])
unfolding generate_short_code fill_code symbol
code_made = refl

generate_short_code_total_example :
    (s : String) × (rest : List ℕ) × (generate_short_code 6 sample_host.entropy ≡ (ok s, rest))
generate_short_code_total_example = generate_short_code_total 5 sample_host.entropy (omega arith)

generate_short_code_uniform_example :
    count_bytes 4 (λ bytes. returns (code_at (61 ∷ 0 ∷ 5 ∷ [])) (generate_short_code 3 bytes))
    ≡ ways 3 4
generate_short_code_uniform_example =
    generate_short_code_uniform 61 (0 ∷ 5 ∷ []) 4 (omega arith, (omega arith, (omega arith, tt)))

-- fe80::1
abbrev link_local : Ip
link_local = v6 (0xfe ∷ 0x80 ∷ 0 ∷ 0 ∷ 0 ∷ 0 ∷ 0 ∷ 0 ∷ 0 ∷ 0 ∷ 0 ∷ 0 ∷ 0 ∷ 0 ∷ 0 ∷ 1 ∷ [])

link_local-IsAddress : IsAddress link_local
unfolding IsAddress
link_local-IsAddress = (omega arith, omega arith)

is_public_ip-is_special_example : is_public_ip link_local ≡ not (is_special link_local)
is_public_ip-is_special_example = is_public_ip-is_special link_local link_local-IsAddress

validate_url_iff_example : (validate_url sample_net " https://go.dev " ≡ ok tt) ↔ (
    (trim_space " https://go.dev " ≢ "")
    × ((url : ParsedUrl) × (sample_net.parse_request_uri (trim_space " https://go.dev ") ≡ some url)
        × IsAccepted sample_net url))
validate_url_iff_example = validate_url_iff sample_net " https://go.dev "

abbrev generated_row : Url
generated_row = record (row_of "11a345") { id = pos 2; created_at = 1000 }

abbrev generated_host : Host
generated_host = record {
  db = record sample_db { urls = generated_row ∷ row_of "abc" ∷ []; next_url = 3 };
  entropy = [];
}

generated :
    create_short_url sample_net "https://go.dev" (pos 1) sample_host
    ≡ (ok generated_row, generated_host)
unfolding create_short_url validate_url check_host is_localhost attempts generate_short_code
    fill_code symbol create insert_url too_long clashes no_owner id_eq trim_space to_lower
    has_suffix
generated = refl

create_short_url-IsGenerated_example :
    (validate_url sample_net "https://go.dev" ≡ ok tt)
    × (is_positive (pos 1) ≡ true)
    × IsGenerated "https://go.dev" (pos 1) generated_row sample_host generated_host
create_short_url-IsGenerated_example =
    create_short_url-IsGenerated sample_net "https://go.dev" (pos 1) generated_row sample_host
      generated_host generated

abbrev named_row : Url
named_row = record generated_row { short_code = "my-go"; custom_alias = some "my-go" }

abbrev named_host : Host
named_host = record sample_host {
  db = record sample_db { urls = named_row ∷ row_of "abc" ∷ []; next_url = 3 };
}

named :
    create_short_url_with_alias sample_net "https://go.dev" " my-go " (pos 1) sample_host
    ≡ (ok named_row, named_host)
unfolding create_short_url_with_alias validate_url check_host is_localhost check_alias matches_alias
    all_chars is_alias_char create insert_url too_long clashes no_owner id_eq trim_space to_lower
    has_suffix
named = refl

create_short_url_with_alias-IsCreated_example :
    (validate_url sample_net "https://go.dev" ≡ ok tt)
    × (is_positive (pos 1) ≡ true)
    × IsAlias (trim_space " my-go ")
    × IsCreated "https://go.dev" (pos 1) named_row sample_host named_host
    × (named_row.short_code ≡ trim_space " my-go ")
    × (named_row.custom_alias ≡ some (trim_space " my-go "))
create_short_url_with_alias-IsCreated_example =
    create_short_url_with_alias-IsCreated sample_net "https://go.dev" " my-go " (pos 1) named_row
      sample_host named_host named

go_dev_valid : validate_url sample_net "https://go.dev" ≡ ok tt
unfolding validate_url check_host is_localhost trim_space to_lower has_suffix
go_dev_valid = refl

abc-IsAlias : IsAlias (trim_space "abc")
unfolding all_chars is_alias_char trim_space
abc-IsAlias = (omega arith, omega arith, refl)

abc_clashes :
    exists
      (clashes (new_url (trim_space "abc") (some (trim_space "abc")) "https://go.dev" (pos 1)))
      sample_host.db.urls
    ≡ true
unfolding clashes trim_space
abc_clashes = refl

alias_in_use_example :
    ((create_short_url_with_alias sample_net "https://go.dev" "abc" (pos 1) sample_host).0
      ≡ err (message "alias is already in use"))
    × ((create_short_url_with_alias sample_net "https://go.dev" "abc" (pos 1) sample_host).1.db.urls
        ≡ sample_host.db.urls)
alias_in_use_example =
    alias_in_use sample_net "https://go.dev" "abc" (pos 1) sample_host go_dev_valid refl abc-IsAlias
      refl abc_clashes
