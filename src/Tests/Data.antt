-- ===== src/Tests/Data.antt =====
-- Sample rows, databases and parameters for the examples.
use Prim.Native.Char.{Char}
use go_url_shortener.Base.{
  ℕ, ◌+◌, ◌≤◌, ◌<◌, ◌≡◌, ◌≢◌, ◌⊎◌, Bool, true, false, Option, none, some, [], ◌∷◌, ltb,
  if◌then◌else◌, arith, ◌&&◌, not, ap, refl, subst, inl, inr, Bool-cases, ◌==◌ as nat_eq,
}
use go_url_shortener.Base.Int.{ℤ, pos}
use go_url_shortener.Base.Text.{String, ◌==◌, eq_iff}
use go_url_shortener.Model.{Url, User, RefreshToken, ClickEvent}
use go_url_shortener.Outcome.{ok, ok_inj}
use go_url_shortener.Repository.Keys.{JsonText}
use go_url_shortener.Db.{Db, empty_db}
use go_url_shortener.Cache.{Redis, Json, Settings}
use go_url_shortener.Service.Validate.{ParsedUrl, v4, Net}
use go_url_shortener.Service.Urls.{Host}
use go_url_shortener.Service.Cached.{Site}

abbrev pub row_of : String → Url
row_of code = record {
  id = pos 1;
  short_code = code;
  custom_alias = none;
  original_url = "https://go.dev";
  user_id = some (pos 1);
  created_at = 10;
  expires_at = none;
  is_active = true;
}

abbrev pub alice : User
alice = record {
  id = pos 1;
  email = "alice@example.com";
  password_hash = "hash";
  role = "user";
  created_at = 5;
}

abbrev pub token_of : ℕ → String → RefreshToken
token_of id hash = record {
  id = pos id;
  user_id = pos 1;
  token_hash = hash;
  expires_at = 9000;
  revoked_at = none;
  created_at = 20;
}

abbrev pub click : ClickEvent
click = record {
  id = pos 0;
  event_key = "k1";
  url_id = pos 1;
  clicked_at = 900;
  user_agent = "curl";
  referrer = "";
  device_category = "Other";
}

-- One user with one URL and one refresh token.
abbrev pub sample_db : Db
sample_db = record empty_db {
  now = 1000;
  urls = row_of "abc" ∷ [];
  next_url = 2;
  users = alice ∷ [];
  next_user = 2;
  tokens = token_of 1 "first" ∷ [];
  next_token = 2;
}

abbrev pub sample_host : Host
sample_host = record { db = sample_db; entropy = 250 ∷ 1 ∷ 63 ∷ 10 ∷ 3 ∷ 4 ∷ 5 ∷ [] }

abbrev pub go_dev : ParsedUrl
go_dev = record { scheme = "https"; host = "go.dev"; has_user = false; hostname = "go.dev" }

abbrev pub sample_net : Net
sample_net = record {
  parse_request_uri = λ s. if s == "https://go.dev" then some go_dev else none;
  parse_ip = λ s. if s == "10.0.0.1" then some (v4 10 0 0 1) else none;
  lower = λ (c : Char). c;
}

-- A Redis server that evicts nothing.
abbrev Store : Type 0
Store = String → Option (String × ℕ)

abbrev visible : ℕ → Option (String × ℕ) → Option String
visible t none = none
visible t (some (v, end)) = if ltb t end then some v else none

abbrev memory_get : ℕ → String → Store → Option String
memory_get t k s = visible t (s k)

abbrev memory_set : ℕ → String → String → ℕ → Store → Store
memory_set now k v ttl s j = if k == j then some (v, now + ttl) else s j

abbrev memory_del : ℕ → String → Store → Store
memory_del now k s j = if k == j then none else s j

pub memory_set_visible :
    (now t ttl : ℕ) (k j v w : String) (s : Store)
    → now ≤ t
    → memory_get t j (memory_set now k w ttl s) ≡ some v
    → (j ≡ k) × (v ≡ w) × (t < now + ttl) ⊎ (j ≢ k) × (memory_get t j s ≡ some v)
memory_set_visible now t ttl k j v w s le h = ground (arith, eq_iff k j)

pub memory_del_visible :
    (now t : ℕ) (k j v : String) (s : Store)
    → now ≤ t
    → memory_get t j (memory_del now k s) ≡ some v
    → (j ≢ k) × (memory_get t j s ≡ some v)
memory_del_visible now t k j v s le h = ground (arith, eq_iff k j)

abbrev pub memory : Redis
memory = record {
  Store = Store;
  get = memory_get;
  set = memory_set;
  del = memory_del;
  set_visible = memory_set_visible;
  del_visible = memory_del_visible;
}

-- An encoding of the rows that differ from the sample in the short code only, as that code.
abbrev encode : ℤ → String → Option String → String → Option ℤ → ℕ → Option ℕ → Bool → Option String
encode (pos id) code none link (some (pos user)) time none true =
    if nat_eq id 1 && link == "https://go.dev" && nat_eq user 1 && nat_eq time 10
    then some code
    else none
encode _ _ _ _ _ _ _ _ = none

abbrev marshal_row : Url → Option String
marshal_row u =
    encode u.id u.short_code u.custom_alias u.original_url u.user_id u.created_at u.expires_at
      u.is_active

abbrev unmarshal_row : String → Option Url
unmarshal_row code = some (row_of code)

pub marshal_row_back : (u : Url) (v : String) → marshal_row u ≡ some v → unmarshal_row v ≡ some u
marshal_row_back u v h = ground (arith, eq_iff u.original_url "https://go.dev")

abbrev pub row_json : Json
row_json = record {
  marshal = marshal_row;
  unmarshal = unmarshal_row;
  unmarshal-marshal = marshal_row_back;
}

abbrev pub sample_settings : Settings
sample_settings = record { has_client = true; ttl = 3_600_000_000_000 }

-- A site whose cache is empty.
abbrev pub cold_site : Site memory
cold_site = record { host = sample_host; cache = record { store = λ k. none; answers = [] } }

-- A column JSONB that prints one text with a blank, and the others as they are.
abbrev reprint : String → String
reprint s = if s == "{\"id\":2}" then "{\"id\": 2}" else s

pub reprint_again : (s : String) → reprint (reprint s) ≡ reprint s
reprint_again s = elim (Bool-cases (s == "{\"id\":2}")) [
  | inl changed ↦ rw changed refl
  | inr other ↦ rw (other, other) refl
]

abbrev pub sample_json : JsonText
sample_json = record {
  valid = λ s. not (s == "");
  jsonb = λ s. ok (reprint s);
  jsonb-empty = refl;
  jsonb_again = λ s t e. ap ok (subst (λ x. reprint x ≡ x) (ok_inj e) (reprint_again s));
}
