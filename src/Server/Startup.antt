-- ===== src/Server/Startup.antt =====
-- How main.go starts, with NewPostgres of database/postgres.go and NewAuthMiddleware of
-- auth/auth_middleware.go. The environment, the connections and the embedded files are parameters.
use Prim.Native.String
use go_url_shortener.Base.{
  ◌≡◌, ◌≢◌, refl, sym, ap, ◌∙◌, false, Bool-cases, inl, inr, arith, if◌then◌else◌,
}
use go_url_shortener.Base.Text.{
  String, ◌==◌, eq_iff, trim_space, trim_space_cases, trim_space-ne-nil,
}
use go_url_shortener.Outcome.{Error, message, wrapped, Result, ok, err}
use go_url_shortener.Cache.Config.{Options, Client, new_redis_cache}
use go_url_shortener.Auth.Service.{new_secret}

-- What answers the program while it starts.
pub record Outside : Type 0 where
  pub getenv : String → String
  pub parse_url : String → Result Options
  -- sql.Open and Ping at a data source
  pub open_db : String → Result (Unit {0})
  pub ping_db : String → Result (Unit {0})
  -- Ping of a Redis client
  pub redis_ping : Client → Result (Unit {0})
  -- fs.Sub of the embedded files
  pub dashboard : Result (Unit {0})

-- What the server runs with.
pub record Running : Type 0 where
  pub data_source : String
  pub secret : String
  pub redis : Client
  pub address : String

-- What a failed start prints, and the error behind it.
pub record Failure : Type 0 where
  pub text : String
  pub cause : Error

pub data Start : Type 0 where
  running : Running → Start
  stopped : Failure → Start

abbrev stop : String → Error → Start
stop text e = stopped (record { text = text; cause = e })

-- `if err != nil { fmt.Println(text, err); return }`
abbrev pub proceed : {A : Type 0} → String → Result A → (A → Start) → Start
proceed text (err e) next = stop text e
proceed text (ok a) next = next a

abbrev pinged : String → Result (Unit {0}) → Result String
pinged dsn (err e) = err (wrapped "ping database" e)
pinged dsn (ok _) = ok dsn

abbrev opened : Outside → String → Result (Unit {0}) → Result String
opened outside dsn (err e) = err (wrapped "open database" e)
opened outside dsn (ok _) = pinged dsn (outside.ping_db dsn)

-- NewPostgres, of its data source
unfoldable pub new_postgres : Outside → Result String
new_postgres outside =
    let dsn = outside.getenv "GOSHORT_DATABASE_URL" in
    if dsn == ""
    then err (message "GOSHORT_DATABASE_URL is not set")
    else opened outside dsn (outside.open_db dsn)

-- NewAuthMiddleware, of its secret
unfoldable pub new_auth_middleware : String → Result String
new_auth_middleware secret =
    if trim_space secret == "" then err (message "JWT secret is required") else ok secret

-- ":" and the port, 9000 where none is set
unfoldable pub address : (String → String) → String
address getenv =
    let port = trim_space (getenv "PORT") in String.◌++◌ ":" (if port == "" then "9000" else port)

-- the steps of main up to the server, with the secret that is set
abbrev pub start_with : Outside → String → String → Start
start_with outside dsn secret =
    proceed "Redis configuration error:" (new_redis_cache outside.getenv outside.parse_url)
      λ client. proceed "Redis connection error:" (outside.redis_ping client) λ _.
        proceed "Authentication service error:" (new_secret secret) λ _.
          proceed "Authentication middleware error:" (new_auth_middleware secret) λ _.
            proceed "Dashboard setup error:" outside.dashboard λ _. running (record {
              data_source = dsn;
              secret = secret;
              redis = client;
              address = address outside.getenv;
            })

unfoldable pub start : Outside → Start
start outside = proceed "Database connection error:" (new_postgres outside) λ dsn.
    let secret = trim_space (outside.getenv "GOSHORT_JWT_SECRET") in
    if secret == ""
    then stop "Configuration error:" (message "GOSHORT_JWT_SECRET is not set")
    else start_with outside dsn secret

-- Trimming a text again leaves no less of it.
trim_space_again : (s : String) → trim_space s ≢ "" → (trim_space (trim_space s) == "") ≡ false
trim_space_again s given = elim (Bool-cases (trim_space (trim_space s) == "")) [
  | inr left ↦ left
  | inl blank ↦ elim (trim_space_cases s) [
    | inl nothing ↦ absurd (given nothing)
    | inr (c, t, e, visible) ↦ absurd (
        trim_space-ne-nil c t visible
          (ap trim_space (sym e) ∙ (eq_iff (trim_space (trim_space s)) "").0 blank))
  ]
]

-- With a secret that is not blank, a database and a Redis server that can be reached and the embedded
-- files in place, the server runs; the two constructors that check the secret again accept it.
pub start-running :
    (outside : Outside) (dsn : String) (client : Client)
    → new_postgres outside ≡ ok dsn
    → trim_space (outside.getenv "GOSHORT_JWT_SECRET") ≢ ""
    → new_redis_cache outside.getenv outside.parse_url ≡ ok client
    → outside.redis_ping client ≡ ok tt
    → outside.dashboard ≡ ok tt
    → start outside
      ≡ running (record {
        data_source = dsn;
        secret = trim_space (outside.getenv "GOSHORT_JWT_SECRET");
        redis = client;
        address = address outside.getenv;
      })
unfolding start new_secret new_auth_middleware
start-running outside dsn client postgres given redis reached files =
    let secret = outside.getenv "GOSHORT_JWT_SECRET" in
    let set : (trim_space secret == "") ≡ false =
      ground (arith, given, eq_iff (trim_space secret) "") in
    let again = trim_space_again secret given in
    rw (postgres, set, redis, reached, again, files) refl
