-- ===== src/Auth/Service/Ended.antt =====
-- Histories of auth/auth_service.go, and the hashes of refresh tokens in them.
use go_url_shortener.Base.{
  ℕ, ◌+◌, ◌≡◌, refl, ap, ◌∙◌, false, none, List, [], ◌∷◌, exists, find, arith,
}
use go_url_shortener.Base.Text.{String}
use go_url_shortener.Model.{User, RefreshToken}
use go_url_shortener.Db.{Db, Reply, exec_keeps}
use go_url_shortener.Repository.Users
use go_url_shortener.Repository.Users.{insert_user}
use go_url_shortener.Repository.Tokens.{is_active}
use go_url_shortener.Repository.Tokens.Hashes.{
  has_hash, is_usable, IsRetired, create-IsRetired, revoke-IsRetired, rotate-IsRetired,
}
use go_url_shortener.Service.Urls.{Host}
use go_url_shortener.Auth.Service.{AuthService, register, login, refresh, logout}
use go_url_shortener.Auth.Service.Keeps.{register_keeps, login_keeps, refresh_keeps, logout_keeps}

-- The calls of the service by any users, time passing, the answers of the database and the random
-- bytes that come.
pub data Call : Type 0 where
  registers : String → String → Call
  logs_in : String → String → Call
  refreshes : String → Call
  logs_out : String → Call
  waits : ℕ → Call
  answers : List Reply → Call
  draws : List ℕ → Call

module _ (auth : AuthService) where
  unfoldable pub step : Host → Call → Host
  step h (registers email password) = (register auth email password h).1
  step h (logs_in email password) = (login auth email password h).1
  step h (refreshes raw) = (refresh auth raw h).1
  step h (logs_out raw) = (logout auth raw h).1
  step h (waits n) = record h { db = record h.db { now = h.db.now + n } }
  step h (answers rs) = record h { db = record h.db { replies = rs } }
  step h (draws bytes) = record h { entropy = bytes }

  unfoldable pub run : Host → List Call → Host
  run h [] = h
  run h (c ∷ cs) = run (step h c) cs

insert_user-tokens : (user : User) (d : Db) → (insert_user user d).1.tokens ≡ d.tokens
unfolding insert_user
insert_user-tokens user d = ground arith

module _ (hash : String) where
  with_tokens : (d e : Db) → e.tokens ≡ d.tokens → IsRetired hash d → IsRetired hash e
  with_tokens d e same r = record {
    stored = ap (exists (has_hash hash)) same ∙ r.stored;
    dead = ap (exists (is_usable hash)) same ∙ r.dead;
  }

  users-IsRetired :
      (user : User) (d : Db) → IsRetired hash d → IsRetired hash (Users.create user d).1
  unfolding Users.create
  users-IsRetired user =
      exec_keeps (insert_user user) (IsRetired hash) (λ d rs r. with_tokens d _ refl r)
        (λ d r. with_tokens d (insert_user user d).1 (insert_user-tokens user d) r)

  module _ (auth : AuthService) where
    abbrev Q : Host → Type 0
    Q h = IsRetired hash h.db

    blind :
        (d : Db) (rs : List Reply) → IsRetired hash d → IsRetired hash (record d { replies = rs })
    blind d rs = with_tokens d (record d { replies = rs }) refl

    step-IsRetired : (h : Host) (c : Call) → Q h → Q (step auth h c)
    unfolding step
    step-IsRetired h (registers email password) r =
        register_keeps auth (IsRetired hash) blind users-IsRetired (create-IsRetired hash)
          (revoke-IsRetired hash) (rotate-IsRetired hash) email password h r
    step-IsRetired h (logs_in email password) r =
        login_keeps auth (IsRetired hash) blind users-IsRetired (create-IsRetired hash)
          (revoke-IsRetired hash) (rotate-IsRetired hash) email password h r
    step-IsRetired h (refreshes raw) r =
        refresh_keeps auth (IsRetired hash) blind users-IsRetired (create-IsRetired hash)
          (revoke-IsRetired hash) (rotate-IsRetired hash) raw h r
    step-IsRetired h (logs_out raw) r =
        logout_keeps auth (IsRetired hash) blind users-IsRetired (create-IsRetired hash)
          (revoke-IsRetired hash) (rotate-IsRetired hash) raw h r
    step-IsRetired h (waits n) r = with_tokens h.db _ refl r
    step-IsRetired h (answers rs) r = blind h.db rs r
    step-IsRetired h (draws bytes) r = r

    pub run-IsRetired : (h : Host) (cs : List Call) → Q h → Q (run auth h cs)
    unfolding run
    run-IsRetired h [] q = q
    run-IsRetired h (c ∷ cs) q = run-IsRetired (step auth h c) cs (step-IsRetired h c q)

  -- No active row has a hash that is used up.
  pub inactive :
      (now : ℕ) (rows : List RefreshToken)
      → exists (is_usable hash) rows ≡ false
      → find (is_active now hash) rows ≡ none
  unfolding is_active
  inactive now [] h = refl
  inactive now (t ∷ ts) h = ground (arith, inactive now ts)
