-- ===== src/Auth/Service/Keeps.antt =====
-- The methods of auth/auth_service.go: properties of the database through their calls of the
-- repositories.
use go_url_shortener.Base.{Bool, true, false, not, List}
use go_url_shortener.Base.Int.{ℤ}
use go_url_shortener.Base.Text.{String, ◌==◌, trim_space}
use go_url_shortener.Model.{User, RefreshToken}
use go_url_shortener.Outcome.{
  Error, Action, message, wrapped, map_error, map_error_keeps, >>=_keeps, fail_if, from_result,
}
use go_url_shortener.Db.{Db, Reply, exec, exec_keeps}
use go_url_shortener.Repository.Users
use go_url_shortener.Repository.Tokens
use go_url_shortener.Service.Urls.{Host, on_db, on_entropy}
use go_url_shortener.Auth.Password.{validate_password}
use go_url_shortener.Auth.Tokens.{hash_token}
use go_url_shortener.Auth.Service.{
  AuthService, hide, create_user_error, new_user, normalized, register, access_token,
  new_refresh_token, store_token, create_refresh_token, open_session, login, find_token, rotate_to,
  renew, refresh, logout,
}

fail_if_keeps {ℓ} :
    {S : Type 0} (P : S → Type ℓ) (b : Bool) (e : Error) (s : S) → P s → P (fail_if b e s).1
fail_if_keeps P true e s h = h
fail_if_keeps P false e s h = h

module _ {ℓ} (auth : AuthService) (P : Db → Type ℓ)
    (blind : (d : Db) (rs : List Reply) → P d → P (record d { replies = rs }))
    (registered : (user : User) (d : Db) → P d → P (Users.create user d).1)
    (created : (token : RefreshToken) (d : Db) → P d → P (Tokens.create token d).1)
    (revoked : (id : ℤ) (d : Db) → P d → P (Tokens.revoke id d).1)
    (rotated : (old : ℤ) (new : RefreshToken) (d : Db) → P d → P (Tokens.rotate old new d).1) where
  abbrev Q : Host → Type ℓ
  Q h = P h.db

  -- A read changes nothing but the replies to come.
  read_keeps :
      {A : Type 0} (query : Action Db A)
      → ((d : Db) → P d → P (query d).1)
      → (d : Db) → P d
      → P (exec query d).1
  read_keeps query = exec_keeps query P blind

  pub register_keeps :
      (email password : String) (h : Host) → Q h → Q (register auth email password h).1
  unfolding register
  register_keeps email password h q =
      >>=_keeps Q (fail_if (normalized auth email == "") (message "email is required")) _
        (fail_if_keeps Q (normalized auth email == "") (message "email is required"))
        (λ _.
          >>=_keeps Q (from_result (validate_password auth.letters password)) _ (λ s k. k)
            (λ _.
              >>=_keeps Q
                (map_error (wrapped "hash password") (on_entropy (auth.bcrypt.generate password))) _
                (map_error_keeps Q (wrapped "hash password")
                  (on_entropy (auth.bcrypt.generate password)) (λ s k. k))
                (λ hash.
                  map_error_keeps Q create_user_error
                    (on_db (Users.create (new_user (normalized auth email) hash)))
                    (λ s k. registered (new_user (normalized auth email) hash) s.db k))))
        h q

  access_keeps : (user : User) (h : Host) → Q h → Q (access_token auth user h).1
  unfolding access_token
  access_keeps user h q = q

  new_token_keeps : (user : ℤ) (h : Host) → Q h → Q (new_refresh_token auth user h).1
  unfolding new_refresh_token
  new_token_keeps user h q = q

  store_keeps : (t : String × RefreshToken) (h : Host) → Q h → Q (store_token auth t h).1
  store_keeps (raw, stored) h q =
      >>=_keeps Q (map_error (wrapped "store refresh token") (on_db (Tokens.create stored))) _
        (map_error_keeps Q (wrapped "store refresh token") (on_db (Tokens.create stored))
          (λ s k. created stored s.db k))
        (λ _ s k. k) h q

  create_token_keeps : (user : ℤ) (h : Host) → Q h → Q (create_refresh_token auth user h).1
  unfolding create_refresh_token
  create_token_keeps user =
      >>=_keeps Q (new_refresh_token auth user) (store_token auth) (new_token_keeps user)
        store_keeps

  open_session_keeps : (user : User) (h : Host) → Q h → Q (open_session auth user h).1
  unfolding open_session
  open_session_keeps user =
      >>=_keeps Q (map_error (wrapped "generate access token") (access_token auth user)) _
        (map_error_keeps Q (wrapped "generate access token") (access_token auth user)
          (access_keeps user))
        (λ access.
          >>=_keeps Q (create_refresh_token auth user.id) _ (create_token_keeps user.id)
            (λ _ s k. k))

  pub login_keeps : (email password : String) (h : Host) → Q h → Q (login auth email password h).1
  unfolding login Users.find_by_email Users.select_by_email
  login_keeps email password =
      >>=_keeps Q
        (map_error (hide "invalid credentials")
          (on_db (Users.find_by_email (normalized auth email))))
        _
        (map_error_keeps Q (hide "invalid credentials")
          (on_db (Users.find_by_email (normalized auth email)))
          (λ s k. read_keeps (Users.select_by_email (normalized auth email)) (λ d p. p) s.db k))
        (λ user.
          >>=_keeps Q
            (fail_if (not (auth.bcrypt.matches user.password_hash password))
              (message "invalid credentials"))
            _
            (fail_if_keeps Q (not (auth.bcrypt.matches user.password_hash password))
              (message "invalid credentials"))
            (λ _. open_session_keeps user))

  pub find_token_keeps : (raw : String) (h : Host) → Q h → Q (find_token auth raw h).1
  unfolding find_token Tokens.find_active_by_hash Tokens.select_active
  find_token_keeps raw =
      >>=_keeps Q (fail_if (trim_space raw == "") (message "invalid refresh token")) _
        (fail_if_keeps Q (trim_space raw == "") (message "invalid refresh token"))
        (λ _.
          map_error_keeps Q (hide "invalid refresh token")
            (on_db (Tokens.find_active_by_hash (hash_token auth.sha256 (trim_space raw))))
            (λ s k.
              read_keeps (Tokens.select_active (hash_token auth.sha256 (trim_space raw))) (λ d p. p)
                s.db k))

  rotate_to_keeps :
      (old : ℤ) (access : String) (t : String × RefreshToken) (h : Host)
      → Q h
      → Q (rotate_to auth old access t h).1
  rotate_to_keeps old access (raw, stored) =
      >>=_keeps Q (map_error (hide "invalid refresh token") (on_db (Tokens.rotate old stored))) _
        (map_error_keeps Q (hide "invalid refresh token") (on_db (Tokens.rotate old stored))
          (λ s k. rotated old stored s.db k))
        (λ _ s k. k)

  renew_keeps : (token : RefreshToken) (h : Host) → Q h → Q (renew auth token h).1
  unfolding Users.find_by_id Users.select_by_id
  renew_keeps token =
      >>=_keeps Q
        (map_error (hide "invalid refresh token") (on_db (Users.find_by_id token.user_id))) _
        (map_error_keeps Q (hide "invalid refresh token") (on_db (Users.find_by_id token.user_id))
          (λ s k. read_keeps (Users.select_by_id token.user_id) (λ d p. p) s.db k))
        (λ user.
          >>=_keeps Q (map_error (wrapped "generate access token") (access_token auth user)) _
            (map_error_keeps Q (wrapped "generate access token") (access_token auth user)
              (access_keeps user))
            (λ access.
              >>=_keeps Q (new_refresh_token auth user.id) (rotate_to auth token.id access)
                (new_token_keeps user.id) (rotate_to_keeps token.id access)))

  pub refresh_keeps : (raw : String) (h : Host) → Q h → Q (refresh auth raw h).1
  unfolding refresh
  refresh_keeps raw =
      >>=_keeps Q (find_token auth raw) (renew auth) (find_token_keeps raw) renew_keeps

  pub logout_keeps : (raw : String) (h : Host) → Q h → Q (logout auth raw h).1
  unfolding logout
  logout_keeps raw =
      >>=_keeps Q (find_token auth raw) _ (find_token_keeps raw)
        (λ token s k. revoked token.id s.db k)
