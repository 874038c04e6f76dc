-- ===== src/Auth/Admission.antt =====
-- From Login of auth/auth_service.go to RequireAuth of auth/auth_middleware.go.
use Prim.Native.Char.{Char}
use mathlib.Core.Path.{ap₂}
use go_url_shortener.Base.{ℕ, ◌+◌, ◌*◌, ◌/◌, ◌≤◌, ◌<◌, ◌≡◌, refl, sym, ap, ◌∙◌, not, some}
use go_url_shortener.Base.Text.{String}
use go_url_shortener.Model.{User}
use go_url_shortener.Outcome.{
  Result, ok, message, wrapped, ok_inj, map_error, >>=-eq-ok, map_error-eq-ok, fail_if-eq-ok,
}
use go_url_shortener.Db.{Db, exec_keeps}
use go_url_shortener.Repository.Users.{find_by_email, select_by_email}
use go_url_shortener.Repository.Users
use go_url_shortener.Service.Urls.{Host, on_db}
use go_url_shortener.Handler.{Request, Endpoint}
use go_url_shortener.Auth.Tokens.{generate_access_token, access_token_lifetime, one_second}
use go_url_shortener.Auth.Service.{
  AuthService, Session, normalized, access_token, create_refresh_token, hide, open_session, login,
}
use go_url_shortener.Auth.Middleware.{parse_access_token, require_auth, admit}
use go_url_shortener.Auth.Middleware.Access.{IsNamed, parse_access_token-generate}
use go_url_shortener.Auth.Middleware.Bearer.{IsWord, header, require_auth-header}

find_by_email-now : (email : String) (d : Db) → (find_by_email email d).1.now ≡ d.now
unfolding find_by_email select_by_email
find_by_email-now email d =
    exec_keeps (select_by_email email) (λ e. e.now ≡ d.now) (λ e rs h. h) (λ e h. h) d refl

module _ (auth : AuthService) where
  -- What a session has of its user: the access token of the instant.
  open_session-access :
      (user named : User) (session : Session) (h h' : Host)
      → open_session auth user h ≡ (ok (session, named), h')
      → (user ≡ named)
        × (generate_access_token auth.jwt auth.jwt_secret h.db.now user ≡ ok session.access_token)
  unfolding open_session access_token
  open_session-access user named session h h' e =
      let (access, u, made, e') =
        >>=-eq-ok (map_error (wrapped "generate access token") (access_token auth user)) _ h e in
      let (refresh, v, stored, e'') = >>=-eq-ok (create_refresh_token auth user.id) _ u e' in
      let drawn =
        map_error-eq-ok (wrapped "generate access token") (access_token auth user) h access u
          made in
      let pair = ok_inj (ap (λ (p : Result (Session × User) × Host). p.0) e'') in
      (
        ap (λ (p : Session × User). p.1) pair,
        ap (λ (p : Result String × Host). p.0) drawn
            ∙ ap (λ (p : Session × User). ok p.0.access_token) pair,
      )

  login-access :
      (email password : String) (user : User) (session : Session) (h h' : Host)
      → login auth email password h ≡ (ok (session, user), h')
      → generate_access_token auth.jwt auth.jwt_secret h.db.now user ≡ ok session.access_token
  unfolding login
  login-access email password user session h h' e =
      let (found, u, lookup, e') =
        >>=-eq-ok
          (map_error (hide "invalid credentials")
            (on_db (Users.find_by_email (normalized auth email))))
          _ h e in
      let read =
        map_error-eq-ok (hide "invalid credentials")
          (on_db (Users.find_by_email (normalized auth email))) h found u lookup in
      let (checked, opened) =
        fail_if-eq-ok (not (auth.bcrypt.matches found.password_hash password))
          (message "invalid credentials") _ u e' in
      let (same, access) = open_session-access found user session u h' opened in
      let now : u.db.now ≡ h.db.now =
        ap (λ (p : Result User × Host). p.1.db.now) (sym read)
        ∙ find_by_email-now (normalized auth email) h.db in
      ap₂ (generate_access_token auth.jwt auth.jwt_secret) (sym now) (sym same) ∙ access

  -- What Login hands out, RequireAuth admits: where a login has succeeded for a user with a
  -- positive id of 64 bits and an email and a role that are not blank, and the access token is one
  -- word without blanks, every request with the header "Bearer" and that token, from the login on
  -- and within 15 minutes by whole seconds, reaches the next handler with the id, the email and the
  -- role of the user that the login returned.
  pub login_admits :
      {S : Type 0} (fold : Char → Char) (next : Endpoint S) (email password : String) (user : User)
      (session : Session) (h h' : Host) (t : ℕ) (r : Request) (s : S)
      → login auth email password h ≡ (ok (session, user), h')
      → IsNamed user
      → IsWord session.access_token
      → h.db.now ≤ t
      → t < (h.db.now + access_token_lifetime) / one_second * one_second
      → r.authorization ≡ header "Bearer" session.access_token
      → require_auth fold (parse_access_token auth.jwt auth.jwt_secret t) next r s
        ≡ next
            (record r {
              user = some (record { user_id = user.id; email = user.email; role = user.role });
            })
            s
  login_admits fold next email password user session h h' t r s e named word after before sent =
      require_auth-header fold (parse_access_token auth.jwt auth.jwt_secret t) next r s
        session.access_token word sent
      ∙ ap (λ c. admit next r c s)
          (parse_access_token-generate auth.jwt auth.jwt_secret h.db.now t user session.access_token
            named (login-access email password user session h h' e) after before)
