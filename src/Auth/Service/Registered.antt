-- ===== src/Auth/Service/Registered.antt =====
-- Register of auth/auth_service.go, and Login with the email that it registered.
use go_url_shortener.Base.{
  ◌≡◌, ◌≢◌, refl, sym, ap, subst, true, List, ◌∷◌, arith, if◌then◌else◌, Bool-cases, inl, inr,
}
use go_url_shortener.Base.Text.{String, ◌==◌, eq_iff}
use go_url_shortener.Model.{User}
use go_url_shortener.Outcome.{
  ok, err, message, wrapped, map_error, map_error-eq-ok, >>=-eq-ok, fail_if-eq-ok,
  from_result-eq-ok,
}
use go_url_shortener.Db.{Db, served, exec-eq-ok, next_reply, later_replies}
use go_url_shortener.Repository.Users
use go_url_shortener.Repository.Users.{insert_user, select_by_email}
use go_url_shortener.Service.Urls.{Host, on_db, on_entropy}
use go_url_shortener.Service.Urls.Alias.{on_db-eq-ok}
use go_url_shortener.Service.Urls.Created.{on_entropy-eq-ok}
use go_url_shortener.Auth.Password.{validate_password}
use go_url_shortener.Auth.Service.{
  AuthService, create_user_error, new_user, normalized, register, open_session, login,
}

-- The host after a read that the database has served.
abbrev pub after_reply : Host → Host
after_reply h = record h { db = record h.db { replies = later_replies h.db.replies } }

-- What a registration has done: the password was validated, and one row was added, with the role user,
-- the email as it is looked up, and a hash of the password.
pub record IsRegistered (auth : AuthService) (email password : String) (user : User) (h h' : Host)
    : Type 0 where
  pub strong : validate_password auth.letters password ≡ ok tt
  pub table : h'.db.users ≡ user ∷ h.db.users
  pub address : user.email ≡ normalized auth email
  pub named : user.email ≢ ""
  pub role : user.role ≡ "user"
  pub hashed : auth.bcrypt.matches user.password_hash password ≡ true

insert_user-eq-ok :
    (user row : User) (d e : Db)
    → insert_user user d ≡ (ok row, e)
    → (e.users ≡ row ∷ d.users)
      × (row.email ≡ user.email)
      × (row.role ≡ user.role)
      × (row.password_hash ≡ user.password_hash)
unfolding insert_user
insert_user-eq-ok user row d e h = ground arith

entropy_users :
    (auth : AuthService) (password hash : String) (h u : Host)
    → on_entropy (auth.bcrypt.generate password) h ≡ (ok hash, u)
    → u.db ≡ h.db
entropy_users auth password hash h u e = ap (λ p. p.1.db) (sym e)

module _ (auth : AuthService) where
  register-IsRegistered :
      (email password : String) (user : User) (h h' : Host)
      → register auth email password h ≡ (ok user, h')
      → IsRegistered auth email password user h h'
  unfolding register Users.create
  register-IsRegistered email password user h h' e =
      let name = normalized auth email in
      let (given, e₁) = fail_if-eq-ok (name == "") (message "email is required") _ h e in
      let (strong, e₂) = from_result-eq-ok (validate_password auth.letters password) _ h e₁ in
      let (hash, u, drawn, e₃) =
        >>=-eq-ok (map_error (wrapped "hash password") (on_entropy (auth.bcrypt.generate password)))
          _ h e₂ in
      let drawn' =
        map_error-eq-ok (wrapped "hash password") (on_entropy (auth.bcrypt.generate password)) h
          hash u drawn in
      let (rest, made, _) = on_entropy-eq-ok (auth.bcrypt.generate password) h hash u drawn' in
      let (d, stored, after) = on_db-eq-ok (Users.create (new_user name hash)) u user h' (
        map_error-eq-ok create_user_error (on_db (Users.create (new_user name hash))) u user h'
          e₃) in
      let (table, address, role, hashed) =
        insert_user-eq-ok (new_user name hash) user _ d
          (exec-eq-ok (insert_user (new_user name hash)) u.db user d stored) in
      let same = entropy_users auth password hash h u drawn' in
      record {
        strong = strong;
        table = ground (arith, after, table, same);
        address = address;
        named = ground (arith, address, eq_iff name "");
        role = role;
        hashed =
            subst (λ text. auth.bcrypt.matches text password ≡ true) (sym hashed)
              (auth.bcrypt.matches-generate password hash h.entropy rest made);
      }

  found_first :
      (user : User) (name : String) (d : Db) (users : List User)
      → next_reply d.replies ≡ served
      → d.users ≡ user ∷ users
      → user.email ≡ name
      → Users.find_by_email name d ≡ (ok user, record d { replies = later_replies d.replies })
  unfolding Users.find_by_email select_by_email
  found_first user name d users s table address =
      let same : (user.email == name) ≡ true = (eq_iff user.email name).1 address in
      rw (s, table) (rw same refl)

  -- A registration that succeeds has validated the password and added one row, with the role user, the
  -- normalized email, which is not empty, and a hash that the password matches. A login right after it
  -- with an email that is normalized alike, where the database serves the lookup, opens a session of
  -- the registered user with every password that matches the hash, and is refused as invalid
  -- credentials with any other.
  pub register_login :
      (email password again other : String) (user : User) (h h' : Host)
      → register auth email password h ≡ (ok user, h')
      → normalized auth again ≡ normalized auth email
      → next_reply h'.db.replies ≡ served
      → IsRegistered auth email password user h h'
        × (login auth again other h' ≡ (
            if auth.bcrypt.matches user.password_hash other
            then open_session auth user (after_reply h')
            else (err (message "invalid credentials"), after_reply h')))
  unfolding login
  register_login email password again other user h h' e same s =
      let r = register-IsRegistered email password user h h' e in
      let found = found_first user (normalized auth email) h'.db h.db.users s r.table r.address in
      (
        r,
        rw (same, found)
            (elim (Bool-cases (auth.bcrypt.matches user.password_hash other)) [
              | inl right ↦ rw right refl
              | inr wrong ↦ rw wrong refl
            ]),
      )
