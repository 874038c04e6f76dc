-- ===== src/Auth/Service/Reuse.antt =====
-- Refresh and Logout of auth/auth_service.go, and the later uses of their refresh token.
use go_url_shortener.Base.{◌≡◌, refl, sym, ap, ◌∙◌, subst, true, false, some, List, find, arith}
use go_url_shortener.Base.Int.{ℤ}
use go_url_shortener.Base.Text.{String, ◌==◌, trim_space}
use go_url_shortener.Model.{RefreshToken}
use go_url_shortener.Outcome.{
  Result, ok, err, is_ok, message, wrapped, map_error, map_error-eq-ok, map_error_keeps, >>=-eq-ok,
  fail_if-eq-ok, pure, continue,
}
use go_url_shortener.Db.{Db, exec-eq-ok, exec_keeps}
use go_url_shortener.Repository.Users
use go_url_shortener.Repository.Users.{insert_user}
use go_url_shortener.Repository.Tokens
use go_url_shortener.Repository.Tokens.{is_active, is_unrevoked, select_active}
use go_url_shortener.Repository.Tokens.Hashes.{
  Unique, IsRetired, IsKeyed, rotate_retires, revoke_retires,
}
use go_url_shortener.Service.Urls.{Host, on_db}
use go_url_shortener.Service.Urls.Alias.{on_db-eq-ok}
use go_url_shortener.Auth.Tokens.{hash_token}
use go_url_shortener.Auth.Service.{
  AuthService, Session, hide, access_token, new_refresh_token, find_token, rotate_to, renew,
  refresh, logout,
}
use go_url_shortener.Auth.Service.Ended.{Call, run, run-IsRetired, inactive}

module _ (auth : AuthService) where
  abbrev hash_of : String → String
  hash_of raw = hash_token auth.sha256 (trim_space raw)

  find_token-eq-ok :
      (raw : String) (h u : Host) (token : RefreshToken)
      → find_token auth raw h ≡ (ok token, u)
      → (find (is_active h.db.now (hash_of raw)) h.db.tokens ≡ some token)
        × (u.db.tokens ≡ h.db.tokens)
  unfolding find_token Tokens.find_active_by_hash select_active
  find_token-eq-ok raw h u token e =
      let (given, e') =
        fail_if-eq-ok (trim_space raw == "") (message "invalid refresh token") _ h e in
      let (d, made, after) = on_db-eq-ok (Tokens.find_active_by_hash (hash_of raw)) h token u (
        map_error-eq-ok (hide "invalid refresh token")
          (on_db (Tokens.find_active_by_hash (hash_of raw))) h token u e') in
      let done = exec-eq-ok (select_active (hash_of raw)) h.db token d made in ground arith

  rotate_to-eq-ok :
      (old : ℤ) (access raw : String) (stored : RefreshToken) (s h' : Host) (session : Session)
      → rotate_to auth old access (raw, stored) s ≡ (ok session, h')
      → (is_ok (Tokens.rotate old stored s.db).0 ≡ true)
        × ((Tokens.rotate old stored s.db).1 ≡ h'.db)
  rotate_to-eq-ok old access raw stored s h' session e =
      let (row, u, rotated, last) =
        >>=-eq-ok (map_error (hide "invalid refresh token") (on_db (Tokens.rotate old stored)))
          (λ _. pure (record { access_token = access; refresh_token = raw })) s e in
      let (d, made, after) = on_db-eq-ok (Tokens.rotate old stored) s row u (
        map_error-eq-ok (hide "invalid refresh token") (on_db (Tokens.rotate old stored)) s row u
          rotated) in
      let same : u ≡ h' = ap (λ p. p.1) last in ground (arith, made, after, same)

  -- The table is the same before the rotation.
  renew-eq-ok :
      (token : RefreshToken) (h h' : Host) (session : Session)
      → renew auth token h ≡ (ok session, h')
      → (stored : RefreshToken) × (d : Db) × (d.tokens ≡ h.db.tokens)
        × (is_ok (Tokens.rotate token.id stored d).0 ≡ true)
        × ((Tokens.rotate token.id stored d).1 ≡ h'.db)
  unfolding access_token new_refresh_token Users.find_by_id Users.select_by_id
  renew-eq-ok token h h' session e =
      let (user, u, found, e₁) =
        >>=-eq-ok
          (map_error (hide "invalid refresh token") (on_db (Users.find_by_id token.user_id))) _ h
          e in
      let kept : u.db.tokens ≡ h.db.tokens =
        ap (λ p. p.1.db.tokens) (sym found)
        ∙ map_error_keeps (λ (s : Host). s.db.tokens ≡ h.db.tokens) (hide "invalid refresh token")
            (on_db (Users.find_by_id token.user_id))
            (λ s k.
              exec_keeps (Users.select_by_id token.user_id) (λ (d : Db). d.tokens ≡ h.db.tokens)
                (λ d rs k. k) (λ d k. k) s.db k)
            h refl in
      let (access, v, signed, e₂) =
        >>=-eq-ok (map_error (wrapped "generate access token") (access_token auth user)) _ u e₁ in
      let same : u.db ≡ v.db =
        ap (λ p. p.1.db)
          (map_error-eq-ok (wrapped "generate access token") (access_token auth user) u access v
            signed) in
      let ((raw, stored), w, drawn, e₃) = >>=-eq-ok (new_refresh_token auth user.id) _ v e₂ in
      let same' : v.db ≡ w.db = ap (λ p. p.1.db) drawn in
      let (good, last) = rotate_to-eq-ok token.id access raw stored w h' session e₃ in
      (stored, w.db, ap (λ (d : Db). d.tokens) (sym (same ∙ same')) ∙ kept, good, last)

  refresh_retires :
      (raw : String) (h h' : Host) (session : Session)
      → IsKeyed h.db
      → refresh auth raw h ≡ (ok session, h')
      → IsRetired (hash_of raw) h'.db
  unfolding refresh
  refresh_retires raw h h' session u e =
      let (token, s, found, e') = >>=-eq-ok (find_token auth raw) (renew auth) h e in
      let (active, same) = find_token-eq-ok raw h s token found in
      let (stored, d, kept, good, last) = renew-eq-ok token s h' session e' in
      let table : d.tokens ≡ h.db.tokens = kept ∙ same in
      subst (IsRetired (hash_of raw)) last (
        rotate_retires (hash_of raw) h.db.now token d (subst Unique (sym table) u)
          (ap (find (is_active h.db.now (hash_of raw))) table ∙ active) stored good)

  logout_retires :
      (raw : String) (h h' : Host)
      → IsKeyed h.db
      → logout auth raw h ≡ (ok tt, h')
      → IsRetired (hash_of raw) h'.db
  unfolding logout
  logout_retires raw h h' u e =
      let (token, s, found, e') = >>=-eq-ok (find_token auth raw) _ h e in
      let (active, same) = find_token-eq-ok raw h s token found in
      let (d, made, after) = on_db-eq-ok (Tokens.revoke token.id) s tt h' e' in
      subst (λ (v : Host). IsRetired (hash_of raw) v.db) (sym after)
        (revoke_retires (hash_of raw) h.db.now token s.db (subst Unique (sym same) u)
          (ap (find (is_active h.db.now (hash_of raw))) same ∙ active) d made)

  refused_lookup :
      (raw : String) (h : Host)
      → IsRetired (hash_of raw) h.db
      → is_ok (find_token auth raw h).0 ≡ false
  unfolding find_token Tokens.find_active_by_hash select_active
  refused_lookup raw h r = ground (arith, inactive (hash_of raw) h.db.now h.db.tokens r.dead)

  -- The two methods fail with the lookup.
  both_refused :
      (raw : String) (h : Host)
      → IsRetired (hash_of raw) h.db
      → (is_ok (refresh auth raw h).0 ≡ false) × (is_ok (logout auth raw h).0 ≡ false)
  unfolding refresh logout
  both_refused raw h r = go (find_token auth raw h) (refused_lookup raw h r)
    where
      go :
          (out : Result RefreshToken × Host)
          → is_ok out.0 ≡ false
          → (is_ok (continue (renew auth) out).0 ≡ false)
            × (is_ok (continue (λ (token : RefreshToken). on_db (Tokens.revoke token.id)) out).0
                ≡ false)
      go (ok token, s) bad = absurd (ground arith)
      go (err e, s) bad = (refl, refl)

  later_refused :
      (raw again : String) (h : Host) (cs : List Call)
      → trim_space again ≡ trim_space raw
      → IsRetired (hash_of raw) h.db
      → (is_ok (refresh auth again (run auth h cs)).0 ≡ false)
        × (is_ok (logout auth again (run auth h cs)).0 ≡ false)
  later_refused raw again h cs same r = both_refused again (run auth h cs) (
      run-IsRetired (hash_of again) auth h cs
        (subst (λ t. IsRetired (hash_token auth.sha256 t) h.db) (sym same) r))

  -- A refresh token is good for one refresh: where no two rows have the same hash and a call of Refresh
  -- has succeeded, every later call of Refresh or of Logout with the same token fails, whatever calls of
  -- the service, passing of time, answers of the database and random bytes lie in between.
  pub refresh_once :
      (raw again : String) (h h' : Host) (session : Session) (cs : List Call)
      → IsKeyed h.db
      → refresh auth raw h ≡ (ok session, h')
      → trim_space again ≡ trim_space raw
      → (is_ok (refresh auth again (run auth h' cs)).0 ≡ false)
        × (is_ok (logout auth again (run auth h' cs)).0 ≡ false)
  refresh_once raw again h h' session cs u e same =
      later_refused raw again h' cs same (refresh_retires raw h h' session u e)

  -- Logout ends the token: where no two rows have the same hash and a call of Logout has succeeded,
  -- every later call of Refresh or of Logout with the same token fails, whatever calls of the service,
  -- passing of time, answers of the database and random bytes lie in between.
  pub logout_ends :
      (raw again : String) (h h' : Host) (cs : List Call)
      → IsKeyed h.db
      → logout auth raw h ≡ (ok tt, h')
      → trim_space again ≡ trim_space raw
      → (is_ok (refresh auth again (run auth h' cs)).0 ≡ false)
        × (is_ok (logout auth again (run auth h' cs)).0 ≡ false)
  logout_ends raw again h h' cs u e same =
      later_refused raw again h' cs same (logout_retires raw h h' u e)
