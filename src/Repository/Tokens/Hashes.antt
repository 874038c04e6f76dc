-- ===== src/Repository/Tokens/Hashes.antt =====
-- The hashes of the table refresh_tokens under the statements of
-- repository/refresh_token_repository.go: their uniqueness, and the hashes that are used up.
use go_url_shortener.Base.{
  ℕ, ◌≡◌, refl, ◌∙◌, inl, inr, Bool, true, false, ◌&&◌, some, List, [], ◌∷◌, map, exists, find,
  arith, subst,
}
use go_url_shortener.Base.Int.{ℤ, id_eq_iff}
use go_url_shortener.Base.Text.{String, ◌==◌, eq_iff}
use go_url_shortener.Model.{RefreshToken}
use go_url_shortener.Outcome.{is_ok, ok}
use go_url_shortener.Db.{Db, Reply, exec_keeps, exec-eq-ok}
use go_url_shortener.Repository.Tokens.{
  insert_token, is_unrevoked, is_active, is_target, revoke_row, revoke_token, create, revoke,
  rotate,
}
use go_url_shortener.Repository.Tokens.Rotation.{rotated, rotate_atomic}
use go_url_shortener.Repository.Tokens.Replay.{rotate_keeps}

abbrev pub has_hash : String → RefreshToken → Bool
has_hash hash t = t.token_hash == hash

-- No two rows have the same hash.
abbrev pub Unique : List RefreshToken → Type 0
Unique [] = Unit
Unique (t ∷ ts) = (exists (has_hash t.token_hash) ts ≡ false) × Unique ts

-- A row has the hash and is not revoked.
abbrev pub is_usable : String → RefreshToken → Bool
is_usable hash t = has_hash hash t && is_unrevoked t

-- A hash that is in the table and can no longer be used.
pub record IsRetired (hash : String) (d : Db) : Type 0 where
  pub stored : exists (has_hash hash) d.tokens ≡ true
  pub dead : exists (is_usable hash) d.tokens ≡ false

module _ (now : ℕ) (old : ℤ) where
  exists-revoke_hash :
      (hash : String) (rows : List RefreshToken)
      → exists (has_hash hash) (map (revoke_row now old) rows) ≡ exists (has_hash hash) rows
  unfolding revoke_row
  exists-revoke_hash hash [] = refl
  exists-revoke_hash hash (t ∷ ts) = ground (arith, exists-revoke_hash hash ts)

  exists-revoke_usable :
      (hash : String) (rows : List RefreshToken)
      → exists (is_usable hash) rows ≡ false
      → exists (is_usable hash) (map (revoke_row now old) rows) ≡ false
  unfolding revoke_row
  exists-revoke_usable hash [] h = refl
  exists-revoke_usable hash (t ∷ ts) h = ground (arith, exists-revoke_usable hash ts)

  revoke_row-hash : (t : RefreshToken) → (revoke_row now old t).token_hash ≡ t.token_hash
  unfolding revoke_row
  revoke_row-hash t = ground arith

  Unique-revoke : (rows : List RefreshToken) → Unique rows → Unique (map (revoke_row now old) rows)
  Unique-revoke [] u = tt
  Unique-revoke (t ∷ ts) u =
      (rw (revoke_row-hash t) (exists-revoke_hash t.token_hash ts ∙ u.0), Unique-revoke ts u.1)

unusable :
    (hash : String) (rows : List RefreshToken)
    → exists (has_hash hash) rows ≡ false
    → exists (is_usable hash) rows ≡ false
unusable hash [] h = refl
unusable hash (t ∷ ts) h = ground (arith, unusable hash ts)

-- The row of an active token is the only one of its hash, and is revoked by its id.
revoke_found :
    (n now : ℕ) (hash : String) (token : RefreshToken) (rows : List RefreshToken)
    → Unique rows
    → find (is_active now hash) rows ≡ some token
    → (exists (has_hash hash) rows ≡ true)
      × (exists (is_usable hash) (map (revoke_row n token.id) rows) ≡ false)
unfolding is_active revoke_row is_target
revoke_found n now hash token [] u e = absurd (grind arith)
revoke_found n now hash token (t ∷ ts) u e = ground (
  arith,
  eq_iff t.token_hash hash,
  id_eq_iff t.id token.id,
  revoke_found n now hash token ts u.1,
  unusable hash ts,
  exists-revoke_usable n token.id hash ts,
)

insert_token-Unique :
    (token : RefreshToken) (d : Db) → Unique d.tokens → Unique (insert_token token d).1.tokens
unfolding insert_token
insert_token-Unique token d u = ground arith

revoke_token-Unique : (id : ℤ) (d : Db) → Unique d.tokens → Unique (revoke_token id d).1.tokens
unfolding revoke_token
revoke_token-Unique id d u = Unique-revoke d.now id d.tokens u

insert_token-IsRetired :
    (hash : String) (token : RefreshToken) (d : Db)
    → IsRetired hash d
    → IsRetired hash (insert_token token d).1
unfolding insert_token
insert_token-IsRetired hash token d r = ground (arith, eq_iff token.token_hash hash)

revoke_token-IsRetired :
    (hash : String) (id : ℤ) (d : Db) → IsRetired hash d → IsRetired hash (revoke_token id d).1
unfolding revoke_token
revoke_token-IsRetired hash id d r = record {
  stored = exists-revoke_hash d.now id hash d.tokens ∙ r.stored;
  dead = exists-revoke_usable d.now id hash d.tokens r.dead;
}

with_replies-IsRetired :
    (hash : String) (d : Db) (rs : List Reply)
    → IsRetired hash d
    → IsRetired hash (record d { replies = rs })
with_replies-IsRetired hash d rs r = record { stored = r.stored; dead = r.dead }

abbrev pub IsKeyed : Db → Type 0
IsKeyed d = Unique d.tokens

-- The repository's writes keep the hashes distinct, and a hash that is used up stays so.
pub create-IsKeyed : (token : RefreshToken) (d : Db) → IsKeyed d → IsKeyed (create token d).1
unfolding create
create-IsKeyed token =
    exec_keeps (insert_token token) IsKeyed (λ d rs u. u) (insert_token-Unique token)

pub revoke-IsKeyed : (id : ℤ) (d : Db) → IsKeyed d → IsKeyed (revoke id d).1
unfolding revoke
revoke-IsKeyed id = exec_keeps (revoke_token id) IsKeyed (λ d rs u. u) (revoke_token-Unique id)

pub rotate-IsKeyed :
    (old : ℤ) (new : RefreshToken) (d : Db) → IsKeyed d → IsKeyed (rotate old new d).1
rotate-IsKeyed =
    rotate_keeps IsKeyed (λ d rs u. u) revoke_token-Unique insert_token-Unique (λ d t u v. u)

module _ (hash : String) where
  pub create-IsRetired :
      (token : RefreshToken) (d : Db) → IsRetired hash d → IsRetired hash (create token d).1
  unfolding create
  create-IsRetired token =
      exec_keeps (insert_token token) (IsRetired hash) (with_replies-IsRetired hash)
        (insert_token-IsRetired hash token)

  pub revoke-IsRetired : (id : ℤ) (d : Db) → IsRetired hash d → IsRetired hash (revoke id d).1
  unfolding revoke
  revoke-IsRetired id =
      exec_keeps (revoke_token id) (IsRetired hash) (with_replies-IsRetired hash)
        (revoke_token-IsRetired hash id)

  pub rotate-IsRetired :
      (old : ℤ) (new : RefreshToken) (d : Db)
      → IsRetired hash d
      → IsRetired hash (rotate old new d).1
  rotate-IsRetired =
      rotate_keeps (IsRetired hash) (with_replies-IsRetired hash) (revoke_token-IsRetired hash)
        (insert_token-IsRetired hash) (λ d t r s. record { stored = r.stored; dead = r.dead })

  module _ (n : ℕ) (token : RefreshToken) (d : Db) (u : Unique d.tokens)
      (found : find (is_active n hash) d.tokens ≡ some token) where
    table-IsRetired :
        (new : RefreshToken) (e : Db)
        → Unique e.tokens
        → e.tokens ≡ rotated token.id new d
        → IsRetired hash e
    table-IsRetired new e v table =
        let (stored, dead) = revoke_found d.now n hash token d.tokens u found in
        let kept = exists-revoke_hash d.now token.id hash d.tokens ∙ stored in
        let apart : Unique (rotated token.id new d) = subst Unique table v in
        record {
          stored = ground (arith, eq_iff new.token_hash hash);
          dead = ground (arith, eq_iff new.token_hash hash);
        }

    -- A rotation that succeeds uses up the hash of the token that it rotates.
    pub rotate_retires :
        (new : RefreshToken)
        → is_ok (rotate token.id new d).0 ≡ true
        → IsRetired hash (rotate token.id new d).1
    rotate_retires new good = elim (rotate_atomic token.id new d) [
      | inl (same, failed) ↦ absurd (ground arith)
      | inr (table, live) ↦
          table-IsRetired new (rotate token.id new d).1 (rotate-IsKeyed token.id new d u) table
    ]

    -- A revocation that succeeds uses up the hash of the token that it revokes.
    pub revoke_retires : (e : Db) → revoke token.id d ≡ (ok tt, e) → IsRetired hash e
    unfolding revoke revoke_token
    revoke_retires e good =
        let (stored, dead) = revoke_found d.now n hash token d.tokens u found in
        let kept = exists-revoke_hash d.now token.id hash d.tokens ∙ stored in
        let done = exec-eq-ok (revoke_token token.id) d tt e good in
        record { stored = ground arith; dead = ground arith }
