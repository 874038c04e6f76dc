-- ===== src/Outcome.antt =====
-- Go's errors as values and the functions that return one: `(T, error)` is a `Result`, and a method
-- that also changes state takes the state and gives it back.
use go_url_shortener.Base.{Bool, true, false, ◌≡◌, refl, if◌then◌else◌, arith, subst}
use go_url_shortener.Base.Text.{String, ◌==◌}

-- The errors that the program makes or tells apart.
pub data Error : Type 0 where
  -- errors.New and fmt.Errorf without %w
  message : String → Error
  -- fmt.Errorf("…: %w", err)
  wrapped : String → Error → Error
  -- sql.ErrNoRows
  no_rows : Error
  -- *pgconn.PgError with its SQLSTATE
  pg_error : String → Error
  -- any other error of a driver, a connection or the operating system
  driver : Error
  -- cache.ErrCacheMiss, worker.ErrQueueFull, auth.ErrEmailAlreadyExists
  cache_miss queue_full email_exists : Error
  -- ctx.Err()
  canceled : Error

-- repository.IsNotFound: errors.Is unwraps.
unfoldable pub is_not_found : Error → Bool
is_not_found no_rows = true
is_not_found (wrapped _ e) = is_not_found e
is_not_found _ = false

-- service.isUniqueViolation and repository.IsUniqueViolation: errors.As unwraps.
unfoldable pub is_unique_violation : Error → Bool
is_unique_violation (pg_error code) = code == "23505"
is_unique_violation (wrapped _ e) = is_unique_violation e
is_unique_violation _ = false

pub data Result (A : Type 0) : Type 0 where
  ok : A → Result A
  err : Error → Result A

abbrev pub is_ok : {A : Type 0} → Result A → Bool
is_ok (ok a) = true
is_ok (err e) = false

pub ok_inj : {A : Type 0} {a b : A} → ok a ≡ ok b → a ≡ b
ok_inj e = cc

abbrev pub Action : Type 0 → Type 0 → Type 0
Action S A = S → Result A × S

module _ {S A : Type 0} where
  abbrev pub pure : A → Action S A
  pure a s = (ok a, s)

  abbrev pub fail : Error → Action S A
  fail e s = (err e, s)

  abbrev pub from_result : Result A → Action S A
  from_result r s = (r, s)

  abbrev relabel : (Error → Error) → Result A × S → Result A × S
  relabel f (ok a, s) = (ok a, s)
  relabel f (err e, s) = (err (f e), s)

  -- `if err != nil { return …, f(err) }`
  abbrev pub map_error : (Error → Error) → Action S A → Action S A
  map_error f m s = relabel f (m s)

abbrev pub continue : {S A B : Type 0} → (A → Action S B) → Result A × S → Result B × S
continue f (ok a, s) = f a s
continue f (err e, s) = (err e, s)

infixl 5 ◌>>=◌ ◌>>◌
abbrev pub ◌>>=◌ : {S A B : Type 0} → Action S A → (A → Action S B) → Action S B
◌>>=◌ m f s = continue f (m s)

abbrev pub ◌>>◌ : {S A B : Type 0} → Action S A → Action S B → Action S B
m >> k = m >>= λ _. k

-- `if cond { return err }`
abbrev pub fail_if : {S : Type 0} → Bool → Error → Action S (Unit {0})
fail_if b e s = (if b then err e else ok tt, s)

-- Inversion of a chain that succeeds.
pub >>=-eq-ok :
    {S A B : Type 0} (m : Action S A) (f : A → Action S B) (s : S) {b : B} {t : S}
    → (m >>= f) s ≡ (ok b, t)
    → (a : A) × (u : S) × (m s ≡ (ok a, u)) × (f a u ≡ (ok b, t))
>>=-eq-ok {S} {A} {B} m f s {b} {t} h = go (m s) refl
  where
    go : (r : Result A × S) → m s ≡ r → (a : A) × (u : S) × (m s ≡ (ok a, u)) × (f a u ≡ (ok b, t))
    go (ok a, u) e = (a, u, e, subst (λ x. continue f x ≡ (ok b, t)) e h)
    go (err x, u) e =
        let bad : ◌≡◌ {A = Result B × S} (err x, u) (ok b, t) =
          subst (λ x. continue f x ≡ (ok b, t)) e h in
        absurd (grind arith)

module _ {S A B : Type 0} where
  continue_keeps {ℓ} :
      (P : S → Type ℓ) (f : A → Action S B)
      → ((a : A) (s : S) → P s → P (f a s).1)
      → (r : Result A × S) → P r.1
      → P (continue f r).1
  continue_keeps P f keep (ok a, s) h = keep a s h
  continue_keeps P f keep (err e, s) h = h

  -- A chain keeps what both its parts keep.
  pub >>=_keeps {ℓ} :
      (P : S → Type ℓ) (m : Action S A) (f : A → Action S B)
      → ((s : S) → P s → P (m s).1)
      → ((a : A) (s : S) → P s → P (f a s).1)
      → (s : S) → P s
      → P ((m >>= f) s).1
  >>=_keeps P m f first next s h = continue_keeps P f next (m s) (first s h)

module _ {S A : Type 0} where
  relabel_keeps {ℓ} :
      (P : S → Type ℓ) (f : Error → Error) (r : Result A × S) → P r.1 → P (relabel f r).1
  relabel_keeps P f (ok a, s) h = h
  relabel_keeps P f (err e, s) h = h

  pub map_error_keeps {ℓ} :
      (P : S → Type ℓ) (f : Error → Error) (m : Action S A)
      → ((s : S) → P s → P (m s).1)
      → (s : S) → P s
      → P (map_error f m s).1
  map_error_keeps P f m keep s h = relabel_keeps P f (m s) (keep s h)

  relabel-eq-ok :
      (f : Error → Error) (r : Result A × S) (a : A) (t : S)
      → relabel f r ≡ (ok a, t)
      → r ≡ (ok a, t)
  relabel-eq-ok f (ok b, s) a t h = h
  relabel-eq-ok f (err e, s) a t h = absurd (grind arith)

  pub map_error-eq-ok :
      (f : Error → Error) (m : Action S A) (s : S) (a : A) (t : S)
      → map_error f m s ≡ (ok a, t)
      → m s ≡ (ok a, t)
  map_error-eq-ok f m s a t h = relabel-eq-ok f (m s) a t h

module _ {S B : Type 0} where
  -- A check that is passed on the way to success.
  pub from_result-eq-ok :
      (r : Result (Unit {0})) (k : Action S B) (s : S) {b : B} {t : S}
      → (from_result r >> k) s ≡ (ok b, t)
      → (r ≡ ok tt) × (k s ≡ (ok b, t))
  from_result-eq-ok (ok tt) k s h = (refl, h)
  from_result-eq-ok (err e) k s h = absurd (grind arith)

  pub fail_if-eq-ok :
      (c : Bool) (e : Error) (k : Action S B) (s : S) {b : B} {t : S}
      → (fail_if c e >> k) s ≡ (ok b, t)
      → (c ≡ false) × (k s ≡ (ok b, t))
  fail_if-eq-ok false e k s h = (refl, h)
  fail_if-eq-ok true e k s h = absurd (grind arith)
