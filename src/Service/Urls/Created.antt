-- ===== src/Service/Urls/Created.antt =====
-- CreateShortURL of service/url_service.go, and the row that a creation adds.
use go_url_shortener.Base.{
  ℕ, zero, suc, ◌≡◌, refl, ◌∙◌, ap, sym, true, false, not, Option, none, some, List, ◌∷◌, exists,
  arith, Bool-cases, inl, inr,
}
use go_url_shortener.Base.Int.{ℤ, is_positive}
use go_url_shortener.Base.Text.{String, trim_space}
use go_url_shortener.Model.{Url}
use go_url_shortener.Outcome.{
  Result, ok, err, ok_inj, Error, Action, wrapped, map_error, map_error-eq-ok, >>=-eq-ok,
  from_result-eq-ok, fail_if-eq-ok, message, is_unique_violation,
}
use go_url_shortener.Db.{Db}
use go_url_shortener.Repository.Urls.{clashes, create, insert_url}
use go_url_shortener.Repository.Urls.Lookup.{create-IsInserted}
use go_url_shortener.Service.ShortCode.{generate_short_code, short_code_length}
use go_url_shortener.Service.ShortCode.Laws.{IsCode, generate_short_code_shape}
use go_url_shortener.Service.Validate.{Net, validate_url}
use go_url_shortener.Service.Urls.{
  Host, put_db, put_entropy, on_entropy, new_url, settle, store_or, attempts, create_short_url,
  max_generation_attempts,
}

-- The row that a successful creation has added to the table.
pub record IsCreated (original : String) (user : ℤ) (row : Url) (h h' : Host) : Type 0 where
  pub table : h'.db.urls ≡ row ∷ h.db.urls
  pub destination : row.original_url ≡ trim_space original
  pub owner : row.user_id ≡ some user
  pub active : row.is_active ≡ true
  pub lasting : row.expires_at ≡ none
  pub unclashed : exists (clashes row) h.db.urls ≡ false

-- A refused row leaves the table as it was.
create_refused :
    (url : Url) (d d' : Db) (e : Error)
    → create url d ≡ (err e, d')
    → is_unique_violation e ≡ true
    → d'.urls ≡ d.urls
unfolding create insert_url is_unique_violation
create_refused url d d' e h u = ground arith

pub create_stored :
    (code : String) (alias : Option String) (original : String) (user : ℤ) (row : Url) (h : Host)
    (d' : Db)
    → create (new_url code alias original user) h.db ≡ (ok row, d')
    → IsCreated original user row h (record h { db = d' })
      × (row.short_code ≡ code)
      × (row.custom_alias ≡ alias)
unfolding clashes
create_stored code alias original user row h d' e =
    let i = create-IsInserted (new_url code alias original user) row h.db d' e in
    let unclashed : exists (clashes row) h.db.urls ≡ false = rw i.stamped i.unclashed in
    ground arith

-- The table of a host is what it was.
abbrev pub SameUrls : Host → Host → Type 0
SameUrls h h' = h'.db.urls ≡ h.db.urls

IsCreated-before :
    (original : String) (user : ℤ) (row : Url) (h u h' : Host)
    → SameUrls h u
    → IsCreated original user row u h'
    → IsCreated original user row h h'
IsCreated-before original user row h u h' same c = ground arith

-- The same under a generated code, without an alias.
abbrev pub IsGenerated : String → ℤ → Url → Host → Host → Type 0
IsGenerated original user row h h' =
    IsCreated original user row h h'
    × IsCode short_code_length row.short_code
    × (row.custom_alias ≡ none)

-- A chosen code, and then a row that is stored or a round that begins again.
settle-IsGenerated :
    (again : Action Host Url) (code original : String) (user : ℤ) (row : Url) (h h' : Host)
    → IsCode short_code_length code
    → ((u : Host) → SameUrls h u → again u ≡ (ok row, h') → IsGenerated original user row u h')
    → (r : Result Url × Db) → create (new_url code none original user) h.db ≡ r
    → settle again (put_db h r) ≡ (ok row, h')
    → IsGenerated original user row h h'
settle-IsGenerated again code original user row h h' shape later (ok url, d') made e =
    let (stored, coded, plain) = create_stored code none original user url h d' made in
    let same_row : url ≡ row = ok_inj (ap (λ p. p.0) e) in
    let same_host : record h { db = d' } ≡ h' = ap (λ p. p.1) e in
    rw (← same_row, ← same_host) (stored, rw coded shape, plain)
settle-IsGenerated again code original user row h h' shape later (err x, d') made e =
    elim (Bool-cases (is_unique_violation x)) [
      | inl taken ↦
          let same = create_refused (new_url code none original user) h.db d' x made taken in
          let g = later (record h { db = d' }) same (rw taken at e) in
          (IsCreated-before original user row h (record h { db = d' }) h' same g.0, g.1, g.2)
      | inr other ↦
          let bad : ◌≡◌ {A = Result Url × Host} (err _, _) (ok row, h') = rw other at e in
          absurd (grind arith)
    ]

pub on_entropy-eq-ok :
    (m : Action (List ℕ) String) (h : Host) (code : String) (u : Host)
    → on_entropy m h ≡ (ok code, u)
    → (rest : List ℕ) × (m h.entropy ≡ (ok code, rest)) × SameUrls h u
on_entropy-eq-ok m h code u e = go (m h.entropy) refl e
  where
    go :
        (r : Result String × List ℕ)
        → m h.entropy ≡ r
        → put_entropy h r ≡ (ok code, u)
        → (rest : List ℕ) × (m h.entropy ≡ (ok code, rest)) × SameUrls h u
    go (r, rest) made e =
        let same_host : record h { entropy = rest } ≡ u = ap (λ p. p.1) e in
        (
          rest,
          made ∙ ap (λ (p : Result String × Host). (p.0, rest)) e,
          ap (λ (v : Host). v.db.urls) (sym same_host),
        )

attempts-IsGenerated :
    (n : ℕ) (original : String) (user : ℤ) (row : Url) (h h' : Host)
    → attempts n original user h ≡ (ok row, h')
    → IsGenerated original user row h h'
unfolding attempts
attempts-IsGenerated zero original user row h h' e = absurd (grind arith)
attempts-IsGenerated (suc n) original user row h h' e =
    let (code, u, drawn, stored) =
      >>=-eq-ok
        (map_error (wrapped "generate short code")
          (on_entropy (generate_short_code short_code_length)))
        (λ code. store_or (attempts n original user) (new_url code none original user)) h e in
    let (rest, made, same) = on_entropy-eq-ok (generate_short_code short_code_length) h code u (
      map_error-eq-ok (wrapped "generate short code")
        (on_entropy (generate_short_code short_code_length)) h code u drawn) in
    let g =
      settle-IsGenerated (attempts n original user) code original user row u h'
        (generate_short_code_shape short_code_length h.entropy rest code made)
        (λ v _ again. attempts-IsGenerated n original user row v h' again)
        (create (new_url code none original user) u.db) refl stored in
    (IsCreated-before original user row h u h' same g.0, g.1, g.2)

-- A short URL that CreateShortURL returns has passed validation under a positive user id. It is the
-- one row added to the table: active, without expiry, owned by the user, leading to the trimmed
-- destination, under a code of six digits and letters that no row had before.
pub create_short_url-IsGenerated :
    (net : Net) (original : String) (user : ℤ) (row : Url) (h h' : Host)
    → create_short_url net original user h ≡ (ok row, h')
    → (validate_url net original ≡ ok tt)
      × (is_positive user ≡ true)
      × IsGenerated original user row h h'
unfolding create_short_url
create_short_url-IsGenerated net original user row h h' e =
    let (valid, e') = from_result-eq-ok (validate_url net original) _ h e in
    let (known, e'') = fail_if-eq-ok (not (is_positive user)) (message "invalid user ID") _ h e' in
    (valid, ground arith, attempts-IsGenerated max_generation_attempts original user row h h' e'')
