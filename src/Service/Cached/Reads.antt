-- ===== src/Service/Cached/Reads.antt =====
-- GetOriginalURL of service/cached_url_service.go, with the cache and without it.
use go_url_shortener.Base.{
  ◌≡◌, refl, sym, ap, ◌∙◌, Bool, Option, none, some, List, find, arith, Bool-cases, inl, inr, subst,
  if_keeps,
}
use go_url_shortener.Base.Text.{String}
use go_url_shortener.Model.{Url}
use go_url_shortener.Outcome.{Result, ok, err, driver, ok_inj}
use go_url_shortener.Db.{Db, Reply, served, refused, lost, next_reply, later_replies, answer}
use go_url_shortener.Repository.Urls.{
  is_live, find_by_short_code, row_or_error, select_by_short_code,
}
use go_url_shortener.Cache.{Redis, Json, Settings, Cache, get_url}
use go_url_shortener.Service.Urls.{Host, on_db, put_db}
use go_url_shortener.Service.Urls
use go_url_shortener.Service.Cached.{
  Site, put_host, put_cache, fill, look_up, hit_or, get_original_url,
}
use go_url_shortener.Service.Cached.Coherence.{
  Agrees, IsCoherent, get_url-Agrees, set_url-Agrees, get_url-eq-ok,
}

module _ (redis : Redis) (json : Json) (settings : Settings) (has_cache : Bool) where
  -- What a read answers by the way of the database's reply.
  abbrev pub from_db : Reply → Option Url → Result Url
  from_db served o = row_or_error o
  from_db refused o = err driver
  from_db lost o = err driver

  abbrev live_row : String → Site redis → Option Url
  live_row code s = find (is_live s.host.db.now code) s.host.db.urls

  fill-IsCoherent :
      (code : String) (o : Option Url) (s : Site redis)
      → IsCoherent redis json s
      → live_row code s ≡ o
      → IsCoherent redis json (fill redis json settings has_cache (row_or_error o, s)).1
        × ((fill redis json settings has_cache (row_or_error o, s)).0 ≡ row_or_error o)
  fill-IsCoherent code none s c live = (c, refl)
  fill-IsCoherent code (some url) s c live = elim (Bool-cases has_cache) [
    | inl on ↦ rw on (
      set_url-Agrees redis json s.host.db.now s.host.db.urls settings code url s.cache live c,
      refl,
    )
    | inr off ↦ rw off (c, refl)
  ]

  reply-IsCoherent :
      (code : String) (r : Reply) (s : Site redis) (rs : List Reply)
      → IsCoherent redis json s
      → let out = fill redis json settings has_cache (
          put_host redis s (
            put_db s.host
              (answer r (select_by_short_code code) (record s.host.db { replies = rs })))) in
        IsCoherent redis json out.1 × (out.0 ≡ from_db r (live_row code s))
  unfolding select_by_short_code
  reply-IsCoherent code served s rs c =
      fill-IsCoherent code (live_row code s)
        (record s { host = record s.host { db = record s.host.db { replies = rs } } }) c refl
  reply-IsCoherent code refused s rs c = (c, refl)
  reply-IsCoherent code lost s rs c = (c, refl)

  look_up-IsCoherent :
      (code : String) (s : Site redis)
      → IsCoherent redis json s
      → let out = look_up redis json settings has_cache code s in
        IsCoherent redis json out.1
        × (out.0 ≡ from_db (next_reply s.host.db.replies) (live_row code s))
  unfolding find_by_short_code
  look_up-IsCoherent code s c =
      reply-IsCoherent code (next_reply s.host.db.replies) s (later_replies s.host.db.replies) c

  answer-from_db :
      (code : String) (r : Reply) (d : Db)
      → (answer r (select_by_short_code code) d).0 ≡ from_db r (find (is_live d.now code) d.urls)
  unfolding select_by_short_code
  answer-from_db code served d = refl
  answer-from_db code refused d = refl
  answer-from_db code lost d = refl

  pub base-answer :
      (code : String) (s : Site redis)
      → (Urls.get_original_url code s.host).0
        ≡ from_db (next_reply s.host.db.replies) (live_row code s)
  unfolding Urls.get_original_url find_by_short_code
  base-answer code s =
      answer-from_db code (next_reply s.host.db.replies)
        (record s.host.db { replies = later_replies s.host.db.replies })

  from_db-eq-ok : (r : Reply) (o : Option Url) (url : Url) → from_db r o ≡ ok url → o ≡ some url
  from_db-eq-ok served none url h = absurd (grind arith)
  from_db-eq-ok served (some u) url h = ap some (ok_inj h)
  from_db-eq-ok refused o url h = absurd (grind arith)
  from_db-eq-ok lost o url h = absurd (grind arith)

  -- A read through the cache: what it leaves and what it answers.
  abbrev pub IsFaithful : String → Site redis → Result Url × Site redis → Type 0
  IsFaithful code s (out, s') =
      IsCoherent redis json s'
      × (next_reply s.host.db.replies ≡ served → out ≡ (Urls.get_original_url code s.host).0)
      × ((url : Url) → out ≡ ok url → live_row code s ≡ some url)

  look_up-IsFaithful :
      (code : String) (s : Site redis) (c : Cache redis)
      → IsCoherent redis json (record s { cache = c })
      → IsFaithful code s (look_up redis json settings has_cache code (record s { cache = c }))
  look_up-IsFaithful code s c a =
      let (kept, e) = look_up-IsCoherent code (record s { cache = c }) a in
      (
        kept,
        λ _. e ∙ sym (base-answer code s),
        λ url h. from_db-eq-ok (next_reply s.host.db.replies) (live_row code s) url (sym e ∙ h),
      )

  hit-IsFaithful :
      (code : String) (s : Site redis) (r : Result Url × Cache redis)
      → IsCoherent redis json s
      → get_url redis json settings s.host.db.now code s.cache ≡ r
      → IsFaithful code s (
          hit_or redis json settings has_cache
            (look_up redis json settings has_cache code)
            (put_cache redis s r))
  hit-IsFaithful code s (out, c') c e = go out e
    where
      kept : Agrees redis json s.host.db.now s.host.db.urls c'.store
      kept =
          subst (λ r. Agrees redis json s.host.db.now s.host.db.urls r.1.store) e
            (get_url-Agrees redis json s.host.db.now s.host.db.urls settings code s.cache c)

      go :
          (out : Result Url)
          → get_url redis json settings s.host.db.now code s.cache ≡ (out, c')
          → IsFaithful code s (
              hit_or redis json settings has_cache
                (look_up redis json settings has_cache code)
                (put_cache redis s (out, c')))
      go (ok url) e =
          let live =
            get_url-eq-ok redis json s.host.db.now s.host.db.urls settings code s.cache url c
              (ap (λ r. r.0) e) in
          (
            kept,
            λ h. sym (base-answer code s ∙ rw (h, live) refl),
            λ u h. live ∙ ap some (ok_inj h),
          )
      go (err x) e = look_up-IsFaithful code s c' kept

  get_original_url-IsFaithful :
      (code : String) (s : Site redis)
      → IsCoherent redis json s
      → IsFaithful code s (get_original_url redis json settings has_cache code s)
  unfolding get_original_url
  get_original_url-IsFaithful code s c =
      if_keeps (IsFaithful code s) has_cache
        (hit-IsFaithful code s (get_url redis json settings s.host.db.now code s.cache) c refl)
        (look_up-IsFaithful code s s.cache c)

  -- Where the cache agrees with the database and the database serves the read it may be asked for,
  -- GetOriginalURL of the cached service answers what the service without a cache answers, whatever
  -- the Redis server answers, and the cache agrees with the database after it.
  pub get_original_url_transparent :
      (code : String) (s : Site redis)
      → IsCoherent redis json s
      → next_reply s.host.db.replies ≡ served
      → let (out, s') = get_original_url redis json settings has_cache code s in
        (out ≡ (Urls.get_original_url code s.host).0) × IsCoherent redis json s'
  get_original_url_transparent code s c h =
      let (kept, same, live) = get_original_url-IsFaithful code s c in (same h, kept)

  -- Where the cache agrees with the database, a URL that GetOriginalURL of the cached service answers
  -- is the active, unexpired row that the table has for the code at that instant, whatever the two
  -- servers answer.
  pub get_original_url_live :
      (code : String) (s : Site redis) (url : Url)
      → IsCoherent redis json s
      → (get_original_url redis json settings has_cache code s).0 ≡ ok url
      → find (is_live s.host.db.now code) s.host.db.urls ≡ some url
  get_original_url_live code s url c h =
      let (kept, same, live) = get_original_url-IsFaithful code s c in live url h
