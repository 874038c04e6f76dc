-- ===== src/Service/Cached/Coherence.antt =====
-- service/cached_url_service.go: what it means that the cache agrees with the database, and the calls
-- of the cache under that invariant.
use text.Mathlib.TextLemmas.{append_cancel_left}
use go_url_shortener.Base.{
  ℕ, ◌≤◌, ◌<◌, ◌+◌, ◌≡◌, refl, sym, ap, ◌∙◌, Option, none, some, List, [], ◌∷◌, find, find_holds,
  arith, Bool-cases, inl, inr,
}
use go_url_shortener.Base.Text.{String, eq_iff}
use go_url_shortener.Model.{Url}
use go_url_shortener.Outcome.{ok, ok_inj}
use go_url_shortener.Db.{Reply, served, refused, lost, next_reply, later_replies}
use go_url_shortener.Repository.Urls.{is_live}
use go_url_shortener.Cache.{
  Redis, Json, Settings, Cache, url_cache_key, cache_ttl, get_url, set_url, decoded, found,
  answered,
}
use go_url_shortener.Cache.Keeps.{get_url_keeps, set_url_keeps}
use go_url_shortener.Service.Cached.{Site}

pub key_injective : (a b : String) → url_cache_key a ≡ url_cache_key b → a ≡ b
unfolding url_cache_key
key_injective a b e = append_cancel_left "goshort:url:" a b e

-- An active row that the database answers now is answered as long as the cache may keep it.
still_live :
    (now t ttl : ℕ) (code : String) (rows : List Url) (url : Url)
    → find (is_live now code) rows ≡ some url
    → now ≤ t
    → t < now + cache_ttl ttl now url.expires_at
    → find (is_live t code) rows ≡ some url
unfolding is_live cache_ttl
still_live now t ttl code [] url h le early = absurd (grind arith)
still_live now t ttl code (r ∷ rs) url h le early = ground (arith, still_live now t ttl code rs url)

live-code :
    (now : ℕ) (code : String) (rows : List Url) (url : Url)
    → find (is_live now code) rows ≡ some url
    → url.short_code ≡ code
unfolding is_live
live-code now code rows url h =
    (eq_iff url.short_code code).0 (ground (arith, find_holds (is_live now code) rows url h))

module _ (redis : Redis) (json : Json) where
  -- Whatever the cache can still show from now on for a code, the database would answer then, if
  -- nothing were written.
  abbrev pub Agrees : ℕ → List Url → redis.Store → Type 0
  Agrees now rows store =
      (t : ℕ) (code value : String) (url : Url)
      → now ≤ t
      → redis.get t (url_cache_key code) store ≡ some value
      → json.unmarshal value ≡ some url
      → find (is_live t code) rows ≡ some url

  abbrev pub IsCoherent : Site redis → Type 0
  IsCoherent s = Agrees s.host.db.now s.host.db.urls s.cache.store

  -- Both from an instant on that may be later than the command's.
  pub Agrees-del :
      (now from : ℕ) (rows : List Url) (store : redis.Store) (key : String)
      → now ≤ from
      → Agrees from rows store
      → Agrees from rows (redis.del now key store)
  Agrees-del now from rows store key later a t code value url le seen =
      a t code value url le (redis.del_visible now t key _ value store (omega arith) seen).1

  -- The entry that SetURL writes for a row that the database has just answered.
  pub Agrees-set :
      (now from ttl : ℕ) (code value : String) (rows : List Url) (store : redis.Store) (url : Url)
      → now ≤ from
      → find (is_live now code) rows ≡ some url
      → json.marshal url ≡ some value
      → Agrees from rows store
      → Agrees from rows (
          redis.set now
            (url_cache_key url.short_code)
            value
            (cache_ttl ttl now url.expires_at)
            store)
  Agrees-set now from ttl code value rows store url later live coded a t c v u le seen read =
      elim (redis.set_visible now t (cache_ttl ttl now url.expires_at)
        (url_cache_key url.short_code) (url_cache_key c) v value store (omega arith) seen) [
          | inl (same, written, early) ↦
              let same_code : c ≡ code =
                key_injective c url.short_code same ∙ live-code now code rows url live in
              let same_url : some u ≡ some url =
                sym read ∙ ap json.unmarshal written ∙ json.unmarshal-marshal url value coded in
              rw (same_code, same_url) (still_live now t ttl code rows url live (omega arith) early)
          | inr (other, older) ↦ a t c v u le older read
        ]

  module _ (now : ℕ) (rows : List Url) where
    module _ (settings : Settings) where
      -- Reading and filling the cache keep the agreement, whatever the server answers.
      pub get_url-Agrees :
          (code : String) (c : Cache redis)
          → Agrees now rows c.store
          → Agrees now rows (get_url redis json settings now code c).1.store
      get_url-Agrees =
          get_url_keeps redis json settings now (Agrees now rows)
            (λ key store. Agrees-del now now rows store key (omega arith))

      pub set_url-Agrees :
          (code : String) (url : Url) (c : Cache redis)
          → find (is_live now code) rows ≡ some url
          → Agrees now rows c.store
          → Agrees now rows (set_url redis json settings now url c).1.store
      set_url-Agrees code url c live a =
          set_url_keeps redis json settings now (Agrees now rows) url c a (λ value coded.
            Agrees-set now now settings.ttl code value rows c.store url (omega arith) live coded a)

      decoded-eq-ok :
          (key : String) (o : Option Url) (c : Cache redis) (url : Url)
          → (decoded redis json settings now key o c).0 ≡ ok url
          → o ≡ some url
      decoded-eq-ok key none c url h = absurd (grind arith)
      decoded-eq-ok key (some u) c url h = ap some (ok_inj h)

      found-eq-ok :
          (code : String) (o : Option String) (c : Cache redis) (url : Url)
          → redis.get now (url_cache_key code) c.store ≡ o
          → Agrees now rows c.store
          → (found redis json settings now (url_cache_key code) o c).0 ≡ ok url
          → find (is_live now code) rows ≡ some url
      found-eq-ok code none c url seen a h = absurd (grind arith)
      found-eq-ok code (some value) c url seen a h =
          a now code value url (omega arith) seen
            (decoded-eq-ok (url_cache_key code) (json.unmarshal value) c url h)

      answered-eq-ok :
          (code : String) (r : Reply) (c : Cache redis) (url : Url)
          → Agrees now rows c.store
          → (answered redis json settings now (url_cache_key code) r c).0 ≡ ok url
          → find (is_live now code) rows ≡ some url
      answered-eq-ok code served c url a h =
          found-eq-ok code (redis.get now (url_cache_key code) c.store) c url refl a h
      answered-eq-ok code refused c url a h = absurd (grind arith)
      answered-eq-ok code lost c url a h = absurd (grind arith)

      -- A hit is what the database would answer.
      pub get_url-eq-ok :
          (code : String) (c : Cache redis) (url : Url)
          → Agrees now rows c.store
          → (get_url redis json settings now code c).0 ≡ ok url
          → find (is_live now code) rows ≡ some url
      unfolding get_url
      get_url-eq-ok code c url a h = elim (Bool-cases settings.has_client) [
        | inl on ↦
            answered-eq-ok code (next_reply c.answers)
              (record c { answers = later_replies c.answers }) url a (rw on at h)
        | inr off ↦ absurd (ground arith)
      ]
