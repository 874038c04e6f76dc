-- ===== src/Cache/Keeps.antt =====
-- The calls of cache/redis.go: properties of the server's store through their commands, whatever the
-- server answers.
use go_url_shortener.Base.{ℕ, ◌≡◌, refl, Option, none, some, Bool-cases, inl, inr}
use go_url_shortener.Base.Text.{String}
use go_url_shortener.Model.{Url}
use go_url_shortener.Db.{Reply, served, refused, lost, next_reply, later_replies}
use go_url_shortener.Cache.{
  Redis, Json, Settings, Cache, url_cache_key, cache_ttl, get_url, set_url, delete_url, write,
  decoded, found, answered, stored,
}

module _ {ℓ} (redis : Redis) (json : Json) (settings : Settings) (now : ℕ)
    (P : redis.Store → Type ℓ) where
  write_keeps :
      (f : redis.Store → redis.Store) (what : String) (r : Reply) (store : redis.Store)
      → P store
      → P (f store)
      → P (write redis f what r store).1
  write_keeps f what served store a b = b
  write_keeps f what refused store a b = a
  write_keeps f what lost store a b = b

  stored_keeps :
      (url : Url) (o : Option String) (c : Cache redis)
      → json.marshal url ≡ o
      → P c.store
      → ((value : String)
          → json.marshal url ≡ some value
          → P (
              redis.set now
                (url_cache_key url.short_code)
                value
                (cache_ttl settings.ttl now url.expires_at)
                c.store))
      → P (stored redis json settings now url o c).1.store
  stored_keeps url none c coded p set = p
  stored_keeps url (some value) c coded p set =
      write_keeps _ "redis set" (next_reply c.answers) c.store p (set value coded)

  pub set_url_keeps :
      (url : Url) (c : Cache redis)
      → P c.store
      → ((value : String)
          → json.marshal url ≡ some value
          → P (
              redis.set now
                (url_cache_key url.short_code)
                value
                (cache_ttl settings.ttl now url.expires_at)
                c.store))
      → P (set_url redis json settings now url c).1.store
  unfolding set_url
  set_url_keeps url c p set = elim (Bool-cases settings.has_client) [
    | inl on ↦ rw on (stored_keeps url (json.marshal url) c refl p set)
    | inr off ↦ rw off p
  ]

  module _
      (deleted : (key : String) (store : redis.Store) → P store → P (redis.del now key store)) where
    decoded_keeps :
        (key : String) (o : Option Url) (c : Cache redis)
        → P c.store
        → P (decoded redis json settings now key o c).1.store
    decoded_keeps key none c p =
        write_keeps (redis.del now key) "" (next_reply c.answers) c.store p (deleted key c.store p)
    decoded_keeps key (some url) c p = p

    found_keeps :
        (key : String) (o : Option String) (c : Cache redis)
        → P c.store
        → P (found redis json settings now key o c).1.store
    found_keeps key none c p = p
    found_keeps key (some value) c p = decoded_keeps key (json.unmarshal value) c p

    answered_keeps :
        (key : String) (r : Reply) (c : Cache redis)
        → P c.store
        → P (answered redis json settings now key r c).1.store
    answered_keeps key served c p = found_keeps key (redis.get now key c.store) c p
    answered_keeps key refused c p = p
    answered_keeps key lost c p = p

    pub get_url_keeps :
        (code : String) (c : Cache redis)
        → P c.store
        → P (get_url redis json settings now code c).1.store
    unfolding get_url
    get_url_keeps code c p = elim (Bool-cases settings.has_client) [
      | inl on ↦ rw on (
          answered_keeps (url_cache_key code) (next_reply c.answers)
            (record c { answers = later_replies c.answers }) p)
      | inr off ↦ rw off p
    ]

    pub delete_url_keeps :
        (code : String) (c : Cache redis)
        → P c.store
        → P (delete_url redis json settings now code c).1.store
    unfolding delete_url
    delete_url_keeps code c p = elim (Bool-cases settings.has_client) [
      | inl on ↦ rw on (
          write_keeps (redis.del now (url_cache_key code)) "redis delete" (next_reply c.answers)
            c.store p (deleted (url_cache_key code) c.store p))
      | inr off ↦ rw off p
    ]
