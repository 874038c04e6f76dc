-- ===== src/Service/Cached/History/Lasting.antt =====
-- A short URL of service/url_service.go under the calls that follow its creation, with the cache of
-- service/cached_url_service.go in front.
use go_url_shortener.Base.{
  ◌≡◌, ◌≢◌, sym, ap, ◌∙◌, true, Option, none, some, List, [], ◌∷◌, All, arith, some_inj, subst,
  Bool-cases, inl, inr,
}
use go_url_shortener.Base.Int.{ℤ, id_eq_iff, is_positive}
use go_url_shortener.Base.Text.{String, eq_refl, trim_space}
use go_url_shortener.Model.{Url}
use go_url_shortener.Outcome.{Result, ok, err, from_result, ◌>>◌}
use go_url_shortener.Db.{Reply}
use go_url_shortener.Repository.Urls.{
  row_or_error, is_live, update, find_by_short_code, select_by_short_code,
}
use go_url_shortener.Repository.Urls.Invariant.{IsValid}
use go_url_shortener.Repository.Urls.Lasting.{
  Lasts, create-Lasts, update-Lasts, delete-Lasts, reads-Lasts,
}
use go_url_shortener.Cache.{Redis, Json, Settings}
use go_url_shortener.Service.Validate.{Net, validate_url}
use go_url_shortener.Service.Urls.{Host, on_db}
use go_url_shortener.Service.Urls
use go_url_shortener.Service.Urls.Created.{IsCreated, create_short_url-IsGenerated}
use go_url_shortener.Service.Urls.Alias.{create_short_url_with_alias-IsCreated}
use go_url_shortener.Service.Urls.Keeps.{create_short_url_keeps, create_short_url_with_alias_keeps}
use go_url_shortener.Service.Cached.{Site}
use go_url_shortener.Service.Cached.History.{
  Call, creates, aliases, reads, lists, redirects, updates, deletes, waits, evicts, Answer, row,
  rows, done, base_step, cached_step, after_base, after_cached,
}
use go_url_shortener.Service.Cached.History.Hosts.{IsUp}
use go_url_shortener.Service.Cached.History.Sound.{IsSound}
use go_url_shortener.Service.Cached.History.Refines.{step-Matches, after_cached-IsSound}

-- A call that neither updates nor deletes the row of an id.
unfoldable pub Spares : ℤ → Call → Type 0
Spares id (updates url) = url.id ≢ id
Spares id (deletes k) = k ≢ id
Spares id (creates original user) = Unit
Spares id (aliases original alias user) = Unit
Spares id (reads k) = Unit
Spares id (lists user) = Unit
Spares id (redirects code answers) = Unit
Spares id (waits n) = Unit
Spares id (evicts key) = Unit

module _ (net : Net) (url : Url) where
  checked-Lasts :
      (v : Result (Unit {0})) (edit : Url) (h : Host)
      → edit.id ≢ url.id
      → Lasts url h.db
      → Lasts url ((from_result v >> on_db (update edit)) h).1.db
  checked-Lasts (ok _) edit h ne l = update-Lasts url edit h.db ne l
  checked-Lasts (err e) edit h ne l = l

  base_step-Lasts :
      (c : Call) (h : Host) → Spares url.id c → Lasts url h.db → Lasts url (base_step net c h).1.db
  unfolding Spares base_step Urls.update_url Urls.delete_url Urls.get_url_by_id
      Urls.get_original_url Urls.list_urls
  base_step-Lasts (creates original user) h spares l =
      create_short_url_keeps (Lasts url) (create-Lasts url) net original user h l
  base_step-Lasts (aliases original alias user) h spares l =
      create_short_url_with_alias_keeps (Lasts url) (create-Lasts url) net original user alias h l
  base_step-Lasts (reads id) h spares l = (reads-Lasts url id "" h.db l).0
  base_step-Lasts (lists user) h spares l = elim (Bool-cases (is_positive user)) [
    | inl given ↦ rw given (reads-Lasts url user "" h.db l).1
    | inr missing ↦ rw missing l
  ]
  base_step-Lasts (redirects code answers) h spares l = (reads-Lasts url url.id code h.db l).2
  base_step-Lasts (updates edit) h spares l =
      checked-Lasts (validate_url net edit.original_url) edit h spares l
  base_step-Lasts (deletes id) h spares l = delete-Lasts url id h.db spares l
  base_step-Lasts (waits n) h spares l = record {
    valid = record { fresh = l.valid.fresh; distinct = l.valid.distinct };
    stored = l.stored;
    live = l.live;
  }
  base_step-Lasts (evicts key) h spares l = l

  after_base-Lasts :
      (cs : List Call) (h : Host)
      → All (Spares url.id) cs
      → Lasts url h.db
      → Lasts url (after_base net cs h).db
  unfolding after_base
  after_base-Lasts [] h spares l = l
  after_base-Lasts (c ∷ cs) h spares l =
      after_base-Lasts cs (base_step net c h).1 spares.1 (base_step-Lasts c h spares.0 l)

created-Lasts :
    (original : String) (user : ℤ) (url : Url) (h h' : Host)
    → IsValid h'.db
    → IsCreated original user url h h'
    → Lasts url h'.db
unfolding is_live
created-Lasts original user url h h' v c = record {
  valid = v;
  stored = ground (arith, c.table, id_eq_iff url.id url.id);
  live = λ t. ground (arith, c.table, c.active, c.lasting, eq_refl url.short_code);
}

-- What createURLResponse of handler/url_handler.go calls, with or without an alias.
unfoldable pub creation : String → Option String → ℤ → Call
creation original none user = creates original user
creation original (some alias) user = aliases original alias user

abbrev row_of : Answer → Option (Result Url)
row_of (row r) = some r
row_of (rows r) = none
row_of (done r) = none

row_inj : {r : Result Url} {url : Url} → row r ≡ row (ok url) → r ≡ ok url
row_inj e = some_inj (ap row_of e)

creation-Lasts :
    (net : Net) (original : String) (alias : Option String) (user : ℤ) (url : Url) (h : Host)
    → IsValid (base_step net (creation original alias user) h).1.db
    → (base_step net (creation original alias user) h).0 ≡ row (ok url)
    → Lasts url (base_step net (creation original alias user) h).1.db
      × (url.original_url ≡ trim_space original)
unfolding creation base_step
creation-Lasts net original none user url h v e =
    let h' = (Urls.create_short_url net original user h).1 in
    let (_, _, (created, _, _)) =
      create_short_url-IsGenerated net original user url h h' (λ i. (row_inj e i, h')) in
    (created-Lasts original user url h h' v created, created.destination)
creation-Lasts net original (some alias) user url h v e =
    let h' = (Urls.create_short_url_with_alias net original alias user h).1 in
    let (_, _, _, created, _, _) =
      create_short_url_with_alias-IsCreated net original alias user url h h'
        (λ i. (row_inj e i, h')) in
    (created-Lasts original user url h h' v created, created.destination)

redirect-Lasts :
    (url : Url) (h : Host)
    → IsUp h.db
    → Lasts url h.db
    → (Urls.get_original_url url.short_code h).0 ≡ ok url
unfolding Urls.get_original_url find_by_short_code select_by_short_code
redirect-Lasts url h up l = rw up (ap row_or_error (l.live h.db.now))

-- A short URL works: over a database and a Redis client that answer, from a site whose cache agrees
-- with a valid table, where the cached service has created a URL, with an alias or without, the URL
-- leads to the trimmed destination, and after any sequence of calls that neither update nor delete
-- it, of waits and of evictions, a redirect of its short code is answered with it, also where the
-- Redis server refuses the redirect's commands or loses its answers to them.
pub created_redirects :
    (redis : Redis) (json : Json) (settings : Settings) (net : Net)
    (connected : settings.has_client ≡ true) (original : String) (alias : Option String) (user : ℤ)
    (url : Url) (cs : List Call) (answers : List Reply) (s : Site redis)
    → IsSound redis json settings net connected s
    → (cached_step redis json settings net (creation original alias user) s).0 ≡ row (ok url)
    → All (Spares url.id) cs
    → (url.original_url ≡ trim_space original)
      × ((cached_step redis json settings net (redirects url.short_code answers) (
            after_cached redis json settings net cs
              (cached_step redis json settings net (creation original alias user) s).1)).0
          ≡ row (ok url))
unfolding base_step
created_redirects redis json settings net connected original alias user url cs answers s sound made
      spares =
    let (answer, host, sound') =
      step-Matches redis json settings net connected (creation original alias user) s sound in
    let t = (cached_step redis json settings net (creation original alias user) s).1 in
    let valid = subst (λ (h : Host). IsValid h.db) host sound'.valid in
    let (lasts, leads) =
      creation-Lasts net original alias user url s.host valid (sym answer ∙ made) in
    let (hosts, last) = after_cached-IsSound redis json settings net connected cs t sound' in
    let u = after_cached redis json settings net cs t in
    let (same, _, _) =
      step-Matches redis json settings net connected (redirects url.short_code answers) u last in
    let kept : Lasts url u.host.db =
      subst (λ (h : Host). Lasts url h.db) (sym (hosts ∙ ap (after_base net cs) host))
        (after_base-Lasts net url cs (base_step net (creation original alias user) s.host).1 spares
          lasts) in
    (leads, same ∙ ap row (redirect-Lasts url u.host last.up kept))
