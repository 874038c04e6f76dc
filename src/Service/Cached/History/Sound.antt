-- ===== src/Service/Cached/History/Sound.antt =====
-- The states that a run of CachedURLService of service/cached_url_service.go goes through on servers
-- that answer, and the calls that change no row that is there.
use go_url_shortener.Base.{ℕ, ◌≡◌, refl, sym, ap, ◌∙◌, subst, true, List, [], arith}
use go_url_shortener.Base.Int.{ℤ}
use go_url_shortener.Base.Text.{String}
use go_url_shortener.Db.{Reply}
use go_url_shortener.Repository.Urls.Invariant.{IsValid, writes-IsValid}
use go_url_shortener.Cache.{Redis, Json, Settings}
use go_url_shortener.Service.Validate.{Net}
use go_url_shortener.Service.Urls.{Host, on_db, put_db, new_url}
use go_url_shortener.Service.Urls as Base
use go_url_shortener.Service.Urls.Keeps.{create_short_url_keeps, create_short_url_with_alias_keeps}
use go_url_shortener.Service.Cached.{
  Site, on_host, put_host, invalidate, after_update, after_delete, delete_found,
}
use go_url_shortener.Service.Cached
use go_url_shortener.Service.Cached.Coherence.{Agrees-del, IsCoherent}
use go_url_shortener.Service.Cached.Reads.{get_original_url_transparent}
use go_url_shortener.Service.Cached.Creations.{creations-IsCoherent}
use go_url_shortener.Service.Cached.History.{
  creates, aliases, reads, lists, redirects, waits, evicts, Answer, row, with_answers, base_step,
  cached_step,
}
use go_url_shortener.Service.Cached.History.Hosts.{
  IsUp, create_short_url-IsUp, create_short_url_with_alias-IsUp, get_original_url_same,
  get_url_by_id_same, list_urls_same, cached_get_original_url_same,
}

module _ (redis : Redis) (json : Json) (settings : Settings) (net : Net)
    (connected : settings.has_client ≡ true) where
  -- A site between two calls, on servers that answer.
  pub record IsSound (s : Site redis) : Type 0 where
    pub coherent : IsCoherent redis json s
    pub valid : IsValid s.host.db
    pub up : IsUp s.host.db
    pub heard : s.cache.answers ≡ []

  -- A step of the cached service answers as one of the other service and leaves the same host.
  abbrev pub Matches : Answer × Site redis → Answer × Host → Type 0
  Matches (a, s) (b, h) = (a ≡ b) × (s.host ≡ h) × IsSound s

  module _ (s : Site redis) (sound : IsSound s) where
    create-IsValid :
        (original : String) (user : ℤ)
        → IsValid (Base.create_short_url net original user s.host).1.db
    create-IsValid original user =
        create_short_url_keeps IsValid (λ url d v. (writes-IsValid url url.id d v).0) net original
          user s.host sound.valid

    alias-IsValid :
        (original alias : String) (user : ℤ)
        → IsValid (Base.create_short_url_with_alias net original alias user s.host).1.db
    alias-IsValid original alias user =
        create_short_url_with_alias_keeps IsValid (λ url d v. (writes-IsValid url url.id d v).0) net
          original user alias s.host sound.valid

    pub creates-Matches :
        (original : String) (user : ℤ)
        → Matches
            (cached_step redis json settings net (creates original user) s)
            (base_step net (creates original user) s.host)
    unfolding cached_step base_step Cached.create_short_url
    creates-Matches original user = (
      refl,
      refl,
      record {
        coherent = (creations-IsCoherent redis json net original "" user s sound.coherent).0;
        valid = create-IsValid original user;
        up = create_short_url-IsUp net s.host sound.up original user;
        heard = sound.heard;
      },
    )

    pub aliases-Matches :
        (original alias : String) (user : ℤ)
        → Matches
            (cached_step redis json settings net (aliases original alias user) s)
            (base_step net (aliases original alias user) s.host)
    unfolding cached_step base_step Cached.create_short_url_with_alias
    aliases-Matches original alias user = (
      refl,
      refl,
      record {
        coherent = (creations-IsCoherent redis json net original alias user s sound.coherent).1;
        valid = alias-IsValid original alias user;
        up = create_short_url_with_alias-IsUp net s.host sound.up original alias user;
        heard = sound.heard;
      },
    )

    -- The host after a read is the host before it.
    same-IsSound : (h : Host) → h ≡ s.host → IsSound (record s { host = h })
    same-IsSound h e = subst (λ (g : Host). IsSound (record s { host = g })) (sym e) sound

    pub reads-Matches :
        (id : ℤ)
        → Matches
            (cached_step redis json settings net (reads id) s)
            (base_step net (reads id) s.host)
    unfolding cached_step base_step Cached.get_url_by_id Base.get_url_by_id
    reads-Matches id = (
      refl,
      refl,
      same-IsSound (Base.get_url_by_id id s.host).1 (get_url_by_id_same net s.host sound.up id),
    )

    pub lists-Matches :
        (user : ℤ)
        → Matches
            (cached_step redis json settings net (lists user) s)
            (base_step net (lists user) s.host)
    unfolding cached_step base_step Cached.list_urls
    lists-Matches user = (
      refl,
      refl,
      same-IsSound (Base.list_urls user s.host).1 (list_urls_same net s.host sound.up user),
    )

    pub waits-Matches :
        (n : ℕ)
        → Matches (cached_step redis json settings net (waits n) s) (base_step net (waits n) s.host)
    unfolding cached_step base_step
    waits-Matches n = (
      refl,
      refl,
      record {
        coherent = λ t code value url le seen read.
            sound.coherent t code value url (omega arith) seen read;
        valid = record { fresh = sound.valid.fresh; distinct = sound.valid.distinct };
        up = sound.up;
        heard = sound.heard;
      },
    )

    pub evicts-Matches :
        (key : String)
        → Matches
            (cached_step redis json settings net (evicts key) s)
            (base_step net (evicts key) s.host)
    unfolding cached_step base_step
    evicts-Matches key = (
      refl,
      refl,
      record {
        coherent =
            Agrees-del redis json s.host.db.now s.host.db.now s.host.db.urls s.cache.store key
              (omega arith) sound.coherent;
        valid = sound.valid;
        up = sound.up;
        heard = sound.heard;
      },
    )

    pub redirects-Matches :
        (code : String) (answers : List Reply)
        → Matches
            (cached_step redis json settings net (redirects code answers) s)
            (base_step net (redirects code answers) s.host)
    unfolding cached_step base_step
    redirects-Matches code answers =
        let before = with_answers redis json settings net answers s in
        let after = (Cached.get_original_url redis json settings true code before).1 in
        let (same, kept) =
          get_original_url_transparent redis json settings true code before sound.coherent
            (rw sound.up refl) in
        let host = cached_get_original_url_same redis json settings code before sound.up in
        (
          ap row same,
          host ∙ sym (get_original_url_same net s.host sound.up code),
          record {
            coherent = kept;
            valid = subst (λ (h : Host). IsValid h.db) (sym host) sound.valid;
            up = subst (λ (h : Host). IsUp h.db) (sym host) sound.up;
            heard = refl;
          },
        )
