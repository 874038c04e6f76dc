-- ===== src/Handler/Create/Replay.antt =====
-- CreateURL of handler/url_handler.go with the idempotency keys of PostgreSQL: what a request with a
-- key that has a record is answered.
use Prim.Native.String.{count}
use go_url_shortener.Base.{
  ℕ, ◌≡◌, ◌≢◌, refl, ap, ◌∙◌, true, false, none, some, List, ◌∷◌, exists, find-eq-none_of_exists,
  ltb, arith,
}
use go_url_shortener.Base.Int.{ℤ, id_eq}
use go_url_shortener.Base.Text.{String, ◌==◌, eq_iff, len, trim_space}
use go_url_shortener.Model.{User, IdempotencyRecord, completed}
use go_url_shortener.Outcome.{Error, ok}
use go_url_shortener.Db.{Db, served, next_reply, later_replies}
use go_url_shortener.Repository.Keys.{
  get, reserve, complete, select_key, insert_key, reservation, is_key, JsonText,
}
use go_url_shortener.Repository.Keys.Lifecycle.{lookup, is_key_self}
use go_url_shortener.Repository.Keys.History.{Call, run, completed_forever}
use go_url_shortener.Service.Urls.{Host, on_db, put_db}
use go_url_shortener.Handler.Base.{
  UserClaims, Request, json_text, http_error, error_text, UrlService,
}
use go_url_shortener.Handler.Create.{
  IdempotencyRepository, Environment, rejected, create_url_response, in_progress, answer_by,
  looked_up, create_url,
}

-- The repository on the database of a host.
abbrev pub postgres : JsonText → IdempotencyRepository Host
postgres json = record {
  get = λ user key. on_db (get user key);
  reserve = λ user key. on_db (reserve user key);
  complete = λ r. on_db (complete json r);
}

-- A signed-in user posts with an idempotency key that is not too long.
pub record IsKeyed (user : UserClaims) (key : String) (r : Request) : Type 0 where
  pub posted : r.method ≡ "POST"
  pub signed_in : r.user ≡ some user
  pub keyed : trim_space r.idempotency_key ≡ key
  pub short : ltb 255 (len key) ≡ false
  pub given : key ≢ ""

-- The host after a read that the database has served.
abbrev pub after_reply : Host → Host
after_reply h = record h { db = record h.db { replies = later_replies h.db.replies } }

get_served :
    (user : ℤ) (key : String) (d : Db)
    → next_reply d.replies ≡ served
    → get user key d ≡ (ok (lookup user key d), record d { replies = later_replies d.replies })
unfolding get select_key
get_served user key d h = rw h refl

-- The host after a served reservation of a key.
abbrev pub after_reserve : ℤ → String → Host → Host
after_reserve user key h = record h {
  db = record h.db {
    replies = later_replies h.db.replies;
    keys = reservation user key ∷ h.db.keys;
  };
}

-- Nobody has used the key, and the table can take it.
pub record IsFree (user : ℤ) (key : String) (d : Db) : Type 0 where
  pub unused : exists (is_key user key) d.keys ≡ false
  pub fits : ltb 255 (count key) ≡ false
  pub known : exists (λ (u : User). id_eq u.id user) d.users ≡ true

reserve_served :
    (user : ℤ) (key : String) (h : Host)
    → next_reply h.db.replies ≡ served
    → IsFree user key h.db
    → on_db (reserve user key) h ≡ (ok true, after_reserve user key h)
unfolding reserve insert_key
reserve_served user key h s f = rw (s, f.fits, f.unused, f.known) refl

module _ (env : Environment) (service : UrlService Host) (json : JsonText) where
  pub create_url_keyed :
      (user : UserClaims) (key : String) (r : Request) (h : Host)
      → IsKeyed user key r
      → create_url env service (postgres json) true r h
        ≡ looked_up env service (postgres json) r user.user_id key (on_db (get user.user_id key) h)
  unfolding create_url
  create_url_keyed user key r h k =
      let nonempty : (key == "") ≡ false = ground (arith, eq_iff key "", k.given) in
      rw (k.posted, k.signed_in, k.keyed, k.short, nonempty) refl

  -- A request whose key has a record is answered from the record.
  pub create_url_answered :
      (user : UserClaims) (key : String) (r : Request) (rec : IdempotencyRecord) (h : Host)
      → IsKeyed user key r
      → next_reply h.db.replies ≡ served
      → lookup user.user_id key h.db ≡ some rec
      → create_url env service (postgres json) true r h
        ≡ (answer_by env service rec rec.state, after_reply h)
  create_url_answered user key r rec h k s found =
      create_url_keyed user key r h k
      ∙ ap (λ p. looked_up env service (postgres json) r user.user_id key (put_db h p))
          (get_served user.user_id key h.db s)
      ∙ rw found refl

  -- The state of a host after a history of the table of keys.
  abbrev pub later : Host → List Call → Host
  later h cs = record h { db = run json h.db cs }

  -- Idempotency: once the record of a key is completed, a later post of the same user with that key,
  -- whatever its body, is answered with the status and the body of the record, if the database serves
  -- the read. It calls the service not at all, so that it creates nothing, and changes no table. This
  -- holds after every history of the table of keys.
  pub create_url_replays :
      (user : UserClaims) (key : String) (p : IdempotencyRecord) (h : Host) (cs : List Call)
      (r : Request)
      → lookup user.user_id key h.db ≡ some p
      → p.state ≡ completed
      → IsKeyed user key r
      → next_reply (later h cs).db.replies ≡ served
      → create_url env service (postgres json) true r (later h cs)
        ≡ (json_text p.status_code p.response_body, after_reply (later h cs))
  create_url_replays user key p h cs r found done k s =
      create_url_answered user key r p (later h cs) k s
        (completed_forever json user.user_id key p h.db cs found done)
      ∙ ap (λ state. (answer_by env service p state, after_reply (later h cs))) done

  -- A reservation is never given up: a post with a free key whose creation is rejected leaves the key
  -- reserved, where the database serves the read and the reservation and the creation does not touch
  -- the table of keys. The next post of the user with that key, whatever its body, is answered 409 and
  -- creates nothing, if the database serves its read.
  pub rejected_locks :
      (user : UserClaims) (key : String) (r again : Request) (status : ℕ) (e : Error) (h h' : Host)
      → IsKeyed user key r
      → IsKeyed user key again
      → IsFree user.user_id key h.db
      → next_reply h.db.replies ≡ served
      → next_reply (later_replies h.db.replies) ≡ served
      → create_url_response env service r user.user_id
          (after_reserve user.user_id key (after_reply h))
        ≡ (rejected status e, h')
      → h'.db.keys ≡ reservation user.user_id key ∷ h.db.keys
      → next_reply h'.db.replies ≡ served
      → (create_url env service (postgres json) true r h
          ≡ (http_error status (error_text env.texts e), h'))
        × (create_url env service (postgres json) true again h'
            ≡ (in_progress env service, after_reply h'))
  rejected_locks user key r again status e h h' k k' f s s' made same s'' =
      let none_yet : lookup user.user_id key h.db ≡ none =
        find-eq-none_of_exists (is_key user.user_id key) h.db.keys f.unused in
      let locked : lookup user.user_id key h'.db ≡ some (reservation user.user_id key) =
        rw (same, is_key_self user.user_id key) refl in
      let freed : IsFree user.user_id key (after_reply h).db = record {
        unused = f.unused;
        fits = f.fits;
        known = f.known;
      } in
      (
        create_url_keyed user key r h k
            ∙ ap (λ p. looked_up env service (postgres json) r user.user_id key (put_db h p))
                (get_served user.user_id key h.db s)
            ∙ rw (none_yet, reserve_served user.user_id key (after_reply h) s' freed, made) refl,
        create_url_answered user key again (reservation user.user_id key) h' k' s'' locked,
      )
