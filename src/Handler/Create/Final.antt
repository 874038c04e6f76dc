-- ===== src/Handler/Create/Final.antt =====
-- CreateURL of handler/url_handler.go with the idempotency keys of PostgreSQL: from the first answer for
-- a key to every later one.
use go_url_shortener.Base.{
  ℕ, ◌≡◌, refl, sym, ap, ◌∙◌, subst, Bool, true, false, Option, none, some, List, ◌∷◌, arith,
  Bool-cases, inl, inr,
}
use go_url_shortener.Base.Int.{ℤ}
use go_url_shortener.Base.Text.{String, ◌==◌, trim_space}
use go_url_shortener.Model.{Url, IdempotencyRecord, KeyState, pending, completed}
use go_url_shortener.Outcome.{Result, ok, err}
use go_url_shortener.Db.{served, next_reply}
use go_url_shortener.Repository.Keys.{get, reserve, complete, reservation, JsonText}
use go_url_shortener.Repository.Keys.Lifecycle.{lookup}
use go_url_shortener.Repository.Keys.Results.{get-eq-ok, reserve-eq-true, complete-eq-ok}
use go_url_shortener.Repository.Keys.History.{Call}
use go_url_shortener.Repository.Keys.Printed.{
  AllPrinted, get-AllPrinted, reserve-AllPrinted, lookup-IsPrinted,
}
use go_url_shortener.Service.Urls.{Host, on_db}
use go_url_shortener.Handler.Base.{UserClaims, Request, Response, json_text, UrlService}
use go_url_shortener.Handler.Create.{
  IdempotencyRepository, Environment, Created, created, rejected, create_url_response, answer_by,
  record_of, stored, create_for, CreateUrlRequest, done, again, reserved, complete_with, looked_up,
  create_url,
}
use go_url_shortener.Handler.Create.Replay.{
  postgres, IsKeyed, after_reply, later, create_url_keyed, create_url_replays,
}

-- The creations of a service leave the table of keys alone.
pub record LeavesKeys (service : UrlService Host) : Type 0 where
  pub generated :
      (original : String) (user : ℤ) (h : Host)
      → (service.create_short_url original user h).1.db.keys ≡ h.db.keys
  pub aliased :
      (original alias : String) (user : ℤ) (h : Host)
      → (service.create_short_url_with_alias original alias user h).1.db.keys ≡ h.db.keys

module _ (json : JsonText) (user : ℤ) (key : String) where
  -- An answer with a body that is JSON already is what the key has a completed record of, with the body
  -- as the column prints it.
  pub record IsRecorded (status : ℕ) (body : String) (h : Host) : Type 0 where
    pub rec : IdempotencyRecord
    pub held : lookup user key h.db ≡ some rec
    pub finished : rec.state ≡ completed
    pub same_status : rec.status_code ≡ status
    pub same_body : json.jsonb body ≡ ok rec.response_body

  abbrev Settles : Response × Host → Type 0
  Settles (response, h) =
      (status : ℕ) (body : String) → response ≡ json_text status body → IsRecorded status body h

  module _ (env : Environment) (service : UrlService Host) where
    abbrev repo : IdempotencyRepository Host
    repo = postgres json

    answer_by-Settles :
        (rec : IdempotencyRecord) (state : KeyState) (h : Host)
        → AllPrinted json h.db
        → lookup user key h.db ≡ some rec
        → rec.state ≡ state
        → Settles (answer_by env service rec state, h)
    answer_by-Settles rec pending h printed held e status body j = absurd (grind arith)
    answer_by-Settles rec completed h printed held e status body j =
        let own : json.jsonb rec.response_body ≡ ok rec.response_body =
          lookup-IsPrinted json user key h.db rec printed held in
        let same : rec.response_body ≡ body = grind arith in
        record {
          rec = rec;
          held = held;
          finished = e;
          same_status = grind arith;
          same_body = ap json.jsonb (sym same) ∙ own;
        }

    again-Settles :
        (x : Result (Option IdempotencyRecord) × Host)
        → ((o : Option IdempotencyRecord) → x.0 ≡ ok o → lookup user key x.1.db ≡ o)
        → AllPrinted json x.1.db
        → Settles (again env service repo x)
    again-Settles (err e, h) read printed status body j = absurd (grind arith)
    again-Settles (ok none, h) read printed status body j = absurd (grind arith)
    again-Settles (ok (some rec), h) read printed status body j =
        answer_by-Settles rec rec.state h printed (read (some rec) refl) refl status body j

    done-Settles :
        (rec : IdempotencyRecord) (x : Result (Unit {0}) × Host)
        → rec.state ≡ completed
        → (x.0 ≡ ok tt
            → (text : String) × (json.jsonb rec.response_body ≡ ok text)
              × (lookup user key x.1.db ≡ some (record rec { response_body = text })))
        → Settles (done env service repo rec x)
    done-Settles rec (err e, h) finished held status body j = absurd (grind arith)
    done-Settles rec (ok tt, h) finished held status body j =
        let s = held refl in
        let same : rec.response_body ≡ body = grind arith in
        record {
          rec = record rec { response_body = s.0 };
          held = s.2;
          finished = finished;
          same_status = grind arith;
          same_body = ap json.jsonb (sym same) ∙ s.1;
        }

    get-settled :
        (h : Host) (o : Option IdempotencyRecord)
        → (repo.get user key h).0 ≡ ok o
        → lookup user key (repo.get user key h).1.db ≡ o
    get-settled h o e =
        get-eq-ok user key h.db (repo.get user key h).1.db o (λ i. (e i, (get user key h.db).1))

    complete_with-Settles :
        (x : Created × Host) (rest : List IdempotencyRecord)
        → x.1.db.keys ≡ reservation user key ∷ rest
        → Settles (complete_with env service repo user key x)
    complete_with-Settles (rejected status' e, h) rest first status body j = absurd (grind arith)
    complete_with-Settles (created text status', h) rest first status body j =
        let rec = record_of env service repo user key text status' in
        done-Settles rec (repo.complete rec h) refl
          (λ e.
            complete-eq-ok json rec h.db (repo.complete rec h).1.db rest first
              (λ i. (e i, (complete json rec h.db).1)))
          status body j

    module _ (leaves : LeavesKeys service) where
      stored_keys : (x : Result Url × Host) → (stored env service x).1.db.keys ≡ x.1.db.keys
      stored_keys (err e, h) = refl
      stored_keys (ok url, h) = refl

      create_for_keys :
          (decoded : Result CreateUrlRequest) (h : Host)
          → (create_for env service user decoded h).1.db.keys ≡ h.db.keys
      create_for_keys (err e) h = refl
      create_for_keys (ok request) h = elim (Bool-cases (trim_space request.alias == "")) [
        | inl plain ↦ rw plain (stored_keys _ ∙ leaves.generated request.url user h)
        | inr named ↦ rw named (stored_keys _ ∙ leaves.aliased request.url request.alias user h)
      ]

      reserved-Settles :
          (r : Request) (x : Result Bool × Host) (rest : List IdempotencyRecord)
          → (x.0 ≡ ok true → x.1.db.keys ≡ reservation user key ∷ rest)
          → AllPrinted json x.1.db
          → Settles (reserved env service repo r user key x)
      unfolding create_url_response
      reserved-Settles r (err e, h) rest first printed status body j = absurd (grind arith)
      reserved-Settles r (ok false, h) rest first printed status body j =
          again-Settles (repo.get user key h) (get-settled h)
            (get-AllPrinted json user key h.db printed) status body j
      reserved-Settles r (ok true, h) rest first printed status body j =
          complete_with-Settles (create_url_response env service r user h) rest
            (create_for_keys (env.decode r.body) h ∙ first refl) status body j

      looked_up-Settles :
          (r : Request) (x : Result (Option IdempotencyRecord) × Host)
          → ((o : Option IdempotencyRecord) → x.0 ≡ ok o → lookup user key x.1.db ≡ o)
          → AllPrinted json x.1.db
          → Settles (looked_up env service repo r user key x)
      looked_up-Settles r (err e, h) read printed status body j = absurd (grind arith)
      looked_up-Settles r (ok (some rec), h) read printed status body j =
          answer_by-Settles rec rec.state h printed (read (some rec) refl) refl status body j
      looked_up-Settles r (ok none, h) read printed status body j =
          reserved-Settles r (repo.reserve user key h) h.db.keys
            (λ e.
              reserve-eq-true user key h.db (repo.reserve user key h).1.db
                (λ i. (e i, (reserve user key h.db).1)))
            (reserve-AllPrinted json user key h.db printed) status body j

module _ (json : JsonText) (env : Environment) (service : UrlService Host)
    (leaves : LeavesKeys service) where
  -- An answer with a body of JSON leaves a completed record with that status and that body, printed.
  create_url-IsRecorded :
      (user : UserClaims) (key : String) (r : Request) (h h' : Host) (status : ℕ) (body : String)
      → AllPrinted json h.db
      → IsKeyed user key r
      → create_url env service (postgres json) true r h ≡ (json_text status body, h')
      → IsRecorded json user.user_id key status body h'
  create_url-IsRecorded user key r h h' status body printed k made =
      let e = sym (create_url_keyed env service json user key r h k) ∙ made in
      let settled =
        looked_up-Settles json user.user_id key env service leaves r
          (on_db (get user.user_id key) h) (get-settled json user.user_id key env service h)
          (get-AllPrinted json user.user_id key h.db printed) status body (ap (λ x. x.0) e) in
      subst (IsRecorded json user.user_id key status body) (ap (λ x. x.1) e) settled

  -- Idempotency end to end, over a service whose creations leave the table of keys alone and a
  -- table whose bodies are as PostgreSQL prints them: where a post with a key was answered with a
  -- status and a JSON body, the column JSONB takes that body, and every later post of the same user
  -- with that key, whatever its body, and whatever happens to the table of keys in between, is
  -- answered with the same status and with the first body as PostgreSQL prints it, if the database
  -- answers its one query; it changes nothing.
  pub create_url_once :
      (user : UserClaims) (key : String) (r again : Request) (h h' : Host) (status : ℕ)
      (body : String) (cs : List Call)
      → AllPrinted json h.db
      → IsKeyed user key r
      → create_url env service (postgres json) true r h ≡ (json_text status body, h')
      → IsKeyed user key again
      → next_reply (later env service json h' cs).db.replies ≡ served
      → (text : String) × (json.jsonb body ≡ ok text)
        × (create_url env service (postgres json) true again (later env service json h' cs)
            ≡ (json_text status text, after_reply (later env service json h' cs)))
  create_url_once user key r again h h' status body cs printed k made k' s =
      let d = create_url-IsRecorded user key r h h' status body printed k made in
      (
        d.rec.response_body,
        d.same_body,
        create_url_replays env service json user key d.rec h' cs again d.held d.finished k' s
            ∙ ap
                (λ n. (json_text n d.rec.response_body, after_reply (later env service json h' cs)))
                d.same_status,
      )
