-- ===== src/Repository/Keys/Results.antt =====
-- The table of keys after a call of repository/idempotency_repository.go that succeeded.
use go_url_shortener.Base.{
  ◌≡◌, refl, sym, ap, ◌∙◌, true, Option, some, List, ◌∷◌, map, find, arith, Bool-cases, inl, inr,
}
use go_url_shortener.Base.Int.{ℤ}
use go_url_shortener.Base.Text.{String}
use go_url_shortener.Model.{IdempotencyRecord, completed}
use go_url_shortener.Outcome.{Result, ok, err, ok_inj, message, wrapped, map_error-eq-ok}
use go_url_shortener.Db.{
  Db, Reply, served, refused, lost, answer, exec, exec-eq-ok, later_replies, next_reply,
}
use go_url_shortener.Repository.Keys.{
  get, reserve, complete, select_key, insert_key, reservation, is_key, complete_key, complete_row,
  check_one, JsonText, with_body, store_body,
}
use go_url_shortener.Repository.Keys.Lifecycle.{lookup, is_key_self}

pub get-eq-ok :
    (user : ℤ) (key : String) (d e : Db) (o : Option IdempotencyRecord)
    → get user key d ≡ (ok o, e)
    → lookup user key e ≡ o
unfolding get select_key
get-eq-ok user key d e o h =
    let h' =
      exec-eq-ok (select_key user key) d o e
        (map_error-eq-ok (wrapped "get idempotency record") (exec (select_key user key)) d o e h) in
    ap (λ x. lookup user key x.1) (sym h') ∙ ok_inj (ap (λ x. x.0) h')

-- A reservation that was made stands in front of the rows, none of which had the key.
pub reserve-eq-true :
    (user : ℤ) (key : String) (d e : Db)
    → reserve user key d ≡ (ok true, e)
    → e.keys ≡ reservation user key ∷ d.keys
unfolding reserve insert_key
reserve-eq-true user key d e h =
    let h' = exec-eq-ok (insert_key (reservation user key)) d true e (
      map_error-eq-ok (wrapped "reserve idempotency record")
        (exec (insert_key (reservation user key))) d true e h) in
    ground (arith, h')

-- What a completion that succeeded has stored.
abbrev Stores : IdempotencyRecord → Result String → Db → Db → Type 0
Stores r o d e =
    (text : String) × (o ≡ ok text)
    × (e.keys ≡ map (complete_row (record r { response_body = text })) d.keys)

completed-rows :
    (r : IdempotencyRecord) (o : Result String) (q : Reply) (d e : Db)
    → check_one (answer q (with_body complete_key r o) d) ≡ (ok tt, e)
    → Stores r o d e
unfolding complete_key
completed-rows r (err x) served d e h = absurd (grind arith)
completed-rows r (err x) refused d e h = absurd (grind arith)
completed-rows r (err x) lost d e h = absurd (grind arith)
completed-rows r (ok text) served d e h = (text, refl, ap (λ x. x.1.keys) (sym h))
completed-rows r (ok text) refused d e h = absurd (grind arith)
completed-rows r (ok text) lost d e h = absurd (grind arith)

complete-rows :
    (json : JsonText) (r : IdempotencyRecord) (d e : Db)
    → complete json r d ≡ (ok tt, e)
    → Stores r (json.jsonb r.response_body) d e
unfolding complete store_body
complete-rows json r d e h = elim (Bool-cases (json.valid r.response_body)) [
  | inl valid ↦
      completed-rows r (json.jsonb r.response_body) (next_reply d.replies)
        (record d { replies = later_replies d.replies }) e (rw valid at h)
  | inr bad ↦
      let no_result : ◌≡◌ {A = Result (Unit {0}) × Db} (err (message "invalid response JSON"), d)
          (ok tt, e) =
        rw bad at h in
      absurd (grind arith)
]

-- A record whose completion succeeds is what its key has from then on, with the body that the column
-- makes of it.
pub complete-eq-ok :
    (json : JsonText) (r : IdempotencyRecord) (d e : Db) (rest : List IdempotencyRecord)
    → d.keys ≡ reservation r.user_id r.idempotency_key ∷ rest
    → complete json r d ≡ (ok tt, e)
    → (text : String) × (json.jsonb r.response_body ≡ ok text)
      × (lookup r.user_id r.idempotency_key e
          ≡ some (record r { response_body = text; state = completed }))
unfolding complete_row is_key
complete-eq-ok json r d e rest first h =
    let self = is_key_self r.user_id r.idempotency_key in
    let s = complete-rows json r d e h in
    let rows = s.2 ∙ ap (map (complete_row (record r { response_body = s.0 }))) first in
    let own = find (is_key r.user_id r.idempotency_key) in
    (s.0, s.1, ap own rows ∙ ground (arith, self))
