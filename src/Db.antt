-- ===== src/Db.antt =====
-- The PostgreSQL database behind the package repository: its tables as lists of rows, newest
-- insertion first, the sequences of their ids, the clock that NOW() reads, and how the server
-- answers the statements to come.
use go_url_shortener.Base.{ℕ, List, [], ◌∷◌, ◌≡◌, arith}
use go_url_shortener.Model.{Url, User, RefreshToken, ClickEvent, IdempotencyRecord}
use go_url_shortener.Outcome.{driver, ok, err, Action}

-- A statement is served; or it fails before it is run; or it is run and its answer is lost.
pub data Reply : Type 0 where
  served refused lost : Reply

pub record Db : Type 0 where
  pub now : ℕ
  pub replies : List Reply
  pub urls : List Url
  pub next_url : ℕ
  pub users : List User
  pub next_user : ℕ
  pub tokens : List RefreshToken
  pub next_token : ℕ
  pub keys : List IdempotencyRecord
  pub clicks : List ClickEvent
  pub next_click : ℕ

abbrev pub empty_db : Db
empty_db = record {
  now = 0;
  replies = [];
  urls = [];
  next_url = 1;
  users = [];
  next_user = 1;
  tokens = [];
  next_token = 1;
  keys = [];
  clicks = [];
  next_click = 1;
}

abbrev pub next_reply : List Reply → Reply
next_reply [] = served
next_reply (r ∷ rs) = r

abbrev pub later_replies : List Reply → List Reply
later_replies [] = []
later_replies (r ∷ rs) = rs

abbrev pub answer : {A : Type 0} → Reply → Action Db A → Action Db A
answer served query d = query d
answer refused query d = (err driver, d)
answer lost query d = (err driver, (query d).1)

-- One round trip to the server: database/sql returns the statement's result or some other error.
abbrev pub exec : {A : Type 0} → Action Db A → Action Db A
exec query d = answer (next_reply d.replies) query (record d { replies = later_replies d.replies })

module _ {A : Type 0} (query : Action Db A) where
  answer_keeps {ℓ} :
      (P : Db → Type ℓ)
      → ((d : Db) → P d → P (query d).1)
      → (r : Reply) (d : Db) → P d
      → P (answer r query d).1
  answer_keeps P keep served d h = keep d h
  answer_keeps P keep refused d h = h
  answer_keeps P keep lost d h = keep d h

  -- A round trip keeps what its statement keeps, whatever the server answers.
  pub exec_keeps {ℓ} :
      (P : Db → Type ℓ)
      → ((d : Db) (rs : List Reply) → P d → P (record d { replies = rs }))
      → ((d : Db) → P d → P (query d).1)
      → (d : Db) → P d
      → P (exec query d).1
  exec_keeps P blind keep d h = answer_keeps P keep (next_reply d.replies) _ (blind d _ h)

  answer-eq-ok :
      (r : Reply) (d : Db) (a : A) (e : Db) → answer r query d ≡ (ok a, e) → query d ≡ (ok a, e)
  answer-eq-ok served d a e h = h
  answer-eq-ok refused d a e h = absurd (grind arith)
  answer-eq-ok lost d a e h = absurd (grind arith)

  -- A round trip that succeeds has run its statement.
  pub exec-eq-ok :
      (d : Db) (a : A) (e : Db)
      → exec query d ≡ (ok a, e)
      → query (record d { replies = later_replies d.replies }) ≡ (ok a, e)
  exec-eq-ok d a e h = answer-eq-ok (next_reply d.replies) _ a e h
