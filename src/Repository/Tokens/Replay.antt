-- ===== src/Repository/Tokens/Replay.antt =====
-- Histories of the table refresh_tokens, by the calls of repository/refresh_token_repository.go.
use go_url_shortener.Base.{
  ℕ, suc, ◌+◌, ◌≡◌, refl, inl, inr, true, false, none, List, [], ◌∷◌, map, exists, arith, All,
}
use go_url_shortener.Base.Int.{ℤ, pos, id_eq}
use go_url_shortener.Model.{RefreshToken}
use go_url_shortener.Outcome.{Result, ok, err, is_ok, >>=_keeps}
use go_url_shortener.Db.{Db, Reply, served, refused, lost, exec, exec_keeps, next_reply}
use go_url_shortener.Repository.Urls.Invariant.{id_below}
use go_url_shortener.Repository.Tokens.{
  insert_token, create, is_target, revoke_row, revoke_token, revoke, begin_tx, in_tx, commit_tx,
  finish_tx, roll_back, rotate,
}
use go_url_shortener.Repository.Tokens.Rotation.{rotated, rotate_atomic}

-- Every id of the table was drawn from the sequence.
abbrev pub Below : ℕ → List RefreshToken → Type 0
Below n rows = All (λ (t : RefreshToken). id_below n t.id ≡ true) rows

-- The id was drawn, and no row of it can be revoked any more.
pub record IsSpent (id : ℤ) (d : Db) : Type 0 where
  pub drawn : id_below d.next_token id ≡ true
  pub dead : exists (is_target id) d.tokens ≡ false

exists-revoke :
    (id old : ℤ) (now : ℕ) (rows : List RefreshToken)
    → exists (is_target id) rows ≡ false
    → exists (is_target id) (map (revoke_row now old) rows) ≡ false
unfolding is_target revoke_row
exists-revoke id old now [] h = refl
exists-revoke id old now (t ∷ ts) h = ground (arith, exists-revoke id old now ts)

revoked-dead :
    (old : ℤ) (now : ℕ) (rows : List RefreshToken)
    → exists (is_target old) (map (revoke_row now old) rows) ≡ false
unfolding is_target revoke_row
revoked-dead old now [] = refl
revoked-dead old now (t ∷ ts) = ground (arith, revoked-dead old now ts)

target-Below :
    (n : ℕ) (id : ℤ) (rows : List RefreshToken)
    → Below n rows
    → exists (is_target id) rows ≡ true
    → id_below n id ≡ true
unfolding is_target id_eq
target-Below n id [] h e = cc
target-Below n id (t ∷ ts) h e = ground (arith, target-Below n id ts h.1)

fresh-dead :
    (n : ℕ) (id : ℤ) (t : RefreshToken)
    → id_below n id ≡ true
    → t.id ≡ pos n
    → is_target id t ≡ false
unfolding is_target id_eq
fresh-dead n id t h e = ground arith

id_below-suc : (n : ℕ) (id : ℤ) → id_below n id ≡ true → id_below (suc n) id ≡ true
id_below-suc n id h = ground arith

insert_token-IsSpent :
    (id : ℤ) (token : RefreshToken) (d : Db) → IsSpent id d → IsSpent id (insert_token token d).1
unfolding insert_token is_target id_eq
insert_token-IsSpent id token d s = ground (arith, id_below-suc d.next_token id)

revoke_token-IsSpent : (id old : ℤ) (d : Db) → IsSpent id d → IsSpent id (revoke_token old d).1
unfolding revoke_token
revoke_token-IsSpent id old d s = record {
  drawn = s.drawn;
  dead = exists-revoke id old d.now d.tokens s.dead;
}

with_replies :
    (id : ℤ) (d : Db) (rs : List Reply) → IsSpent id d → IsSpent id (record d { replies = rs })
with_replies id d rs s = record { drawn = s.drawn; dead = s.dead }

-- What Rotate keeps: all that its statements and a roll back keep.
module _ {ℓ} (P : Db → Type ℓ)
    (blind : (d : Db) (rs : List Reply) → P d → P (record d { replies = rs }))
    (revoked : (old : ℤ) (d : Db) → P d → P (revoke_token old d).1)
    (inserted : (new : RefreshToken) (d : Db) → P d → P (insert_token new d).1)
    (rolled : (d t : Db) → P d → P t → P (roll_back d t)) where
  in_tx_keeps : (old : ℤ) (new : RefreshToken) (d : Db) → P d → P (in_tx new old d).1
  in_tx_keeps old new = >>=_keeps P (exec begin_tx) _ (exec_keeps begin_tx P blind (λ d h. h)) (λ _.
      >>=_keeps P (exec (revoke_token old)) _ (exec_keeps (revoke_token old) P blind (revoked old))
        (λ _. exec_keeps (insert_token new) P blind (inserted new)))

  commit_keeps : (r : Reply) (row : RefreshToken) (d t : Db) → P d → P t → P (commit_tx r row d t).1
  commit_keeps served row d t h k = k
  commit_keeps refused row d t h k = rolled d t h k
  commit_keeps lost row d t h k = k

  finish_keeps : (d : Db) (r : Result RefreshToken × Db) → P d → P r.1 → P (finish_tx d r).1
  finish_keeps d (err e, t) h k = rolled d t h k
  finish_keeps d (ok row, t) h k = commit_keeps (next_reply t.replies) row d _ h (blind t _ k)

  pub rotate_keeps : (old : ℤ) (new : RefreshToken) (d : Db) → P d → P (rotate old new d).1
  unfolding rotate
  rotate_keeps old new d h = finish_keeps d (in_tx new old d) h (in_tx_keeps old new d h)

rotate-IsSpent :
    (id old : ℤ) (new : RefreshToken) (d : Db) → IsSpent id d → IsSpent id (rotate old new d).1
rotate-IsSpent id =
    rotate_keeps (IsSpent id) (with_replies id) (revoke_token-IsSpent id) (insert_token-IsSpent id)
      (λ d t h k. record { drawn = k.drawn; dead = h.dead })

abbrev IsDrawn : ℤ → Db → Type 0
IsDrawn id d = id_below d.next_token id ≡ true

insert_token-IsDrawn :
    (id : ℤ) (token : RefreshToken) (d : Db) → IsDrawn id d → IsDrawn id (insert_token token d).1
unfolding insert_token
insert_token-IsDrawn id token d h = ground (arith, id_below-suc d.next_token id)

rotate-IsDrawn :
    (id old : ℤ) (new : RefreshToken) (d : Db) → IsDrawn id d → IsDrawn id (rotate old new d).1
unfolding revoke_token
rotate-IsDrawn id =
    rotate_keeps (IsDrawn id) (λ d rs h. h) (λ old d h. h) (insert_token-IsDrawn id) (λ d t h k. k)

-- What may happen to the table: its writes, time passing, and any answers of the server.
pub data Call : Type 0 where
  creates : RefreshToken → Call
  revokes : ℤ → Call
  rotates : ℤ → RefreshToken → Call
  waits : ℕ → Call
  answers : List Reply → Call

unfoldable pub step : Db → Call → Db
step d (creates t) = (create t d).1
step d (revokes id) = (revoke id d).1
step d (rotates id t) = (rotate id t d).1
step d (waits n) = record d { now = d.now + n }
step d (answers rs) = record d { replies = rs }

unfoldable pub run : Db → List Call → Db
run d [] = d
run d (c ∷ cs) = run (step d c) cs

step-IsSpent : (id : ℤ) (d : Db) (c : Call) → IsSpent id d → IsSpent id (step d c)
unfolding step create revoke
step-IsSpent id d (creates t) s =
    exec_keeps (insert_token t) (IsSpent id) (with_replies id) (insert_token-IsSpent id t) d s
step-IsSpent id d (revokes old) s =
    exec_keeps (revoke_token old) (IsSpent id) (with_replies id) (revoke_token-IsSpent id old) d s
step-IsSpent id d (rotates old t) s = rotate-IsSpent id old t d s
step-IsSpent id d (waits n) s = record { drawn = s.drawn; dead = s.dead }
step-IsSpent id d (answers rs) s = with_replies id d rs s

run-IsSpent : (id : ℤ) (d : Db) (cs : List Call) → IsSpent id d → IsSpent id (run d cs)
unfolding run
run-IsSpent id d [] s = s
run-IsSpent id d (c ∷ cs) s = run-IsSpent id (step d c) cs (step-IsSpent id d c s)

rotated-dead :
    (old : ℤ) (new : RefreshToken) (d : Db)
    → id_below d.next_token old ≡ true
    → exists (is_target old) (rotated old new d) ≡ false
rotated-dead old new d h = ground (
  arith,
  fresh-dead d.next_token old
      (record new { id = pos d.next_token; created_at = d.now; revoked_at = none }) h,
  revoked-dead old d.now d.tokens,
)

rotated-IsSpent :
    (old : ℤ) (new : RefreshToken) (d : Db)
    → Below d.next_token d.tokens
    → is_ok (rotate old new d).0 ≡ true
    → IsSpent old (rotate old new d).1
rotated-IsSpent old new d b h = elim (rotate_atomic old new d) [
  | inl (same, failed) ↦ absurd (ground arith)
  | inr (table, live) ↦
      let drawn = target-Below d.next_token old d.tokens b live in
      record {
        drawn = rotate-IsDrawn old old new d drawn;
        dead = rw table (rotated-dead old new d drawn);
      }
]

-- A refresh token is good for one rotation: where the ids of the table were drawn from the sequence and
-- a call of Rotate for a token has succeeded, a later call for the same token fails, whatever calls of
-- the repository, passing of time and answers of the server lie in between.
pub rotate_once :
    (old : ℤ) (new other : RefreshToken) (d : Db) (cs : List Call)
    → Below d.next_token d.tokens
    → is_ok (rotate old new d).0 ≡ true
    → is_ok (rotate old other (run (rotate old new d).1 cs)).0 ≡ false
rotate_once old new other d cs b h =
    let s = run-IsSpent old _ cs (rotated-IsSpent old new d b h) in
    ground (arith, rotate_atomic old other (run (rotate old new d).1 cs))
