-- ===== src/Repository/Tokens/Rotation.antt =====
-- Rotate of repository/refresh_token_repository.go: the ways in which a call ends.
use go_url_shortener.Base.{
  ◌≡◌, refl, ◌⊎◌, inl, inr, true, false, none, List, ◌∷◌, map, exists, arith,
}
use go_url_shortener.Base.Int.{ℤ, pos}
use go_url_shortener.Model.{RefreshToken}
use go_url_shortener.Outcome.{Result, ok, err, is_ok}
use go_url_shortener.Db.{Db, Reply, served, refused, lost, later_replies, next_reply}
use go_url_shortener.Repository.Tokens.{
  insert_token, is_target, revoke_row, revoke_token, in_tx, commit_tx, finish_tx, rotate,
}

-- The table after the revocation of `old` and the insertion of a row for `new`.
abbrev pub rotated : ℤ → RefreshToken → Db → List RefreshToken
rotated old new d =
    record new { id = pos d.next_token; created_at = d.now; revoked_at = none }
    ∷ map (revoke_row d.now old) d.tokens

in_tx-tokens :
    (new : RefreshToken) (old : ℤ) (d t : Db) (row : RefreshToken)
    → in_tx new old d ≡ (ok row, t)
    → (t.tokens ≡ rotated old new d) × (exists (is_target old) d.tokens ≡ true)
unfolding revoke_token insert_token
in_tx-tokens new old d t row h = ground arith

commit_cases :
    (r : Reply) (row : RefreshToken) (d t : Db)
    → let (out, e) = commit_tx r row d t in
      ((e.tokens ≡ d.tokens) × (is_ok out ≡ false)) ⊎ (e.tokens ≡ t.tokens)
commit_cases served row d t = inr refl
commit_cases refused row d t = inl (refl, refl)
commit_cases lost row d t = inr refl

-- How a call of Rotate has ended, by the table that it leaves.
abbrev pub Ended : ℤ → RefreshToken → Db → Result RefreshToken × Db → Type 0
Ended old new d (out, e) =
    (e.tokens ≡ d.tokens) × (is_ok out ≡ false)
    ⊎ (e.tokens ≡ rotated old new d) × (exists (is_target old) d.tokens ≡ true)

finish_tx-Ended :
    (old : ℤ) (new : RefreshToken) (d : Db) (r : Result RefreshToken × Db)
    → in_tx new old d ≡ r
    → Ended old new d (finish_tx d r)
finish_tx-Ended old new d (err x, t) e = inl (refl, refl)
finish_tx-Ended old new d (ok row, t) e = ground (
  arith,
  in_tx-tokens new old d t row e,
  commit_cases (next_reply t.replies) row d (record t { replies = later_replies t.replies }),
)

-- Whatever the server answers to its statements and to its commit, Rotate leaves the table as it was
-- and fails, or it has revoked the old token, which was there unrevoked, and added the new one.
pub rotate_atomic : (old : ℤ) (new : RefreshToken) (d : Db) → Ended old new d (rotate old new d)
unfolding rotate
rotate_atomic old new d = finish_tx-Ended old new d (in_tx new old d) refl
