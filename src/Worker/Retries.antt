-- ===== src/Worker/Retries.antt =====
-- process of worker/click_worker.go, by the answers of the server.
use Prim.Native.String.{count}
use go_url_shortener.Base.{
  ℕ, zero, suc, ◌+◌, ◌≡◌, refl, Bool, true, false, ◌||◌, List, ltb, exists, arith, ◌⊎◌, inl, inr,
  Bool-cases,
}
use go_url_shortener.Base.Text.{eq_refl}
use go_url_shortener.Model.{ClickEvent}
use go_url_shortener.Outcome.{Error, Result, ok, err, is_ok, map_error, wrapped}
use go_url_shortener.Db.{Db, Reply, served, refused, lost, next_reply, later_replies, answer}
use go_url_shortener.Repository.Urls.{has_id}
use go_url_shortener.Repository.Clicks.{same_event, insert_click, create}
use go_url_shortener.Worker.{after_attempt, process_from, process, pause}

-- The columns take the event's texts, and its URL exists.
pub record IsStorable (event : ClickEvent) (d : Db) : Type 0 where
  pub fits : (ltb 64 (count event.event_key) || ltb 32 (count event.device_category)) ≡ false
  pub known : exists (has_id event.url_id) d.urls ≡ true

abbrev pub is_served : Reply → Bool
is_served served = true
is_served refused = false
is_served lost = false

-- Whether one of the next n replies of the server is an answer.
abbrev pub served_within : ℕ → List Reply → Bool
served_within zero rs = false
served_within (suc n) rs = is_served (next_reply rs) || served_within n (later_replies rs)

-- What a state after an attempt shows of the state that the attempt was made in.
abbrev Attempted : ClickEvent → Bool → List Reply → Db → Result (Unit {0}) × Db → Type 0
Attempted event success rs d (out, d') =
    (is_ok out ≡ success)
    × (d'.replies ≡ rs)
    × (d'.urls ≡ d.urls)
    × (is_ok out ≡ true → exists (same_event event) d'.clicks ≡ true)

insert_click-Attempted :
    (event : ClickEvent) (d : Db)
    → IsStorable event d
    → Attempted event true d.replies d (insert_click event d)
unfolding insert_click
insert_click-Attempted event d s = ground (arith, eq_refl event.event_key)

reply-Attempted :
    (event : ClickEvent) (r : Reply) (d : Db)
    → IsStorable event d
    → Attempted event
        (is_served r)
        d.replies
        d
        (map_error (wrapped "create click event") (answer r (insert_click event)) d)
reply-Attempted event served d s = ground (arith, insert_click-Attempted event d s)
reply-Attempted event refused d s = (refl, refl, refl, λ h. absurd (grind arith))
reply-Attempted event lost d s =
    let (done, same, table, stored) = insert_click-Attempted event d s in
    (refl, same, table, λ h. absurd (grind arith))

create-Attempted :
    (event : ClickEvent) (d : Db)
    → IsStorable event d
    → Attempted event
        (is_served (next_reply d.replies))
        (later_replies d.replies)
        d
        (create event d)
unfolding create
create-Attempted event d s =
    reply-Attempted event (next_reply d.replies) (record d { replies = later_replies d.replies })
      (record { fits = s.fits; known = s.known })

-- What the loop has shown when it ends.
abbrev Ended : ClickEvent → Bool → Result (Unit {0}) × Db → Type 0
Ended event success (out, d') =
    (is_ok out ≡ success) × (is_ok out ≡ true → exists (same_event event) d'.clicks ≡ true)

after_attempt-Ended :
    (event : ClickEvent) (b c : Bool) (rs : List Reply) (d : Db)
    (next : Error → Db → Result (Unit {0}) × Db) (r : Result (Unit {0}) × Db)
    → Attempted event b rs d r
    → ((e : Error) (d' : Db) → d'.replies ≡ rs → d'.urls ≡ d.urls → Ended event c (next e d'))
    → Ended event (b || c) (after_attempt next r)
after_attempt-Ended event b c rs d next (ok _, d') a k = ground arith
after_attempt-Ended event b c rs d next (err e, d') a k = ground (arith, k e d' a.1 a.2)

process_from-Ended :
    (left attempt base : ℕ) (event : ClickEvent) (last : Result (Unit {0})) (d : Db)
    → IsStorable event d
    → Ended event
        (served_within (suc left) d.replies)
        (process_from (suc left) attempt base event last d)
unfolding process_from
process_from-Ended zero attempt base event last d s =
    after_attempt-Ended event (is_served (next_reply d.replies)) false (later_replies d.replies) d _
      (create event d) (create-Attempted event d s) (λ e d' _ _. (refl, λ h. absurd (grind arith)))
process_from-Ended (suc left) attempt base event last d s =
    after_attempt-Ended event (is_served (next_reply d.replies))
      (served_within (suc left) (later_replies d.replies)) (later_replies d.replies) d _
      (create event d) (create-Attempted event d s)
      (λ e d' rs table. rw (← rs) (
        process_from-Ended left (suc attempt) base event (err e)
          (record d' { now = d'.now + pause base attempt })
          (record { fits = s.fits; known = rw table s.known })))

-- For an event that the table can take, process succeeds exactly where the server answers one of its
-- first max_retries insertions; and it fails or the event is in the table.
pub process_succeeds :
    (n base : ℕ) (event : ClickEvent) (d : Db)
    → IsStorable event d
    → let (out, d') = process (suc n) base event d in
      (is_ok out ≡ served_within (suc n) d.replies)
      × ((is_ok out ≡ false) ⊎ (exists (same_event event) d'.clicks ≡ true))
unfolding process
process_succeeds n base event d s =
    let (done, stored) = process_from-Ended n 1 base event (ok tt) d s in
    elim (Bool-cases (is_ok (process_from (suc n) 1 base event (ok tt) d).0)) [
      | inl good ↦ (done, inr (stored good))
      | inr bad ↦ (done, inl bad)
    ]
