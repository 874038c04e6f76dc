-- ===== src/Handler/Redirect/Isolated.antt =====
-- Redirect of handler/url_handler.go and the clicks that it records.

use Prim.Native.String.{count, char_at}
use Prim.Native.String.count.{cons as count_cons}
use Prim.Native.Char.{Char}
use go_url_shortener.Base.{
  ℕ, ◌*◌, ◌%◌, ◌/◌, ◌≡◌, refl, ap, true, false, Bool-cases, inl, inr, List, [], ◌∷◌, length, exists,
  ltb, arith,
}
use go_url_shortener.Base.Text.{String, ◌==◌, trim_prefix, to_lower}
use go_url_shortener.Model.{Url}
use go_url_shortener.Outcome.{Result, ok, err, ok_inj, >>=-eq-ok}
use go_url_shortener.Db.{Db}
use go_url_shortener.Repository.Urls.{has_id}
use go_url_shortener.Worker.Retries.{IsStorable}
use go_url_shortener.Handler.Base.{Request, UrlService}
use go_url_shortener.Handler.Redirect.{
  detect_device_category, Recorder, generate_event_key, event_key_bytes, click_of, redirected,
  redirect_to, contains,
}
use go_url_shortener.Auth.Tokens.{hex_encode}

module _ {S : Type 0} (lower : Char → Char) (one other : Recorder S) where
  redirected_isolated :
      (r : Request) (found : Result Url × S)
      → (redirected lower one r found).0 ≡ (redirected lower other r found).0
  redirected_isolated r (ok url, s) = refl
  redirected_isolated r (err e, s) = refl

  -- The answer to a redirect does not depend on the recording of the click: it is the same for any
  -- two random sources, clocks and queues of the workers, also where these fail or there are no
  -- workers.
  pub redirect_isolated :
      (service : UrlService S) (r : Request) (s : S)
      → (redirect_to lower one service r s).0 ≡ (redirect_to lower other service r s).0
  unfolding redirect_to
  redirect_isolated service r s = elim (Bool-cases (trim_prefix r.path "/" == "")) [
    | inl blank ↦ rw blank refl
    | inr code ↦
        rw code (redirected_isolated r (service.get_original_url (trim_prefix r.path "/") s))
  ]

count-hex_encode : (bytes : List ℕ) → count (hex_encode bytes) ≡ 2 * length bytes
unfolding hex_encode
count-hex_encode [] = refl
count-hex_encode (b ∷ bs) = ground (
  arith,
  count-hex_encode bs,
  count_cons (char_at "0123456789abcdef" (b / 16 % 16))
      (String.◌∷◌ (char_at "0123456789abcdef" (b % 16)) (hex_encode bs)),
  count_cons (char_at "0123456789abcdef" (b % 16)) (hex_encode bs),
)

detect_device_category-fits :
    (lower : Char → Char) (user_agent : String)
    → ltb 32 (count (detect_device_category lower user_agent)) ≡ false
unfolding detect_device_category
detect_device_category-fits lower user_agent =
    elim (Bool-cases (contains (to_lower lower user_agent) "tablet")) [
      | inl tablet ↦ rw tablet refl
      | inr plain ↦ elim (Bool-cases (contains (to_lower lower user_agent) "mobile")) [
        | inl mobile ↦ rw plain rw mobile refl
        | inr desktop ↦ rw plain rw desktop refl
      ]
    ]

-- rand.Read fills the slice that it is given.
abbrev pub Fills : {S : Type 0} → Recorder S → Type 0
Fills {S} recorder =
    (n : ℕ) (s : S) (bytes : List ℕ) (s' : S)
    → recorder.random n s ≡ (ok bytes, s')
    → length bytes ≡ n

module _ {S : Type 0} (lower : Char → Char) (recorder : Recorder S) (fills : Fills recorder) where
  -- Where the random source fills the slice that it is given and the table has the row of the URL,
  -- the click of a redirect fits the table: its key and its device category are within the lengths
  -- of their columns, and its URL is there.
  pub click_of-IsStorable :
      (r : Request) (url : Url) (key : String) (now : ℕ) (s s' : S) (d : Db)
      → generate_event_key lower recorder s ≡ (ok key, s')
      → exists (has_id url.id) d.urls ≡ true
      → IsStorable (click_of lower recorder r url key now) d
  unfolding generate_event_key
  click_of-IsStorable r url key now s s' d drawn known =
      let (bytes, t, read, last) = >>=-eq-ok (recorder.random event_key_bytes) _ s drawn in
      let same : hex_encode bytes ≡ key = ok_inj (ap (λ p. p.0) last) in
      record {
        fits = ground (
          arith,
          count-hex_encode bytes,
          fills event_key_bytes s bytes t read,
          same,
          detect_device_category-fits lower r.user_agent,
        );
        known = known;
      }
