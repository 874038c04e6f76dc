-- ===== src/Handler/Redirect.antt =====
-- Redirect of handler/url_handler.go, with generateEventKey and detectDeviceCategory, over any
-- URLService. The random source, the clock and the queue of the click workers are parameters.
pub mod Isolated
pub mod Live
use Prim.Native.Char.{Char}
use Prim.Native.String
use go_url_shortener.Base.{ℕ, Bool, true, false, ◌||◌, Option, none, some, List, if◌then◌else◌}
use go_url_shortener.Base.Int.{ℤ, pos}
use go_url_shortener.Base.Text.{String, ◌==◌, trim_prefix, has_prefix, to_lower}
use go_url_shortener.Model.{Url, ClickEvent}
use go_url_shortener.Outcome.{Error, Result, ok, err, Action, continue, pure, ◌>>=◌}
use go_url_shortener.Handler.Base.{Request, Response, not_found, redirect, UrlService, Endpoint}
use go_url_shortener.Auth.Tokens.{hex_encode}

-- strings.Contains
unfoldable pub contains : String → String → Bool
contains String.[] t = String.[] == t
contains (String.◌∷◌ c s) t = has_prefix (String.◌∷◌ c s) t || contains s t

unfoldable pub detect_device_category : (Char → Char) → String → String
detect_device_category lower user_agent =
    let ua = to_lower lower user_agent in
    if contains ua "tablet" then "tablet" else if contains ua "mobile" then "mobile" else "desktop"

abbrev pub event_key_bytes : ℕ
event_key_bytes = 16

-- What records a click: rand.Read into a slice of n bytes, time.Now, and Enqueue of the workers,
-- which may be nil.
pub record Recorder (S : Type 0) : Type 0 where
  pub random : ℕ → Action S (List ℕ)
  pub now : S → ℕ
  pub enqueue : Option (ClickEvent → Action S (Unit {0}))

module _ {S : Type 0} (lower : Char → Char) (recorder : Recorder S) where
  unfoldable pub generate_event_key : Action S String
  generate_event_key = do bytes ← recorder.random event_key_bytes; pure (hex_encode bytes)

  abbrev pub click_of : Request → Url → String → ℕ → ClickEvent
  click_of r url key now = record {
    id = pos 0;
    event_key = key;
    url_id = url.id;
    clicked_at = now;
    user_agent = r.user_agent;
    referrer = r.referrer;
    device_category = detect_device_category lower r.user_agent;
  }

  -- an error of Enqueue is logged
  abbrev pub record_click :
      Option (ClickEvent → Action S (Unit {0})) → Request → Url → Result String × S → S
  record_click none r url (_, s) = s
  record_click (some enqueue) r url (err e, s) = s
  record_click (some enqueue) r url (ok key, s) =
      (enqueue (click_of r url key (recorder.now s)) s).1

  abbrev pub redirected : Request → Result Url × S → Response × S
  redirected r (err e, s) = (not_found, s)
  redirected r (ok url, s) =
      (redirect 302 url.original_url, record_click recorder.enqueue r url (generate_event_key s))

  unfoldable pub redirect_to : UrlService S → Endpoint S
  redirect_to service r s =
      let short_code = trim_prefix r.path "/" in
      if short_code == ""
      then (not_found, s)
      else redirected r (service.get_original_url short_code s)
