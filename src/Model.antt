-- ===== src/Model.antt =====
-- The entities of the package model, with the columns that the migrations give them.
-- An instant is a number of nanoseconds.
use go_url_shortener.Base.{ℕ, Option, Bool, List}
use go_url_shortener.Base.Int.{ℤ}
use go_url_shortener.Base.Text.{String}

-- model/url.go
pub record Url : Type 0 where
  pub id : ℤ
  pub short_code : String
  pub custom_alias : Option String
  pub original_url : String
  pub user_id : Option ℤ
  pub created_at : ℕ
  pub expires_at : Option ℕ
  pub is_active : Bool

-- model/user.go
pub record User : Type 0 where
  pub id : ℤ
  pub email : String
  pub password_hash : String
  pub role : String
  pub created_at : ℕ

-- model/refresh_token.go
pub record RefreshToken : Type 0 where
  pub id : ℤ
  pub user_id : ℤ
  pub token_hash : String
  pub expires_at : ℕ
  pub revoked_at : Option ℕ
  pub created_at : ℕ

-- model/click_event.go
pub record ClickEvent : Type 0 where
  pub id : ℤ
  pub event_key : String
  pub url_id : ℤ
  pub clicked_at : ℕ
  pub user_agent : String
  pub referrer : String
  pub device_category : String

-- AnalyticsCount and DailyClickCount: a name or a date with a number of clicks.
pub record AnalyticsCount : Type 0 where
  pub name : String
  pub count : ℕ

-- ClickAnalytics
pub record ClickAnalytics : Type 0 where
  pub total_clicks : ℕ
  pub by_device : List AnalyticsCount
  pub by_referrer : List AnalyticsCount
  pub daily_clicks : List AnalyticsCount

-- The `State` column of an idempotency record, whose values a CHECK constraint limits to these.
pub data KeyState : Type 0 where
  pending completed : KeyState

-- repository.IdempotencyRecord
pub record IdempotencyRecord : Type 0 where
  pub user_id : ℤ
  pub idempotency_key : String
  pub response_body : String
  pub status_code : ℕ
  pub state : KeyState
