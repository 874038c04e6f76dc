-- ===== src/Tests/Keyed.antt =====
-- Examples for a creation with a key and its repetition.
use go_url_shortener.Base.{◌≡◌, refl, true, some, List, [], ◌∷◌, arith}
use go_url_shortener.Base.Int.{id_eq}
use go_url_shortener.Base.Text.{String, trim_space, to_lower, has_suffix}
use go_url_shortener.Model.{Url, IdempotencyRecord}
use go_url_shortener.Outcome.{ok}
use go_url_shortener.Db.{Db, served, next_reply, exec_keeps}
use go_url_shortener.Repository.Urls.{create, insert_url, too_long, clashes, no_owner}
use go_url_shortener.Repository.Keys.History.{waits, run, step}
use go_url_shortener.Repository.Keys
use go_url_shortener.Service.Urls.Keeps.{create_short_url_keeps, create_short_url_with_alias_keeps}
use go_url_shortener.Service.ShortCode.{symbol, fill_code, generate_short_code}
use go_url_shortener.Service.Validate.{check_host, is_localhost, validate_url}
use go_url_shortener.Service.Urls.{Host, attempts, create_short_url}
use go_url_shortener.Handler.{json_text}
use go_url_shortener.Handler.Create.{Environment, create_url, create_url_response}
use go_url_shortener.Handler.Create.Replay.{postgres, after_reply, later}
use go_url_shortener.Handler.Create.Final.{LeavesKeys, create_url_once}
use go_url_shortener.Tests.Data.{sample_host, sample_net, sample_json}
use go_url_shortener.Tests.Handler.{direct, environment, alice_claims, post, post-IsKeyed}

insert_url-keys :
    (ks : List IdempotencyRecord) (url : Url) (d : Db)
    → d.keys ≡ ks
    → (insert_url url d).1.keys ≡ ks
unfolding insert_url
insert_url-keys ks url d e = ground (arith, e)

create-keys :
    (ks : List IdempotencyRecord) (url : Url) (d : Db) → d.keys ≡ ks → (create url d).1.keys ≡ ks
unfolding create
create-keys ks url d e =
    exec_keeps (insert_url url) (λ d. d.keys ≡ ks) (λ d rs h. h) (insert_url-keys ks url) d e

direct-LeavesKeys : LeavesKeys direct
direct-LeavesKeys = record {
  generated = λ original user h.
      create_short_url_keeps (λ d. d.keys ≡ h.db.keys) (create-keys h.db.keys) sample_net original
        user h refl;
  aliased = λ original alias user h.
      create_short_url_with_alias_keeps (λ d. d.keys ≡ h.db.keys) (create-keys h.db.keys) sample_net
        original user alias h refl;
}

-- A decoder that knows one body.
abbrev reading : Environment
reading = record environment {
  decode = λ body. ok (record { url = "https://go.dev"; alias = "" });
  marshal = λ response. some "{\"id\":2}";
}

abbrev made_host : Host
made_host = (create_url reading direct (postgres sample_json) true post sample_host).1

made :
    create_url reading direct (postgres sample_json) true post sample_host
    ≡ (json_text 201 "{\"id\":2}", made_host)
unfolding create_url trim_space create_url_response create_short_url validate_url check_host
    is_localhost attempts generate_short_code fill_code symbol create insert_url too_long clashes
    no_owner id_eq to_lower has_suffix Keys.get Keys.select_key Keys.reserve Keys.insert_key
    Keys.complete Keys.complete_key Keys.store_body Keys.is_key
made = refl

made_served : next_reply made_host.db.replies ≡ served
unfolding create_url trim_space create_url_response create_short_url validate_url check_host
    is_localhost attempts generate_short_code fill_code symbol create insert_url too_long clashes
    no_owner id_eq to_lower has_suffix Keys.get Keys.select_key Keys.reserve Keys.insert_key
    Keys.complete Keys.complete_key Keys.store_body Keys.is_key
made_served = refl

create_url_once_example :
    (text : String) × (sample_json.jsonb "{\"id\":2}" ≡ ok text)
    × (create_url reading direct
          (postgres sample_json)
          true
          post
          (later reading direct sample_json made_host (waits 60 ∷ []))
        ≡ (
          json_text 201 text,
          after_reply (later reading direct sample_json made_host (waits 60 ∷ [])),
        ))
unfolding run step
create_url_once_example =
    create_url_once sample_json reading direct direct-LeavesKeys alice_claims "key" post post
      sample_host made_host 201 "{\"id\":2}" (waits 60 ∷ []) tt post-IsKeyed made post-IsKeyed
      made_served
