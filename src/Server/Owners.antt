-- ===== src/Server/Owners.antt =====
-- requireURLOwnership behind the chain of main.go.
use go_url_shortener.Base.{
  ◌≡◌, refl, ◌∙◌, subst, true, false, Bool-cases, Option, some, ◌⊎◌, inl, inr, arith, if◌then◌else◌,
}
use go_url_shortener.Base.Int.{ℤ}
use go_url_shortener.Base.Text.{String, ◌==◌, eq_iff, has_prefix, has_suffix}
use go_url_shortener.Handler.{UserClaims, Request, Response}
use go_url_shortener.Handler.Path.{parse_url_id, parse_analytics_url_id}
use go_url_shortener.Handler.Ownership.{IsOwners, IsRefused, after_read, owner_only}
use go_url_shortener.Server.{Parts, Server, url_endpoint, texts}
use go_url_shortener.Server.Protected.{
  IsAdmitted, as_user, is_url_path, url_handler, served_by, IsGuarded, serve_protected,
}

-- The id of the URL that a path names.
abbrev pub target : String → Option ℤ
target path =
    if has_suffix path "/analytics" then parse_analytics_url_id path else parse_url_id path

module _ {S : Type 0} (parts : Parts S) where
  -- Nothing has happened but the read of the row.
  abbrev pub IsSpared : Option ℤ → S → S → Type 0
  IsSpared o s s' = (s' ≡ s) ⊎ (s' ≡ after_read parts.service o s)

  abbrev Owned : Request → Option ℤ → S → Response × S → Type 0
  Owned r o s (response, s') = IsOwners parts.service r o s ⊎ IsSpared o s s'

  refused_spared :
      (r : Request) (o : Option ℤ) (s : S) (x : Response × S)
      → IsOwners parts.service r o s ⊎ IsRefused parts.service o s x
      → Owned r o s x
  refused_spared r o s x (inl owner) = inl owner
  refused_spared r o s x (inr (error, spared)) = inr spared

  url_endpoint-Owned : (r : Request) (s : S) → Owned r (target r.path) s (url_endpoint parts r s)
  unfolding url_endpoint
  url_endpoint-Owned r s =
      let (got, updated, deleted, counted) =
        owner_only parts.service r s (texts parts) parts.update_request (some parts.analytics) in
      elim (Bool-cases (has_suffix r.path "/analytics")) [
        | inl analytics ↦ rw analytics (refused_spared r _ s _ counted)
        | inr item ↦ elim (Bool-cases (r.method == "GET")) [
          | inl get ↦ rw item rw get (refused_spared r _ s _ got)
          | inr other ↦ elim (Bool-cases (r.method == "PATCH")) [
            | inl patch ↦ rw item rw other rw patch (refused_spared r _ s _ updated)
            | inr last ↦ elim (Bool-cases (r.method == "DELETE")) [
              | inl delete ↦ rw item rw other rw last rw delete (refused_spared r _ s _ deleted)
              | inr none_of_these ↦ rw item rw other rw last rw none_of_these (inr (inl refl))
            ]
          ]
        ]
      ]

  is_url_path-under :
      (path : String) → has_prefix path "/api/v1/urls/" ≡ true → is_url_path parts path ≡ true
  is_url_path-under path under = ground (arith, under)

  url_handler-under :
      (path : String)
      → has_prefix path "/api/v1/urls/" ≡ true
      → url_handler parts path ≡ url_endpoint parts
  unfolding has_prefix
  url_handler-under path under = elim (Bool-cases (path == "/api/v1/urls")) [
    | inr item ↦ rw item refl
    | inl list ↦
        let bad : false ≡ true =
          subst (λ p. has_prefix p "/api/v1/urls/" ≡ true) ((eq_iff path "/api/v1/urls").0 list)
            under in
        absurd cc
  ]

  -- The request comes with the access token of the user who owns the URL that it names.
  abbrev pub IsOwnersRequest : Request → S → Type 0
  IsOwnersRequest r s =
      (user : UserClaims) × IsAdmitted parts r s user
      × IsOwners parts.service (as_user parts r user) (target r.path) s

  guarded_owned :
      (r : Request) (server : Server S) (x : Response × Server S)
      → IsGuarded parts (url_endpoint parts) r server.site x
      → IsOwnersRequest r server.site ⊎ IsSpared (target r.path) server.site x.1.site
  guarded_owned r server x (inr (_, same)) = inr (inl same)
  guarded_owned r server x (inl (user, admitted, _, after)) =
      elim (url_endpoint-Owned (as_user parts r user) server.site) [
        | inl owner ↦ inl (user, admitted, owner)
        | inr (inl same) ↦ inr (inl (after ∙ same))
        | inr (inr same) ↦ inr (inr (after ∙ same))
      ]

  -- The whole server, for a path under /api/v1/urls/ and any method: the request carries an access
  -- token that is accepted, and the user it names owns the URL of the path; or the state of the
  -- service is as it was, but for what the read of that URL has done.
  pub serve_owner_only :
      (r : Request) (server : Server S)
      → has_prefix r.path "/api/v1/urls/" ≡ true
      → IsOwnersRequest r server.site
        ⊎ IsSpared (target r.path) server.site (served_by parts r server).1.site
  serve_owner_only r server under = guarded_owned r server (served_by parts r server) (
      subst (λ h. IsGuarded parts h r server.site (served_by parts r server))
        (url_handler-under r.path under)
        (serve_protected parts r server (is_url_path-under r.path under)))
