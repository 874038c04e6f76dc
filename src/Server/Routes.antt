-- ===== src/Server/Routes.antt =====
-- The routes of main.go under the two prefixes of the URL endpoints.
use go_url_shortener.Base.{◌≤◌, ◌≡◌, ◌≢◌, refl, sym, subst, true, false, inl, inr, arith}
use go_url_shortener.Base.Text.{String, len, ◌==◌, eq_iff, has_prefix, has_suffix}
use go_url_shortener.Server.{Route, urls_route, url_route, routes, matches, IsChosen, IsLongest}

-- Another path with the prefix is none.
other_path :
    (path other : String)
    → has_prefix path "/api/v1/urls/" ≡ true
    → has_prefix other "/api/v1/urls/" ≡ false
    → (path == other) ≢ true
other_path path other h n e =
    let same : path ≡ other = (eq_iff path other).0 e in absurd (grind arith)

-- The subtree's own pattern matches, so that no shorter one is chosen.
too_short :
    (path pattern : String)
    → has_prefix path "/api/v1/urls/" ≡ true
    → IsLongest routes path pattern
    → 13 ≤ len pattern
unfolding has_suffix
too_short path pattern h l = l.1.1.1.1.1.1.1.1.0 h

pub url_chosen :
    (path : String) (route : Route)
    → has_prefix path "/api/v1/urls/" ≡ true
    → IsChosen routes path route
    → route ≡ url_route
unfolding has_prefix has_suffix
url_chosen path route h (inl (e, m, l)) =
    let big : 13 ≤ len "/health" = too_short path "/health" h l in absurd (omega arith)
url_chosen path route h (inr (inl (e, m, l))) =
    let big : 13 ≤ len "/dashboard/" = too_short path "/dashboard/" h l in absurd (omega arith)
url_chosen path route h (inr (inr (inl (e, m, l)))) =
    let big : 13 ≤ len "/hello" = too_short path "/hello" h l in absurd (omega arith)
url_chosen path route h (inr (inr (inr (inl (e, m, l))))) =
    absurd (other_path path "/api/v1/auth/register" h refl m)
url_chosen path route h (inr (inr (inr (inr (inl (e, m, l)))))) =
    absurd (other_path path "/api/v1/auth/login" h refl m)
url_chosen path route h (inr (inr (inr (inr (inr (inl (e, m, l))))))) =
    absurd (other_path path "/api/v1/auth/refresh" h refl m)
url_chosen path route h (inr (inr (inr (inr (inr (inr (inl (e, m, l)))))))) =
    absurd (other_path path "/api/v1/auth/logout" h refl m)
url_chosen path route h (inr (inr (inr (inr (inr (inr (inr (inl (e, m, l))))))))) =
    let big : 13 ≤ len "/api/v1/urls" = too_short path "/api/v1/urls" h l in absurd (omega arith)
url_chosen path route h (inr (inr (inr (inr (inr (inr (inr (inr (inl (e, m, l)))))))))) = sym e
url_chosen path route h (inr (inr (inr (inr (inr (inr (inr (inr (inr (inl (e, m, l))))))))))) =
    let big : 13 ≤ len "/" = too_short path "/" h l in absurd (omega arith)
url_chosen path route h (inr (inr (inr (inr (inr (inr (inr (inr (inr (inr x)))))))))) = elim x [ ]

pub urls_chosen :
    (path : String) (route : Route)
    → path ≡ "/api/v1/urls"
    → IsChosen routes path route
    → route ≡ urls_route
unfolding has_prefix has_suffix
urls_chosen path route h (inl (e, m, l)) =
    let bad : false ≡ true = subst (λ s. matches "/health" s ≡ true) h m in absurd (cc)
urls_chosen path route h (inr (inl (e, m, l))) =
    let bad : false ≡ true = subst (λ s. matches "/dashboard/" s ≡ true) h m in absurd (cc)
urls_chosen path route h (inr (inr (inl (e, m, l)))) =
    let bad : false ≡ true = subst (λ s. matches "/hello" s ≡ true) h m in absurd (cc)
urls_chosen path route h (inr (inr (inr (inl (e, m, l))))) =
    let bad : false ≡ true = subst (λ s. matches "/api/v1/auth/register" s ≡ true) h m in
    absurd (cc)
urls_chosen path route h (inr (inr (inr (inr (inl (e, m, l)))))) =
    let bad : false ≡ true = subst (λ s. matches "/api/v1/auth/login" s ≡ true) h m in absurd (cc)
urls_chosen path route h (inr (inr (inr (inr (inr (inl (e, m, l))))))) =
    let bad : false ≡ true = subst (λ s. matches "/api/v1/auth/refresh" s ≡ true) h m in absurd (cc)
urls_chosen path route h (inr (inr (inr (inr (inr (inr (inl (e, m, l)))))))) =
    let bad : false ≡ true = subst (λ s. matches "/api/v1/auth/logout" s ≡ true) h m in absurd (cc)
urls_chosen path route h (inr (inr (inr (inr (inr (inr (inr (inl (e, m, l))))))))) = sym e
urls_chosen path route h (inr (inr (inr (inr (inr (inr (inr (inr (inl (e, m, l)))))))))) =
    let bad : false ≡ true = subst (λ s. matches "/api/v1/urls/" s ≡ true) h m in absurd (cc)
urls_chosen path route h (inr (inr (inr (inr (inr (inr (inr (inr (inr (inl (e, m, l))))))))))) =
    let big : 12 ≤ len "/" = l.1.1.1.1.1.1.1.0 ((eq_iff path "/api/v1/urls").1 h) in
    absurd (omega arith)
urls_chosen path route h (inr (inr (inr (inr (inr (inr (inr (inr (inr (inr x)))))))))) = elim x [ ]
