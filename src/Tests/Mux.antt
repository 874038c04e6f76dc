-- ===== src/Tests/Mux.antt =====
-- A multiplexer that chooses the longest pattern, for the examples.
use go_url_shortener.Base.{
  ◌≤◌, ◌≡◌, refl, sym, subst, true, false, leb, Option, none, some, [], ◌∷◌, All, inl, inr, arith,
  if◌then◌else◌, Bool-cases, some_inj,
}
use go_url_shortener.Base.Text.{String, len}
use go_url_shortener.Handler.{not_found}
use go_url_shortener.Server.{Route, RouteTable, matches, OneOf, IsLongest, IsChosen, Mux}

abbrev Best : Type 0
Best = Option (String × Route)

abbrev better : String × Route → Best → Best
better x none = some x
better x (some y) = if leb (len y.0) (len x.0) then some x else some y

abbrev best : RouteTable → String → Best
best [] path = none
best (x ∷ xs) path = let rest = best xs path in if matches x.0 path then better x rest else rest

-- What a best route of a list is.
abbrev IsBest : RouteTable → String → Best → Type 0
IsBest rs path none = All (λ (x : String × Route). matches x.0 path ≡ false) rs
IsBest rs path (some y) =
    OneOf (λ x. (x.1 ≡ y.1) × (x.0 ≡ y.0) × (matches x.0 path ≡ true)) rs × IsLongest rs path y.0

longer :
    (rs : RouteTable) (path p q : String)
    → len p ≤ len q
    → IsLongest rs path p
    → IsLongest rs path q
longer [] path p q le l = tt
longer (x ∷ xs) path p q le l =
    (λ m. let bound : len x.0 ≤ len p = l.0 m in omega arith, longer xs path p q le l.1)

unmatched :
    (rs : RouteTable) (path p : String)
    → All (λ (x : String × Route). matches x.0 path ≡ false) rs
    → IsLongest rs path p
unmatched [] path p n = tt
unmatched (x ∷ xs) path p n = (λ m. absurd (cc), unmatched xs path p n.1)

step_match :
    (x : String × Route) (rs : RouteTable) (path : String) (b : Best)
    → matches x.0 path ≡ true
    → IsBest rs path b
    → IsBest (x ∷ rs) path (better x b)
step_match x rs path none m n = (inl (refl, refl, m), (λ m'. omega arith, unmatched rs path x.0 n))
step_match x rs path (some y) m (one, l) = elim (Bool-cases (leb (len y.0) (len x.0))) [
  | inl short ↦
      rw short (inl (refl, refl, m), (λ m'. omega arith, longer rs path y.0 x.0 (grind arith) l))
  | inr long ↦ rw long (inr one, (λ m'. grind arith, l))
]

step_other :
    (x : String × Route) (rs : RouteTable) (path : String) (b : Best)
    → matches x.0 path ≡ false
    → IsBest rs path b
    → IsBest (x ∷ rs) path b
step_other x rs path none m n = (m, n)
step_other x rs path (some y) m (one, l) = (inr one, (λ m'. absurd cc, l))

pub best-IsBest : (rs : RouteTable) (path : String) → IsBest rs path (best rs path)
best-IsBest [] path = tt
best-IsBest (x ∷ rs) path = elim (Bool-cases (matches x.0 path)) [
  | inl m ↦ rw m (step_match x rs path (best rs path) m (best-IsBest rs path))
  | inr n ↦ rw n (step_other x rs path (best rs path) n (best-IsBest rs path))
]

chosen :
    (rs all : RouteTable) (path : String) (y : String × Route)
    → IsLongest all path y.0
    → OneOf (λ x. (x.1 ≡ y.1) × (x.0 ≡ y.0) × (matches x.0 path ≡ true)) rs
    → OneOf (λ x. (x.1 ≡ y.1) × (matches x.0 path ≡ true) × IsLongest all path x.0) rs
chosen [] all path y l x = elim x [ ]
chosen (x ∷ rs) all path y l (inl (route, pattern, m)) =
    inl (route, m, subst (IsLongest all path) (sym pattern) l)
chosen (x ∷ rs) all path y l (inr one) = inr (chosen rs all path y l one)

abbrev route_of : Best → Option Route
route_of none = none
route_of (some y) = some y.1

pub longest :
    (rs : RouteTable) (path : String) (route : Route) (b : Best)
    → IsBest rs path b
    → route_of b ≡ some route
    → IsChosen rs path route
longest rs path route none n e = absurd cc
longest rs path route (some y) (one, l) e =
    subst (IsChosen rs path) (some_inj e) (chosen rs rs path y l one)

abbrev pub longest_mux : Mux
longest_mux = record {
  choose = λ rs r. route_of (best rs r.path);
  own = λ r. not_found;
  longest = λ rs r route e. longest rs r.path route (best rs r.path) (best-IsBest rs r.path) e;
}
