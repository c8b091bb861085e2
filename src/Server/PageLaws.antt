-- ===== src/Server/PageLaws.antt =====
-- cmd/server/main.go: where paths lead.
use sounding.Prelude.{
  ◌≡◌, ◌⊎◌, refl, some, List, [], ◌∷◌, ◌++◌, Text, bytes, any, same, find_first, inl, inr,
  Bool-cases, Option-cases, ℕ,
}
use sounding.Strings.{after_last, strip}
use sounding.Server.Pages.{
  Page, is_subtree, page, redirect, is_under, longest, longer, route_of, page_routes, routes,
  dashboard_routes,
}

-- A route that a path is under stays one, whatever patterns are registered before it.
longest-append :
    (path : Text) (rs ss : List (Text × Page))
    → ((r : Text × Page) × (longest path ss ≡ some r))
    → (r : Text × Page) × (longest path (rs ++ ss) ≡ some r)
unfolding longest
longest-append path [] ss found = found
longest-append path (r ∷ rs) ss found =
    let (s, e) = longest-append path rs ss found in
    elim (Bool-cases (is_under path r)) [
      | inl under ↦ (longer r (some s), rw (e, under) refl)
      | inr beside ↦ (s, rw (e, beside) refl)
    ]

-- With a dashboard, a path leads to a page, or to itself with a slash; none is missing.
route_of-dashboard :
    (admin_pass dir path : Text) (c : ℕ)
    → ((p : Page) × (route_of (routes admin_pass (c ∷ dir)) (b'/' ∷ path) ≡ page p))
      ⊎ (route_of (routes admin_pass (c ∷ dir)) (b'/' ∷ path) ≡ redirect (b'/' ∷ path ++ bytes "/"))
unfolding route_of routes dashboard_routes longest is_under is_subtree bytes after_last strip same
route_of-dashboard admin_pass dir path c =
    let full = b'/' ∷ path in
    let rs = routes admin_pass (c ∷ dir) in
    let own : Text × Page = (bytes "/", Page.dashboard) in
    let (r, e) = longest-append full (page_routes admin_pass) (own ∷ []) (own, refl) in
    elim (Option-cases (find_first (λ r. same r.0 full) rs)) [
      | inr (s, exact) ↦ inl (s.1, rw exact refl)
      | inl other ↦ elim (Bool-cases (any (λ r. same r.0 (full ++ bytes "/")) rs)) [
        | inl slashed ↦ inr (rw (other, slashed) refl)
        | inr unslashed ↦ inl (r.1, rw (other, unslashed, e) refl)
      ]
    ]
