-- ===== src/Routes/Tests.antt =====
-- Requests to the table of routes.
use nalang_project.Prelude.{String, ◌≡◌, refl, [], ◌∷◌, string_eq}
use nalang_project.Routes.Table.{
  post, get, fits, answers, touches, search_routes, resolve, reached, get_me, get_partner,
  method_not_allowed, not_found,
}

me : resolve get ("api" ∷ "v1" ∷ "user" ∷ "me" ∷ []) ≡ reached get_me
unfolding resolve search_routes answers touches fits
me = refl

seven : resolve get ("api" ∷ "v1" ∷ "user" ∷ "7" ∷ []) ≡ reached get_partner
unfolding resolve search_routes answers touches fits
seven = refl

-- The path is there, but only for another method.
post_seven : resolve post ("api" ∷ "v1" ∷ "user" ∷ "7" ∷ []) ≡ method_not_allowed
unfolding resolve search_routes answers touches fits
post_seven = refl

abbrev value : String → String
value _ = "7"

-- An empty segment is no number of a partner.
no_partner : resolve get ("api" ∷ "v1" ∷ "user" ∷ "" ∷ []) ≡ not_found
unfolding resolve search_routes answers touches fits
no_partner = refl
