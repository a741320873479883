-- ===== src/Routes/Shadowed.antt =====
-- Which routes of the table are reached.
use nalang_project.Prelude.{String, Bool, true, false, List, [], ◌∷◌, string_eq}
use nalang_project.Routes.Table.{Segment, fixed, parameter, Handler, refresh_token_route}

abbrev pub is_refresh_token_route : Handler → Bool
is_refresh_token_route refresh_token_route = true
is_refresh_token_route _ = false

-- A path of a route, with a segment for each parameter.
abbrev pub fill : (String → String) → List Segment → List String
fill f [] = []
fill f (fixed s ∷ p) = s ∷ fill f p
fill f (parameter x ∷ p) = f x ∷ fill f p
