-- ===== src/Router/Examples.antt =====
-- A route of the management API at a concrete request.
use protogate.Base.{◌≡◌, refl, arith, true, List, [], ◌∷◌, ◌++◌, some, text_eq, codes, All}
use protogate.Router.Dispatch.{answer_of, add_route-route}
use protogate.Router.Groups.{fill}
use protogate.Router.Pattern.{Piece, literal, param, pattern_of, names_of, items_of, IsPlain}
use protogate.Router.Regex.{group, is_special}
use protogate.Router.Routes.{
  ApiRequest, ApiResponse, Route, RouteHandler, add_route, extract_params, route, captures_of,
}

-- `/t/{id}/m`
abbrev pieces : List Piece
pieces = literal 47 ∷ literal 116 ∷ literal 47 ∷ param (codes "id") ∷ literal 47 ∷ literal 109 ∷ []

abbrev request : ApiRequest
request = record {
  method = codes "GET";
  path = codes "/t/db/m";
  query_string = [];
  headers = [];
  path_params = [];
  body = [];
  remote_ip = [];
}

abbrev response : ApiResponse
response = record { status_code = 200; headers = []; body = [] }

-- A handler that throws.
abbrev handler : RouteHandler
handler r answer = (answer, true)

abbrev other : Route
other = record { method = codes "POST"; pattern = group ∷ []; param_names = []; handler = handler }

pattern_test : pattern_of pieces ≡ codes "/t/{id}/m"
unfolding pattern_of
pattern_test = refl

pieces-IsPlain : All IsPlain pieces
unfolding is_special
pieces-IsPlain = (refl, (refl, (refl, ((refl, (refl, tt)), (refl, (refl, tt))))))

add_route-route_example :
    (routes : List Route) × (add_route (codes "GET") (pattern_of pieces) handler (other ∷ [])
      ≡ some routes)
    × (route (routes ++ other ∷ []) request response ≡ (
      answer_of handler
          (record request { path_params = extract_params (names_of pieces) (codes "db" ∷ []) })
          response,
      true,
    ))
add_route-route_example =
    add_route-route (codes "GET") pieces handler (other ∷ []) (other ∷ []) request response
      (codes "db" ∷ []) pieces-IsPlain (unfold items_of in (refl, tt))
      (unfold items_of in (((refl, (refl, tt)), omega arith), tt)) refl
      (unfold items_of fill in refl) (unfold captures_of text_eq in (refl, tt))
