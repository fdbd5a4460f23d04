-- ===== src/Router/Dispatch.antt =====
-- Which route a request goes to.
use protogate.Base.{
  ◌≡◌, refl, arith, true, List, [], ◌∷◌, ◌++◌, append_assoc, none, some, Text, text_eq_refl, All,
  if◌then◌else◌, codes,
}
use protogate.Router.Groups.{IsApart, Fills, fill, regex_match_iff}
use protogate.Router.Pattern.{
  Piece, pattern_of, names_of, items_of, IsPlain, route_of, add_route-pattern_of,
}
use protogate.Router.Routes.{
  ApiRequest, ApiResponse, Route, RouteHandler, add_route, extract_params, invoke, captures_of,
  route, set_error,
}

-- The route is not for the request.
abbrev pub Passes : ApiRequest → Route → Type 0
Passes request r = captures_of r request ≡ none

route-first :
    (before after : List Route) (r : Route) (request : ApiRequest) (response : ApiResponse)
    (captures : List Text)
    → All (Passes request) before
    → captures_of r request ≡ some captures
    → route (before ++ r ∷ after) request response ≡ (invoke r captures request response, true)
unfolding route
route-first [] after r request response captures passed found = rw (found, route) refl
route-first (q ∷ before) after r request response captures (p, passed) found =
    ground (arith, p, route-first before after r request response captures passed found)

-- The answer of a handler, or 500 where it throws.
abbrev pub answer_of : RouteHandler → ApiRequest → ApiResponse → ApiResponse
answer_of handler request response =
    let (answer, threw) = handler request response in
    if threw then set_error 500 (codes "Internal server error") answer else answer

-- A pattern of plain literals and parameters, each of which ends it or has a slash behind it, is
-- registered behind the earlier routes. A request with the route's method, whose path is the pattern
-- with one segment in place of each parameter, and for which no earlier route is, goes to the route's
-- handler, whatever routes come later, with the segments under the names of the parameters; the answer
-- is the handler's, or has status 500 where it throws.
pub add_route-route :
    (method : Text) (ps : List Piece) (handler : RouteHandler) (before after : List Route)
    (request : ApiRequest) (response : ApiResponse) (segments : List Text)
    → All IsPlain ps
    → IsApart (items_of ps)
    → Fills (items_of ps) segments
    → method ≡ request.method
    → request.path ≡ fill (items_of ps) segments
    → All (Passes request) before
    → (routes : List Route) × (add_route method (pattern_of ps) handler before ≡ some routes)
      × (route (routes ++ after) request response ≡ (
        answer_of handler
            (record request { path_params = extract_params (names_of ps) segments })
            response,
        true,
      ))
unfolding captures_of invoke
add_route-route method ps handler before after request response segments plain apart fits same path
      passed =
    let r = route_of method ps handler in
    let matched = (regex_match_iff (items_of ps) request.path segments apart).1 (fits, path) in
    let found : captures_of r request ≡ some segments =
      ground (arith, matched, text_eq_refl method, same) in
    (
      before ++ r ∷ [],
      add_route-pattern_of method ps handler before plain,
      rw (append_assoc before (r ∷ []) after)
          (route-first before after r request response segments passed found),
    )
