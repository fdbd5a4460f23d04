-- ===== src/Router/Routes.antt =====
-- `HttpRequest`, `HttpResponse` and `Router` of src/api/router.h, router.cpp: registering routes, and
-- finding the one for a request. A handler returns the response and whether it threw.
use protogate.Base.{
  ℕ, zero, suc, Bool, true, false, List, [], ◌∷◌, ◌++◌, Option, none, some, length, not,
  if◌then◌else◌, Text, Map, insert, text_eq, codes,
}
use protogate.Http.Response.{decimal}
use protogate.Http.Text.{split_at}
use protogate.Router.Regex.{Regex, group_text, parse_regex, regex_match}

pub record ApiRequest : Type 0 where
  pub method : Text
  pub path : Text
  pub query_string : Text
  pub headers : Map Text
  pub path_params : Map Text
  pub body : Text
  pub remote_ip : Text

pub record ApiResponse : Type 0 where
  pub status_code : ℕ
  pub headers : Map Text
  pub body : Text

unfoldable pub set_json : Text → ApiResponse → ApiResponse
set_json json_body r = record r {
  body = json_body;
  headers =
      insert (codes "Content-Length") (decimal (length json_body))
        (insert (codes "Content-Type") (codes "application/json") r.headers);
}

unfoldable pub set_error : ℕ → Text → ApiResponse → ApiResponse
set_error code message r =
    set_json (codes "{\"error\":\"" ++ (message ++ codes "\"}")) (record r { status_code = code })

abbrev pub RouteHandler : Type 0
RouteHandler = ApiRequest → ApiResponse → ApiResponse × Bool

pub record Route : Type 0 where
  pub method : Text
  pub pattern : Regex
  pub param_names : List Text
  pub handler : RouteHandler

-- The loop of `compile_pattern`: the text of the expression and the names. Each turn but the last takes
-- two characters or more. `none` is the exception for a parameter that is not closed.
unfoldable pub compile_from : ℕ → Text → Option (Text × List Text)
compile_from zero pattern = none
compile_from (suc fuel) pattern = elim (split_at 123 pattern) [
  | none ↦ some (pattern, [])
  | some (before, after) ↦ elim (split_at 125 after) [
    | none ↦ none
    | some (name, rest) ↦ elim (compile_from fuel rest) [
      | none ↦ none
      | some (text, names) ↦ some (before ++ (group_text ++ text), name ∷ names)
    ]
  ]
]

unfoldable pub compile_pattern : Text → Option (Text × List Text)
compile_pattern pattern = compile_from (suc (length pattern)) pattern

-- `get`, `post`, `put` and `delete_route`, which differ in the method.
unfoldable pub add_route : Text → Text → RouteHandler → List Route → Option (List Route)
add_route method pattern handler routes = elim (compile_pattern pattern) [
  | none ↦ none
  | some (text, names) ↦ elim (parse_regex text) [
    | none ↦ none
    | some regex ↦ some (
        routes
        ++ record { method = method; pattern = regex; param_names = names; handler = handler } ∷ [])
  ]
]

-- `extract_params`: as many as there are names and captures.
unfoldable pub params_from : List Text → List Text → Map Text → Map Text
params_from [] captures params = params
params_from (name ∷ names) [] params = params
params_from (name ∷ names) (value ∷ captures) params =
    params_from names captures (insert name value params)

unfoldable pub extract_params : List Text → List Text → Map Text
extract_params names captures = params_from names captures []

-- The call of the handler, with the answer to an exception.
unfoldable pub invoke : Route → List Text → ApiRequest → ApiResponse → ApiResponse
invoke r captures request response =
    let mutable_request : ApiRequest = record request {
      path_params = extract_params r.param_names captures;
    } in
    let (answer, threw) = r.handler mutable_request response in
    if threw then set_error 500 (codes "Internal server error") answer else answer

-- What a route captures of a request, if it is for it.
unfoldable pub captures_of : Route → ApiRequest → Option (List Text)
captures_of r request =
    if not (text_eq r.method request.method) then none else regex_match r.pattern request.path

unfoldable pub route : List Route → ApiRequest → ApiResponse → ApiResponse × Bool
route [] request response = (set_error 404 (codes "Not found") response, false)
route (r ∷ routes) request response = elim (captures_of r request) [
  | none ↦ route routes request response
  | some captures ↦ (invoke r captures request response, true)
]
