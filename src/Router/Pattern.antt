-- ===== src/Router/Pattern.antt =====
-- Patterns with parameters, and the requests that the router hands to their routes.
use protogate.Base.{
  ℕ, zero, suc, ◌≤◌, ◌≡◌, refl, ◌∙◌, ap, arith, false, List, [], ◌∷◌, ◌++◌, Option, none, some,
  length, length-append, ◌==◌, Text, text_eq, All,
}
use protogate.Http.Lines.{Lacks, split_at-first}
use protogate.Http.Text.{split_at}
use protogate.Router.Regex.{letter, group, Regex, is_special, group_text, parse_items, parse_regex}
use protogate.Router.Routes.{Route, RouteHandler, compile_from, compile_pattern, add_route}
use protogate.Security.Tokens.{has_prefix}

-- A pattern in its parts.
pub data Piece : Type 0 where
  literal : ℕ → Piece
  param : Text → Piece

unfoldable pub pattern_of : List Piece → Text
pattern_of [] = []
pattern_of (literal c ∷ ps) = c ∷ pattern_of ps
pattern_of (param name ∷ ps) = 123 ∷ (name ++ (125 ∷ pattern_of ps))

unfoldable pub names_of : List Piece → List Text
names_of [] = []
names_of (literal c ∷ ps) = names_of ps
names_of (param name ∷ ps) = name ∷ names_of ps

unfoldable pub items_of : List Piece → Regex
items_of [] = []
items_of (literal c ∷ ps) = letter c ∷ items_of ps
items_of (param name ∷ ps) = group ∷ items_of ps

regex_text : List Piece → Text
regex_text [] = []
regex_text (literal c ∷ ps) = c ∷ regex_text ps
regex_text (param name ∷ ps) = group_text ++ regex_text ps

-- Literals stand for themselves in an expression, and names hold no closing brace.
abbrev pub IsPlain : Piece → Type 0
IsPlain (literal c) = is_special c ≡ false
IsPlain (param name) = Lacks 125 name

params : List Piece → ℕ
params [] = 0
params (literal c ∷ ps) = params ps
params (param name ∷ ps) = suc (params ps)

params-le : (ps : List Piece) → params ps ≤ length (pattern_of ps)
unfolding params pattern_of
params-le [] = omega arith
params-le (literal c ∷ ps) = omega (arith, params-le ps)
params-le (param name ∷ ps) =
    omega (arith, params-le ps, length-append {0} name (125 ∷ pattern_of ps))

abbrev cons_first : ℕ → Option (Text × List Text) → Option (Text × List Text)
cons_first c none = none
cons_first c (some (text, names)) = some (c ∷ text, names)

compile_from-literal :
    (fuel c : ℕ) (p : Text)
    → (c == 123) ≡ false
    → compile_from (suc fuel) (c ∷ p) ≡ cons_first c (compile_from (suc fuel) p)
unfolding compile_from split_at
compile_from-literal fuel c p other = ground (arith, other)

compile_from-param :
    (fuel : ℕ) (name p : Text)
    → Lacks 125 name
    → compile_from (suc fuel) (123 ∷ (name ++ (125 ∷ p))) ≡ (elim (compile_from fuel p) [
      | none ↦ none
      | some (text, names) ↦ some (group_text ++ text, name ∷ names)
    ])
unfolding compile_from split_at
compile_from-param fuel name p clean = ground (arith, split_at-first 125 name p clean)

special_brace : (c : ℕ) → is_special c ≡ false → ((c == 123) ≡ false) × ((c == 40) ≡ false)
unfolding is_special
special_brace c h = (ground (arith, h), ground (arith, h))

compile_from-pattern_of :
    (fuel : ℕ) (ps : List Piece)
    → params ps ≤ fuel
    → All IsPlain ps
    → compile_from (suc fuel) (pattern_of ps) ≡ some (regex_text ps, names_of ps)
unfolding params pattern_of regex_text names_of
compile_from-pattern_of fuel [] h plain = unfold compile_from split_at in refl
compile_from-pattern_of fuel (literal c ∷ ps) h (p, plain) =
    compile_from-literal fuel c (pattern_of ps) (special_brace c p).0
    ∙ ap (cons_first c) (compile_from-pattern_of fuel ps h plain)
compile_from-pattern_of zero (param name ∷ ps) h (p, plain) = absurd (omega arith)
compile_from-pattern_of (suc fuel) (param name ∷ ps) h (p, plain) =
    compile_from-param (suc fuel) name (pattern_of ps) p
    ∙ rw (compile_from-pattern_of fuel ps (omega arith) plain) refl

parse_items-regex_text :
    (fuel : ℕ) (ps : List Piece)
    → length (regex_text ps) ≤ fuel
    → All IsPlain ps
    → parse_items fuel (regex_text ps) ≡ some (items_of ps)
unfolding parse_items regex_text items_of has_prefix text_eq
parse_items-regex_text zero [] h plain = refl
parse_items-regex_text (suc fuel) [] h plain = refl
parse_items-regex_text zero (literal c ∷ ps) h plain = absurd (omega arith)
parse_items-regex_text zero (param name ∷ ps) h plain = absurd (omega arith)
parse_items-regex_text (suc fuel) (literal c ∷ ps) h (p, plain) =
    rw ((special_brace c p).1, p, parse_items-regex_text fuel ps (omega arith) plain) refl
parse_items-regex_text (suc fuel) (param name ∷ ps) h (p, plain) =
    rw (parse_items-regex_text fuel ps (omega arith) plain) refl

-- The route of a pattern.
abbrev pub route_of : Text → List Piece → RouteHandler → Route
route_of method ps handler = record {
  method = method;
  pattern = items_of ps;
  param_names = names_of ps;
  handler = handler;
}

pub add_route-pattern_of :
    (method : Text) (ps : List Piece) (handler : RouteHandler) (routes : List Route)
    → All IsPlain ps
    → add_route method (pattern_of ps) handler routes
      ≡ some (routes ++ route_of method ps handler ∷ [])
unfolding add_route compile_pattern parse_regex
add_route-pattern_of method ps handler routes plain = ground (
  arith,
  compile_from-pattern_of (length (pattern_of ps)) ps (params-le ps) plain,
  parse_items-regex_text (length (regex_text ps)) ps (omega arith) plain,
)
