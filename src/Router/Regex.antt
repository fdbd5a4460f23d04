-- ===== src/Router/Regex.antt =====
-- The part of `std::regex` that the router uses: its patterns are made of characters that stand for
-- themselves and of the group `([^/]+)`. A text with any other special character is outside this part,
-- and `parse_regex` gives nothing for it.
use protogate.Base.{
  ℕ, zero, suc, Bool, ◌||◌, List, [], ◌∷◌, Option, none, some, length, drop, ◌==◌, if◌then◌else◌,
  Text, codes,
}
use protogate.Security.Tokens.{has_prefix}

pub data Item : Type 0 where
  letter : ℕ → Item
  group : Item

abbrev pub Regex : Type 0
Regex = List Item

-- One of `\ ^ $ . | ? * + ( ) [ ] { }`.
unfoldable pub is_special : ℕ → Bool
is_special c =
    c == 92
    || c == 94
    || c == 36
    || c == 46
    || c == 124
    || c == 63
    || c == 42
    || c == 43
    || c == 40
    || c == 41
    || c == 91
    || c == 93
    || c == 123
    || c == 125

abbrev pub group_text : Text
group_text = codes "([^/]+)"

-- An item takes at least one character.
unfoldable pub parse_items : ℕ → Text → Option Regex
parse_items fuel [] = some []
parse_items zero (c ∷ t) = none
parse_items (suc fuel) (c ∷ t) =
    if has_prefix group_text (c ∷ t)
    then elim (parse_items fuel (drop 6 t)) [ none ↦ none | some r ↦ some (group ∷ r) ]
    else if is_special c
    then none
    else elim (parse_items fuel t) [ none ↦ none | some r ↦ some (letter c ∷ r) ]

unfoldable pub parse_regex : Text → Option Regex
parse_regex t = parse_items (length t) t

-- `[^/]+`, the longest first, and behind it what the rest of the expression matches.
unfoldable pub match_group : (Text → Option (List Text)) → Text → Option (List Text)
match_group rest [] = none
match_group rest (c ∷ t) = if c == 47 then none else elim (match_group rest t) [
  | some (w ∷ ws) ↦ some ((c ∷ w) ∷ ws)
  | _ ↦ elim (rest t) [ none ↦ none | some ws ↦ some ((c ∷ []) ∷ ws) ]
]

-- `std::regex_match`: what the groups have captured, if the whole text matches.
unfoldable pub regex_match : Regex → Text → Option (List Text)
regex_match [] [] = some []
regex_match [] (c ∷ t) = none
regex_match (letter a ∷ r) [] = none
regex_match (letter a ∷ r) (c ∷ t) = if c == a then regex_match r t else none
regex_match (group ∷ r) t = match_group (regex_match r) t
