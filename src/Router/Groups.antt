-- ===== src/Router/Groups.antt =====
-- What the router's expressions match.
use protogate.Base.{
  ◌≤◌, ◌≡◌, refl, ◌∙◌, ap, ◌↔◌, arith, true, List, [], ◌∷◌, ◌++◌, Option, none, some, length, ◌==◌,
  Text, Bool-cases, Option-cases, inl, inr, eq_of_some,
}
use protogate.Http.Lines.{Lacks}
use protogate.Router.Regex.{letter, group, Regex, match_group, regex_match}

-- Something with no slash in it.
abbrev pub IsSegment : Text → Type 0
IsSegment w = Lacks 47 w × (1 ≤ length w)

-- The text that an expression stands for when its groups stand for these.
unfoldable pub fill : Regex → List Text → Text
fill [] ws = []
fill (letter c ∷ r) ws = c ∷ fill r ws
fill (group ∷ r) [] = []
fill (group ∷ r) (w ∷ ws) = w ++ fill r ws

-- One segment for each group.
abbrev pub Fills : Regex → List Text → Type 0
Fills [] [] = Unit
Fills [] (w ∷ ws) = ⊥
Fills (letter c ∷ r) ws = Fills r ws
Fills (group ∷ r) [] = ⊥
Fills (group ∷ r) (w ∷ ws) = IsSegment w × Fills r ws

match_group-IsSegment :
    (rest : Text → Option (List Text)) (t : Text) (ws : List Text)
    → match_group rest t ≡ some ws
    → (w : Text) × (ws' : List Text) × (u : Text) × (ws ≡ w ∷ ws')
      × IsSegment w
      × (t ≡ w ++ u)
      × (rest u ≡ some ws')
unfolding match_group
match_group-IsSegment rest [] ws e = absurd (ground (arith, e))
match_group-IsSegment rest (c ∷ t) ws e = elim (Bool-cases (c == 47)) [
  | inl slash ↦ absurd (ground (arith, e, slash))
  | inr other ↦ elim (Option-cases (match_group rest t)) [
    | inl short ↦ elim (Option-cases (rest t)) [
      | inl gone ↦ absurd (ground (arith, e, other, short, gone))
      | inr (ws', found) ↦ (
        c ∷ [],
        ws',
        t,
        ground (arith, e, other, short, found),
        ((other, tt), omega arith),
        refl,
        found,
      )
    ]
    | inr (longer, found) ↦
        let (w, ws', u, parts, (clean, long), text, later) =
          match_group-IsSegment rest t longer found in
        (
          c ∷ w,
          ws',
          u,
          ground (arith, e, other, found, parts),
          ((other, clean), omega arith),
          ap (◌∷◌ c) text,
          later,
        )
  ]
]

regex_match_sound :
    (r : Regex) (t : Text) (ws : List Text)
    → regex_match r t ≡ some ws
    → Fills r ws × (t ≡ fill r ws)
unfolding regex_match fill
regex_match_sound [] [] ws e = rw (← eq_of_some e) (tt, refl)
regex_match_sound [] (c ∷ t) ws e = absurd (ground (arith, e))
regex_match_sound (letter a ∷ r) [] ws e = absurd (ground (arith, e))
regex_match_sound (letter a ∷ r) (c ∷ t) ws e = elim (Bool-cases (c == a)) [
  | inl same ↦
      let (fits, text) = regex_match_sound r t ws (ground (arith, e, same)) in
      (fits, ground (arith, same, text))
  | inr other ↦ absurd (ground (arith, e, other))
]
regex_match_sound (group ∷ r) t ws e =
    let (w, ws', u, parts, segment, text, later) = match_group-IsSegment (regex_match r) t ws e in
    let (fits, rest) = regex_match_sound r u ws' later in
    rw parts ((segment, fits), text ∙ ap (λ v. w ++ v) rest)

-- A group ends the expression or has a slash behind it.
abbrev pub IsApart : Regex → Type 0
IsApart [] = Unit
IsApart (letter c ∷ r) = IsApart r
IsApart (group ∷ []) = Unit
IsApart (group ∷ letter c ∷ r) = ((c == 47) ≡ true) × IsApart r
IsApart (group ∷ group ∷ r) = ⊥

tail-IsApart : (r : Regex) → IsApart (group ∷ r) → IsApart r
tail-IsApart [] h = tt
tail-IsApart (letter c ∷ r) h = h.1
tail-IsApart (group ∷ r) h = absurd h

-- No segment begins where a group has to end.
match_group-end :
    (rest : Text → Option (List Text)) (r : Regex) (ws : List Text)
    → IsApart (group ∷ r)
    → match_group rest (fill r ws) ≡ none
unfolding match_group fill
match_group-end rest [] ws h = refl
match_group-end rest (letter c ∷ r) ws h = ground (arith, h.0)
match_group-end rest (group ∷ r) ws h = absurd h

match_group-append :
    (rest : Text → Option (List Text)) (w u : Text) (ws : List Text)
    → IsSegment w
    → match_group rest u ≡ none
    → rest u ≡ some ws
    → match_group rest (w ++ u) ≡ some (w ∷ ws)
unfolding match_group
match_group-append rest [] u ws h stop e = absurd (omega (arith, h.1))
match_group-append rest (c ∷ []) u ws h stop e = ground (arith, h.0.0, stop, e)
match_group-append rest (c ∷ d ∷ w) u ws h stop e =
    ground (arith, h.0.0, match_group-append rest (d ∷ w) u ws (h.0.1, omega arith) stop e)

regex_match_complete :
    (r : Regex) (ws : List Text) → IsApart r → Fills r ws → regex_match r (fill r ws) ≡ some ws
unfolding regex_match fill
regex_match_complete [] [] apart h = refl
regex_match_complete [] (w ∷ ws) apart h = absurd h
regex_match_complete (letter c ∷ r) ws apart h = ground (arith, regex_match_complete r ws apart h)
regex_match_complete (group ∷ r) [] apart h = absurd h
regex_match_complete (group ∷ r) (w ∷ ws) apart (segment, h) =
    match_group-append (regex_match r) w (fill r ws) ws segment
      (match_group-end (regex_match r) r ws apart)
      (regex_match_complete r ws (tail-IsApart r apart) h)

-- Where each group ends the expression or has a slash behind it, the expression matches a text, with
-- these captures, exactly if the text is the expression with the captures in place of the groups, and
-- the captures are one segment without a slash for each group.
pub regex_match_iff :
    (r : Regex) (t : Text) (ws : List Text)
    → IsApart r
    → (regex_match r t ≡ some ws) ↔ (Fills r ws × (t ≡ fill r ws))
regex_match_iff r t ws apart =
    (λ e. regex_match_sound r t ws e, λ h. rw h.1 (regex_match_complete r ws apart h.0))
