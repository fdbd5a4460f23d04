-- ===== src/AgentServer/Header.antt =====
-- Where the value of a header of an agent's request stands in its text, src/server/agent_server.cpp.
use protogate.AgentServer.{AuthHeaders, auth_line, auth_lines}
use protogate.Base.{
  ℕ, zero, suc, ◌≡◌, refl, sym, subst, ◌∙◌, ap, true, Bool-cases, Option-cases, [], ◌∷◌, ◌++◌,
  append_assoc, append-nil, arith, some, inl, inr, ◌⊎◌, ◌==◌, length, length-append, drop, Text,
  codes, text_eq_prefix,
}
use protogate.Http.Text.{split_at, getline, pop_cr, is_last}
use protogate.Security.Tokens.{has_prefix}

split_at_sound :
    (c : ℕ) (t before rest : Text) → split_at c t ≡ some (before, rest) → t ≡ before ++ (c ∷ rest)
unfolding split_at
split_at_sound c [] before rest e = absurd (ground (arith, e))
split_at_sound c (x ∷ t) before rest e = elim (Bool-cases (x == c)) [
  | inl here ↦ ground (arith, e, here)
  | inr there ↦ elim (Option-cases (split_at c t)) [
    | inl gone ↦ absurd (ground (arith, e, there, gone))
    | inr ((front, back), found) ↦
        let tail = split_at_sound c t front back found in ground (arith, e, there, found, tail)
  ]
]

-- A line ends with a newline, or the text ends with it.
getline_sound :
    (t line rest : Text)
    → getline t ≡ some (line, rest)
    → (t ≡ line ++ (10 ∷ rest)) ⊎ ((t ≡ line) × (rest ≡ []))
unfolding getline
getline_sound [] line rest e = absurd (ground (arith, e))
getline_sound (c ∷ t) line rest e = elim (Option-cases (split_at 10 (c ∷ t))) [
  | inl last ↦ inr (ground (arith, e, last), ground (arith, e, last))
  | inr ((front, back), found) ↦
      inl (split_at_sound 10 (c ∷ t) line rest (ground (arith, e, found)))
]

pop_cr_sound : (t : Text) → (t ≡ pop_cr t) ⊎ (t ≡ pop_cr t ++ (13 ∷ []))
unfolding pop_cr
pop_cr_sound [] = inl refl
pop_cr_sound (c ∷ []) = elim (Bool-cases (c == 13)) [
  | inl cr ↦ inr (ground (arith, cr))
  | inr other ↦ inl (ground (arith, other))
]
pop_cr_sound (c ∷ d ∷ t) = elim (pop_cr_sound (d ∷ t)) [
  | inl whole ↦ inl (ap (◌∷◌ c) whole)
  | inr cut ↦ inr (ap (◌∷◌ c) cut)
]

-- Nothing, or the end of a line.
abbrev pub EndsLine : Text → Type 0
EndsLine [] = Unit
EndsLine (c ∷ t) = (c ≡ 10) ⊎ (c ≡ 13)

abbrev pub StartsLine : Text → Type 0
StartsLine before = (before ≡ []) ⊎ ((b : Text) × (before ≡ b ++ (10 ∷ [])))

-- A line of the text is `Authorization: ` with the value behind it.
abbrev pub HasAuthorization : Text → Text → Type 0
HasAuthorization t value =
    (before : Text) × (rest : Text) × (t ≡ before ++ (codes "Authorization: " ++ (value ++ rest)))
    × StartsLine before
    × EndsLine rest

-- The line itself, and what a carriage return leaves behind the value.
LineOf : Text → Text → Type 0
LineOf line value =
    (rest : Text) × (line ≡ codes "Authorization: " ++ (value ++ rest))
    × ((rest ≡ []) ⊎ (rest ≡ 13 ∷ []))

has_prefix_sound : (p s : Text) → has_prefix p s ≡ true → s ≡ p ++ drop (length p) s
unfolding has_prefix
has_prefix_sound p s e = text_eq_prefix p s e

auth_line-LineOf :
    (line : Text) (h : AuthHeaders)
    → ((auth_line line h).authorization ≡ h.authorization)
      ⊎ LineOf line (auth_line line h).authorization
unfolding auth_line LineOf
auth_line-LineOf line h =
    let name : Text = codes "Authorization: " in
    let value = drop 15 (pop_cr line) in
    elim (Bool-cases (has_prefix name (pop_cr line))) [
      | inr other ↦ inl (ground (arith, other))
      | inl here ↦
          let same : (auth_line line h).authorization ≡ value = ground (arith, here) in
          let whole : pop_cr line ≡ name ++ value = has_prefix_sound name (pop_cr line) here in
          inr (
            subst (LineOf line) (sym same) (elim (pop_cr_sound line) [
              | inl uncut ↦
                  ([], uncut ∙ whole ∙ ap (λ v. name ++ v) (sym (append-nil value)), inl refl)
              | inr cut ↦ (
                13 ∷ [],
                cut ∙ ap (λ l. l ++ (13 ∷ [])) whole ∙ append_assoc name value (13 ∷ []),
                inr refl,
              )
            ]))
    ]

-- A line in front of the others.
first-HasAuthorization :
    (t line rest value : Text)
    → (t ≡ line ++ (10 ∷ rest)) ⊎ ((t ≡ line) × (rest ≡ []))
    → LineOf line value
    → HasAuthorization t value
unfolding LineOf
first-HasAuthorization t line rest value (inl more) (r, is_line, ends) =
    let name : Text = codes "Authorization: " in
    (
      [],
      r ++ (10 ∷ rest),
      more
          ∙ ap (λ l. l ++ (10 ∷ rest)) is_line
          ∙ append_assoc name (value ++ r) (10 ∷ rest)
          ∙ ap (λ l. name ++ l) (append_assoc value r (10 ∷ rest)),
      inl refl,
      elim ends [
        | inl nothing ↦ subst (λ r. EndsLine (r ++ (10 ∷ rest))) (sym nothing) (inl refl)
        | inr cr ↦ subst (λ r. EndsLine (r ++ (10 ∷ rest))) (sym cr) (inr refl)
      ],
    )
first-HasAuthorization t line rest value (inr (last, gone)) (r, is_line, ends) = (
  [],
  r,
  last ∙ is_line,
  inl refl,
  elim ends [
    | inl nothing ↦ subst EndsLine (sym nothing) tt
    | inr cr ↦ subst EndsLine (sym cr) (inr refl)
  ],
)

-- A line among the others.
later-HasAuthorization :
    (t line rest value : Text)
    → (t ≡ line ++ (10 ∷ rest)) ⊎ ((t ≡ line) × (rest ≡ []))
    → HasAuthorization rest value
    → HasAuthorization t value
later-HasAuthorization t line rest value (inl more) (before, end, stands, starts, ends) = (
  line ++ (10 ∷ before),
  end,
  more
      ∙ ap (λ l. line ++ (10 ∷ l)) stands
      ∙ sym (append_assoc line (10 ∷ before) (codes "Authorization: " ++ (value ++ end))),
  inr (elim starts [
    | inl front ↦ (line, ap (λ b. line ++ (10 ∷ b)) front)
    | inr (b, newline) ↦ (
      line ++ (10 ∷ b),
      ap (λ b. line ++ (10 ∷ b)) newline ∙ sym (append_assoc line (10 ∷ b) (10 ∷ [])),
    )
  ]),
  ends,
)
later-HasAuthorization t line rest value (inr (last, gone)) (before, end, stands, starts, ends) =
    let some_text = length-append before (codes "Authorization: " ++ (value ++ end)) in
    absurd (omega (arith, some_text, ap length (sym gone ∙ stands)))

-- The value that is read stands in the text, if it is not the one from before.
pub auth_lines-HasAuthorization :
    (n : ℕ) (t : Text) (h : AuthHeaders)
    → ((auth_lines n t h).authorization ≡ h.authorization)
      ⊎ HasAuthorization t (auth_lines n t h).authorization
unfolding auth_lines
auth_lines-HasAuthorization zero t h = inl refl
auth_lines-HasAuthorization (suc n) t h = elim (Option-cases (getline t)) [
  | inl gone ↦ rw (auth_lines, gone) (inl refl)
  | inr ((line, rest), found) ↦
      let parts = getline_sound t line rest found in
      elim (Bool-cases (is_last line)) [
        | inl last ↦ rw (auth_lines, found, last) (inl refl)
        | inr more ↦
            rw (auth_lines, found, more)
              (elim (auth_lines-HasAuthorization n rest (auth_line line h)) [
                | inr later ↦ inr (later-HasAuthorization t line rest _ parts later)
                | inl kept ↦ elim (auth_line-LineOf line h) [
                  | inl unread ↦ inl (kept ∙ unread)
                  | inr read ↦ inr (
                      subst (HasAuthorization t) (sym kept)
                        (first-HasAuthorization t line rest _ parts read))
                ]
              ])
      ]
]
