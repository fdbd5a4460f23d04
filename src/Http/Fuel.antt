-- ===== src/Http/Fuel.antt =====
-- The fuel of the loop over the header lines of a request.
use protogate.Base.{
  ℕ, zero, suc, ◌≤◌, ◌≡◌, refl, Bool-cases, [], ◌∷◌, arith, some, Option-cases, inl, inr, length,
  Text,
}
use protogate.Http.Text.{split_at, getline, is_last, add_line, read_headers}

-- What is left behind a character is shorter.
split_at_shorter :
    (c : ℕ) (t before after : Text)
    → split_at c t ≡ some (before, after)
    → suc (length after) ≤ length t
unfolding split_at
split_at_shorter c [] before after e = absurd (ground (arith, e))
split_at_shorter c (x ∷ t) before after e = elim (Option-cases (split_at c t)) [
  | inl gone ↦ ground (arith, e, gone)
  | inr ((front, rest), parts) ↦ ground (arith, e, parts, split_at_shorter c t front rest parts)
]

getline_shorter :
    (t line rest : Text) → getline t ≡ some (line, rest) → suc (length rest) ≤ length t
unfolding getline
getline_shorter [] line rest e = absurd (ground (arith, e))
getline_shorter (c ∷ t) line rest e = elim (Option-cases (split_at 10 (c ∷ t))) [
  | inl gone ↦ ground (arith, e, gone)
  | inr ((front, behind), parts) ↦
      ground (arith, e, parts, split_at_shorter 10 (c ∷ t) front behind parts)
]

-- On any text, the loop comes to the same headers and the same rest of the text with any two amounts
-- of fuel that are at least the text's length.
pub read_headers-enough :
    {M : Type 0} (add : Text → Text → M → M) (n k : ℕ) (t : Text) (m : M)
    → length t ≤ n
    → length t ≤ k
    → read_headers add n t m ≡ read_headers add k t m
unfolding read_headers getline
read_headers-enough add zero zero t m hn hk = refl
read_headers-enough add zero (suc k) [] m hn hk = refl
read_headers-enough add zero (suc k) (c ∷ t) m hn hk = absurd (omega arith)
read_headers-enough add (suc n) zero [] m hn hk = refl
read_headers-enough add (suc n) zero (c ∷ t) m hn hk = absurd (omega arith)
read_headers-enough add (suc n) (suc k) t m hn hk = elim (Option-cases (getline t)) [
  | inl gone ↦ ground (arith, gone)
  | inr ((line, rest), taken) ↦ elim (Bool-cases (is_last line)) [
    | inl last ↦ ground (arith, taken, last)
    | inr more ↦ ground (
      arith,
      taken,
      more,
      read_headers-enough add n k rest (add_line add line m)
          (omega (arith, getline_shorter t line rest taken))
          (omega (arith, getline_shorter t line rest taken)),
    )
  ]
]
