-- ===== src/Http/Lines.antt =====
-- The parsers' steps on text that is put together from words, lines and headers.
use protogate.Base.{
  ℕ, zero, suc, ◌≤◌, ◌≡◌, refl, true, false, [], ◌∷◌, ◌++◌, arith, length, ◌==◌, ==_refl, some, All,
  All-append, Text, text_eq, Map, append_assoc, ap, sym,
}
use protogate.Http.Request.{header_lines}
use protogate.Http.Text.{
  split_at, getline, is_space, take_word, read_word, read_words, pop_cr, trim, lower, header_of,
  is_last, add_line, read_headers,
}

-- The text has no such character.
abbrev pub Lacks : ℕ → Text → Type 0
Lacks c = All (λ x. (x == c) ≡ false)

-- Something, with no space in it.
abbrev pub IsWord : Text → Type 0
IsWord w = All (λ c. is_space c ≡ false) w × (1 ≤ length w)

pub split_at-first :
    (c : ℕ) (s rest : Text) → Lacks c s → split_at c (s ++ (c ∷ rest)) ≡ some (s, rest)
unfolding split_at
split_at-first c [] rest clean = ground (arith, ==_refl c)
split_at-first c (x ∷ s) rest (other, clean) = ground (arith, other, split_at-first c s rest clean)

pub getline-line : (s rest : Text) → Lacks 10 s → getline (s ++ (10 ∷ rest)) ≡ some (s, rest)
unfolding getline
getline-line [] rest clean = rw (getline, split_at-first 10 [] rest clean) refl
getline-line (x ∷ s) rest clean = rw (getline, split_at-first 10 (x ∷ s) rest clean) refl

pub pop_cr-append : (s : Text) → pop_cr (s ++ (13 ∷ [])) ≡ s
unfolding pop_cr
pop_cr-append [] = refl
pop_cr-append (x ∷ []) = refl
pop_cr-append (x ∷ y ∷ s) = ap (◌∷◌ x) (pop_cr-append (y ∷ s))

IsWord-Lacks : (w : Text) → All (λ c. is_space c ≡ false) w → Lacks 10 w
IsWord-Lacks [] h = tt
IsWord-Lacks (c ∷ w) (solid, h) = (ground (arith, solid), IsWord-Lacks w h)

take_word-append :
    (w rest : Text) (d : ℕ)
    → All (λ c. is_space c ≡ false) w
    → is_space d ≡ true
    → take_word (w ++ (d ∷ rest)) ≡ (w, d ∷ rest)
take_word-append [] rest d solid space = ground (arith, space)
take_word-append (c ∷ w) rest d (first, solid) space =
    rw (take_word-append w rest d solid space, first) refl

take_word-solid : (w : Text) → All (λ c. is_space c ≡ false) w → take_word w ≡ (w, [])
take_word-solid [] solid = refl
take_word-solid (c ∷ w) (first, solid) = rw (take_word-solid w solid, first) refl

read_word-append : (w rest : Text) → IsWord w → read_word (w ++ (32 ∷ rest)) ≡ (w, 32 ∷ rest)
unfolding read_word
read_word-append [] rest (solid, some_) = absurd (omega arith)
read_word-append (c ∷ w) rest ((first, solid), some_) =
    rw (first) (take_word-append (c ∷ w) rest 32 (first, solid) refl)

read_word-all : (w : Text) → IsWord w → read_word w ≡ (w, [])
unfolding read_word
read_word-all [] (solid, some_) = absurd (omega arith)
read_word-all (c ∷ w) ((first, solid), some_) = rw first (take_word-solid (c ∷ w) (first, solid))

read_word-cr : (w : Text) → IsWord w → read_word (w ++ (13 ∷ [])) ≡ (w, 13 ∷ [])
unfolding read_word
read_word-cr [] (solid, some_) = absurd (omega arith)
read_word-cr (c ∷ w) ((first, solid), some_) =
    rw first (take_word-append (c ∷ w) [] 13 (first, solid) refl)

read_word-space : (t : Text) → read_word (32 ∷ t) ≡ read_word t
unfolding read_word
read_word-space t = refl

-- The request line that these words make.
abbrev pub request_line : Text → Text → Text → Text
request_line m p v = m ++ (32 ∷ (p ++ (32 ∷ v)))

pub read_words-request_line :
    (m p v : Text) → IsWord m → IsWord p → IsWord v → read_words (request_line m p v) ≡ (m, (p, v))
unfolding read_words
read_words-request_line m p v hm hp hv =
    rw
      (
        read_word-append m (p ++ (32 ∷ v)) hm,
        read_word-space (p ++ (32 ∷ v)),
        read_word-append p v hp,
        read_word-space v,
        read_word-all v hv,
      )
      refl

-- The same with the carriage return of the line.
pub read_words-line_cr :
    (m p v : Text)
    → IsWord m
    → IsWord p
    → IsWord v
    → read_words (request_line m p v ++ (13 ∷ [])) ≡ (m, (p, v))
unfolding read_words
read_words-line_cr m p v hm hp hv =
    rw
      (
        append_assoc,
        append_assoc,
        read_word-append m (p ++ (32 ∷ (v ++ (13 ∷ [])))) hm,
        read_word-space (p ++ (32 ∷ (v ++ (13 ∷ [])))),
        read_word-append p (v ++ (13 ∷ [])) hp,
        read_word-space (v ++ (13 ∷ [])),
        read_word-cr v hv,
      )
      refl

pub request_line-Lacks :
    (m p v : Text) → IsWord m → IsWord p → IsWord v → Lacks 10 (request_line m p v ++ (13 ∷ []))
request_line-Lacks m p v hm hp hv =
    All-append (λ x. (x == 10) ≡ false) (request_line m p v) (13 ∷ [])
      (All-append (λ x. (x == 10) ≡ false) m (32 ∷ (p ++ (32 ∷ v))) (IsWord-Lacks m hm.0)
        (
          refl,
          All-append (λ x. (x == 10) ≡ false) p (32 ∷ v) (IsWord-Lacks p hp.0)
              (refl, IsWord-Lacks v hv.0),
        ))
      (refl, tt)

-- What `name: value` needs to be read back: no newline, no colon in the name, and no blanks around
-- the value.
abbrev pub IsHeader : Text × Text → Type 0
IsHeader (name, value) = Lacks 58 name × (Lacks 10 name × (Lacks 10 value × (trim value ≡ value)))

abbrev pub header_line : Text → Text → Text
header_line name value = name ++ (58 ∷ 32 ∷ (value ++ (13 ∷ [])))

-- The line with the blank after the colon that `to_string` writes.
header_of-header_line :
    (name value : Text)
    → IsHeader (name, value)
    → header_of (header_line name value) ≡ some (lower name, value)
unfolding header_of trim
header_of-header_line name value (no_colon, (_, (_, trimmed))) =
    rw
      (
        header_of,
        sym (append_assoc name (58 ∷ 32 ∷ value) (13 ∷ [])),
        pop_cr-append,
        split_at-first 58 name (32 ∷ value) no_colon,
      )
      (ap (λ v. some (lower name, v)) trimmed)

is_last-header_line : (name value : Text) → is_last (header_line name value) ≡ false
unfolding text_eq
is_last-header_line [] value = refl
is_last-header_line (x ∷ []) value = ground arith
is_last-header_line (x ∷ y ∷ name) value = ground arith

header_line-Lacks : (name value : Text) → IsHeader (name, value) → Lacks 10 (header_line name value)
header_line-Lacks name value (_, (clean, (clean', _))) =
    All-append (λ x. (x == 10) ≡ false) name (58 ∷ 32 ∷ (value ++ (13 ∷ []))) clean
      (refl, (refl, All-append (λ x. (x == 10) ≡ false) value (13 ∷ []) clean' (refl, tt)))

one_line :
    (name value : Text) (headers : Map Text) (rest : Text)
    → header_lines ((name, value) ∷ headers) ++ rest
      ≡ header_line name value ++ (10 ∷ (header_lines headers ++ rest))
unfolding header_lines
one_line name value headers rest = rw (append_assoc, append_assoc, append_assoc, append_assoc) refl

module _ {M : Type 0} (add : Text → Text → M → M) where
  -- The headers added one after the other.
  abbrev pub add_all : Map Text → M → M
  add_all [] m = m
  add_all ((name, value) ∷ headers) m = add_all headers (add (lower name) value m)

  turn_last :
      (n : ℕ) (t line rest : Text) (m : M)
      → getline t ≡ some (line, rest)
      → is_last line ≡ true
      → read_headers add (suc n) t m ≡ (m, rest)
  unfolding read_headers
  turn_last n t line rest m taken last = ground (arith, taken, last)

  turn_more :
      (n : ℕ) (t line rest : Text) (m : M)
      → getline t ≡ some (line, rest)
      → is_last line ≡ false
      → read_headers add (suc n) t m ≡ read_headers add n rest (add_line add line m)
  unfolding read_headers
  turn_more n t line rest m taken more = ground (arith, taken, more)

  -- The loop on header lines that `to_string` wrote.
  pub read_headers-header_lines :
      (n : ℕ) (headers : Map Text) (body : Text) (m : M)
      → All IsHeader headers
      → suc (length headers) ≤ n
      → read_headers add n (header_lines headers ++ (13 ∷ 10 ∷ body)) m ≡ (add_all headers m, body)
  unfolding text_eq header_lines
  read_headers-header_lines zero headers body m good fuel = absurd (omega arith)
  read_headers-header_lines (suc n) [] body m good fuel =
      turn_last n (13 ∷ 10 ∷ body) (13 ∷ []) body m (getline-line (13 ∷ []) body (refl, tt)) refl
  read_headers-header_lines (suc n) ((name, value) ∷ headers) body m (this, good) fuel =
      let line = header_line name value in
      let rest = header_lines headers ++ (13 ∷ 10 ∷ body) in
      rw
        (
          one_line name value headers (13 ∷ 10 ∷ body),
          turn_more n (line ++ (10 ∷ rest)) line rest m
              (getline-line line rest (header_line-Lacks name value this))
              (is_last-header_line name value),
          add_line,
          header_of-header_line name value this,
        )
        (read_headers-header_lines n headers body (add (lower name) value m) good (omega arith))
