-- ===== src/Http/Text.antt =====
-- Reading a text from the front, as a `std::istringstream` does, and the helpers on strings that the
-- parsers of HTTP text use.
use protogate.Base.{
  ℕ, zero, suc, ◌+◌, Bool, true, false, ◌&&◌, ◌||◌, [], ◌∷◌, map, Option, none, some, length, leb,
  ◌==◌, if◌then◌else◌, Text, text_eq,
}

abbrev pub crlf : Text
crlf = 13 ∷ 10 ∷ []

-- What stands before the first such character and behind it.
unfoldable pub split_at : ℕ → Text → Option (Text × Text)
split_at c [] = none
split_at c (x ∷ t) =
    if x == c
    then some ([], t)
    else elim (split_at c t) [ none ↦ none | some (before, after) ↦ some (x ∷ before, after) ]

-- `std::getline`: it fails where nothing is left, and the last line needs no newline.
unfoldable pub getline : Text → Option (Text × Text)
getline [] = none
getline (c ∷ t) = elim (split_at 10 (c ∷ t)) [ none ↦ some (c ∷ t, []) | some parts ↦ some parts ]

-- `std::isspace` in the classic locale.
abbrev pub is_space : ℕ → Bool
is_space c = c == 32 || leb 9 c && leb c 13

-- The characters up to the next space, and the rest with it.
abbrev pub take_word : Text → Text × Text
take_word [] = ([], [])
take_word (c ∷ t) =
    let (word, rest) = take_word t in if is_space c then ([], c ∷ t) else (c ∷ word, rest)

abbrev pub skip_spaces : Text → Text
skip_spaces [] = []
skip_spaces (c ∷ t) = if is_space c then skip_spaces t else c ∷ t

-- `stream >> word`
unfoldable pub read_word : Text → Text × Text
read_word t = take_word (skip_spaces t)

-- `stream >> a >> b >> c`
unfoldable pub read_words : Text → Text × (Text × Text)
read_words t =
    let (a, t1) = read_word t in
    let (b, t2) = read_word t1 in let (c, t3) = read_word t2 in (a, (b, c))

-- The last character goes if it is a carriage return.
unfoldable pub pop_cr : Text → Text
pop_cr [] = []
pop_cr (c ∷ []) = if c == 13 then [] else c ∷ []
pop_cr (c ∷ d ∷ t) = c ∷ pop_cr (d ∷ t)

abbrev pub is_blank : ℕ → Bool
is_blank c = c == 32 || c == 9

-- `value.erase(0, value.find_first_not_of(" \t"))`; where there is no other character, all goes.
abbrev pub trim_left : Text → Text
trim_left [] = []
trim_left (c ∷ t) = if is_blank c then trim_left t else c ∷ t

-- `value.erase(value.find_last_not_of(" \t") + 1)`
abbrev pub trim_right : Text → Text
trim_right [] = []
trim_right (c ∷ t) =
    let rest = trim_right t in if is_blank c && length rest == 0 then [] else c ∷ rest

unfoldable pub trim : Text → Text
trim t = trim_right (trim_left t)

-- `::tolower` in the classic locale.
abbrev pub lower_char : ℕ → ℕ
lower_char c = if leb 65 c && leb c 90 then c + 32 else c

unfoldable pub lower : Text → Text
lower t = map lower_char t

-- A line that has no colon is skipped.
unfoldable pub header_of : Text → Option (Text × Text)
header_of line = elim (split_at 58 (pop_cr line)) [
  | none ↦ none
  | some (name, value) ↦ some (lower name, trim value)
]

-- The line that ends the headers.
abbrev pub is_last : Text → Bool
is_last line = text_eq line [] || text_eq line (13 ∷ [])

-- `while (std::getline(stream, line) && !line.empty() && line != "\r")`, with what the body does to
-- the headers read so far, and the rest of the stream. A turn takes at least one character, so the
-- length of the text is fuel enough.
module _ {M : Type 0} (add : Text → Text → M → M) where
  abbrev pub add_line : Text → M → M
  add_line line headers = elim (header_of line) [
    | none ↦ headers
    | some (name, value) ↦ add name value headers
  ]

  unfoldable pub read_headers : ℕ → Text → M → M × Text
  read_headers zero t headers = (headers, t)
  read_headers (suc n) t headers = elim (getline t) [
    | none ↦ (headers, [])
    | some (line, rest) ↦ elim (is_last line) [
      | true ↦ (headers, rest)
      | false ↦ read_headers n rest (add_line line headers)
    ]
  ]
