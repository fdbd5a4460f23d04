-- ===== src/Wire/ConnectionId.antt =====
-- `connection_id_to_string` and `string_to_connection_id` (src/proxy/tcp_protocol.cpp). A text is
-- the list of its bytes.
use protogate.Base.{
  ℕ, ◌+◌, ◌*◌, ◌-◌, ◌/◌, ◌%◌, ◌<◌, ◌≤◌, ◌≡◌, ◌≢◌, length-append, refl, sym, ap, ◌∙◌, Bool, ◌&&◌,
  ◌||◌, [], ◌∷◌, ◌++◌, arith, length, leb, ltb, ◌==◌, if◌then◌else◌, Option, none, some, Result, ok,
  err, ◌>>=◌, ◌>>◌, throw_if, not,
}
use protogate.Wire.Integers.{IsBytes}
use protogate.Wire.{Byte, Bytes, byte_at}

pub data IdError : Type 0 where
  invalid_format invalid_argument : IdError

-- A digit as `std::hex` prints it.
hex_char : ℕ → Byte
hex_char n = if ltb n 10 then 48 + n else 87 + n

-- `oss << std::setw(2) << static_cast<int>(b)` with fill '0', for a byte.
hex_byte : Byte → Bytes
unfolding hex_char
hex_byte b = hex_char (b / 16) ∷ hex_char (b % 16) ∷ []

hyphen_after : ℕ → Bytes
hyphen_after i = if i == 3 || i == 5 || i == 7 || i == 9 then b'-' ∷ [] else []

-- The loop from index `i` on.
print_from : ℕ → Bytes → Bytes
print_from i [] = []
print_from i (b ∷ id) = hex_byte b ++ (hyphen_after i ++ print_from (i + 1) id)

unfoldable pub connection_id_to_string : Bytes → Bytes
unfolding print_from hyphen_after hex_byte
connection_id_to_string id = print_from 0 id

-- `for (char c : str) if (c != '-') cleaned += c;`
remove_hyphens : Bytes → Bytes
remove_hyphens [] = []
remove_hyphens (c ∷ s) = let rest = remove_hyphens s in if c == b'-' then rest else c ∷ rest

hex_digit : Byte → Option ℕ
hex_digit c =
    if leb 48 c && leb c 57
    then some (c - 48)
    else if leb 97 c && leb c 102
    then some (c - 87)
    else if leb 65 c && leb c 70
    then some (c - 55)
    else none

-- `std::stoi` in base 16 on the two characters of a pair, as the byte that the result is cast to. It
-- skips white space, takes a sign and a prefix "0x", and reads digits up to the first other character.
is_space : Byte → Bool
is_space c = c == 32 || (leb 9 c && leb c 13)

-- On one character that must be a digit.
read_one : Byte → Result IdError ℕ
read_one c = elim (hex_digit c) [ none ↦ err invalid_argument | some v ↦ ok v ]

-- On a digit `v` and one more character.
read_two : ℕ → Byte → ℕ
read_two v d = elim (hex_digit d) [ none ↦ v | some w ↦ v * 16 + w ]

stoi_byte : Byte → Byte → Result IdError Byte
stoi_byte c d =
    if is_space c
    then read_one d
    else if c == b'+'
    then read_one d
    else if c == b'-'
    then (read_one d >>= λ v. ok ((256 - v) % 256))
    else (read_one c >>= λ v. ok (read_two v d))

-- `id[i] = stoi(cleaned.substr(i * 2, 2), nullptr, 16)` for each `i`.
parse_pairs : Bytes → Result IdError Bytes
parse_pairs (c ∷ d ∷ s) = do v ← stoi_byte c d; id ← parse_pairs s; ok (v ∷ id)
parse_pairs (c ∷ []) = ok []
parse_pairs [] = ok []

unfoldable pub string_to_connection_id : Bytes → Result IdError Bytes
unfolding remove_hyphens parse_pairs stoi_byte read_one read_two hex_digit is_space
string_to_connection_id str = do
  let cleaned = remove_hyphens str
  throw_if (not (length cleaned == 32)) invalid_format
  parse_pairs cleaned

-- Two characters for each byte, with no hyphens.
hex_bytes : Bytes → Bytes
hex_bytes [] = []
hex_bytes (b ∷ id) = hex_byte b ++ hex_bytes id

remove_hyphens-print_from :
    (i : ℕ) (id : Bytes) → IsBytes id → remove_hyphens (print_from i id) ≡ hex_bytes id
unfolding remove_hyphens print_from hex_byte hyphen_after hex_bytes
remove_hyphens-print_from i [] h = refl
remove_hyphens-print_from i (b ∷ id) h = ground (arith, remove_hyphens-print_from (i + 1) id h.1)

length-hex_bytes : (id : Bytes) → length (hex_bytes id) ≡ 2 * length id
unfolding hex_bytes hex_byte
length-hex_bytes [] = omega arith
length-hex_bytes (b ∷ id) = omega (arith, length-hex_bytes id)

stoi_byte-hex_byte : (b : Byte) → b < 256 → stoi_byte (hex_char (b / 16)) (hex_char (b % 16)) ≡ ok b
unfolding stoi_byte read_one read_two hex_digit is_space hex_char
stoi_byte-hex_byte b h = ground arith

parse_pairs-hex_bytes : (id : Bytes) → IsBytes id → parse_pairs (hex_bytes id) ≡ ok id
unfolding parse_pairs hex_bytes hex_byte
parse_pairs-hex_bytes [] h = refl
parse_pairs-hex_bytes (b ∷ id) h = rw (stoi_byte-hex_byte b h.0, parse_pairs-hex_bytes id h.1)

-- The text of a 16-byte connection id is read back as the id.
pub string_to_connection_id-connection_id_to_string :
    (id : Bytes)
    → IsBytes id
    → length id ≡ 16
    → string_to_connection_id (connection_id_to_string id) ≡ ok id
unfolding string_to_connection_id connection_id_to_string
string_to_connection_id-connection_id_to_string id bytes h =
    rw (remove_hyphens-print_from 0 id bytes, length-hex_bytes id, h)
      (parse_pairs-hex_bytes id bytes)

ok-injective : {a b : Bytes} → ◌≡◌ {A = Result IdError Bytes} (ok a) (ok b) → a ≡ b
ok-injective e = cc

-- Two 16-byte connection ids with the same text are the same.
pub connection_id_to_string-injective :
    (a b : Bytes)
    → IsBytes a
    → length a ≡ 16
    → IsBytes b
    → length b ≡ 16
    → connection_id_to_string a ≡ connection_id_to_string b
    → a ≡ b
connection_id_to_string-injective a b ha la hb lb e = ok-injective (
    sym (string_to_connection_id-connection_id_to_string a ha la)
    ∙ ap string_to_connection_id e
    ∙ string_to_connection_id-connection_id_to_string b hb lb)

-- The text has at least two characters for each byte.
length-print_from : (i : ℕ) (id : Bytes) → 2 * length id ≤ length (print_from i id)
unfolding print_from hex_byte
length-print_from i [] = omega arith
length-print_from i (b ∷ id) =
    omega
      (arith, length-print_from (i + 1) id, length-append (hyphen_after i) (print_from (i + 1) id))

pub length-connection_id_to_string :
    (id : Bytes) → 2 * length id ≤ length (connection_id_to_string id)
unfolding connection_id_to_string
length-connection_id_to_string id = length-print_from 0 id

-- The text begins with a digit, and only the digit 3 is its own byte's first digit.
pub connection_id_to_string-first :
    (b : Byte) (id : Bytes) → b < 256 → b ≢ 51 → byte_at (connection_id_to_string (b ∷ id)) 0 ≢ b
unfolding connection_id_to_string print_from hex_byte hex_char
connection_id_to_string-first b id small other = ground arith
