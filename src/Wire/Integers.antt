-- ===== src/Wire/Integers.antt =====
-- The integers of a frame, written high byte first and read back.
use protogate.Base.{
  ℕ, ◌+◌, zero, suc, [], ◌<◌, ◌^◌, ◌≡◌, refl, ◌∷◌, ◌++◌, arith, length, drop, get_or-drop,
  get_or-drop_zero, drop_append_len, All, append_assoc, length-append,
}
use protogate.Wire.{Byte, Bytes, byte_at, put16, put32, get16, get32}

-- A buffer holds bytes.
abbrev pub IsBytes : Bytes → Type 0
IsBytes = All (λ b. b < 256)

pub get16-put16 : (v : ℕ) (rest : Bytes) → v < 2 ^ 16 → get16 (put16 v ++ rest) 0 ≡ v
unfolding get16 put16
get16-put16 v rest h = omega arith

pub get32-put32 : (v : ℕ) (rest : Bytes) → v < 2 ^ 32 → get32 (put32 v ++ rest) 0 ≡ v
unfolding get32 put32
get32-put32 v rest h = omega arith

-- Reading at an offset is reading what stands from there on.
pub get16-drop : (k : ℕ) (b : Bytes) → get16 b k ≡ get16 (drop k b) 0
unfolding get16
get16-drop k b = rw (get_or-drop_zero k b 0, get_or-drop k 1 b 0)

pub get32-drop : (k : ℕ) (b : Bytes) → get32 b k ≡ get32 (drop k b) 0
unfolding get32
get32-drop k b =
    rw (get_or-drop_zero k b 0, get_or-drop k 1 b 0, get_or-drop k 2 b 0, get_or-drop k 3 b 0)

-- An integer is read at the offset where it was written.
pub get16_at :
    (k : ℕ) (b rest : Bytes) (v : ℕ) → drop k b ≡ put16 v ++ rest → v < 2 ^ 16 → get16 b k ≡ v
get16_at k b rest v e h = rw (get16-drop k b, e) (get16-put16 v rest h)

pub get32_at :
    (k : ℕ) (b rest : Bytes) (v : ℕ) → drop k b ≡ put32 v ++ rest → v < 2 ^ 32 → get32 b k ≡ v
get32_at k b rest v e h = rw (get32-drop k b, e) (get32-put32 v rest h)

pub length-put16 : (v : ℕ) → length (put16 v) ≡ 2
unfolding put16
length-put16 v = refl

pub length-put32 : (v : ℕ) → length (put32 v) ≡ 4
unfolding put32
length-put32 v = refl

-- What stands behind the type, the connection id and some fields.
pub drop_header :
    (t : Byte) (id fields rest : Bytes) (k : ℕ)
    → length id + length fields ≡ k
    → drop (suc k) (t ∷ (id ++ (fields ++ rest))) ≡ rest
drop_header t id fields rest k h =
    rw (← append_assoc)
      (drop_append_len k (id ++ fields) rest (omega (arith, length-append id fields)))

pub put16-IsBytes : (v : ℕ) → IsBytes (put16 v)
unfolding put16
put16-IsBytes v = omega arith

pub put32-IsBytes : (v : ℕ) → IsBytes (put32 v)
unfolding put32
put32-IsBytes v = omega arith

pub byte_at_lt : (b : Bytes) (i : ℕ) → IsBytes b → byte_at b i < 256
byte_at_lt [] i h = omega arith
byte_at_lt (x ∷ b) zero h = h.0
byte_at_lt (x ∷ b) (suc i) h = byte_at_lt b i h.1

pub get16_lt : (b : Bytes) (i : ℕ) → IsBytes b → get16 b i < 2 ^ 16
unfolding get16
get16_lt b i h = omega (arith, byte_at_lt b i h, byte_at_lt b (i + 1) h)

pub get32_lt : (b : Bytes) (i : ℕ) → IsBytes b → get32 b i < 2 ^ 32
unfolding get32
get32_lt b i h = omega (
  arith,
  byte_at_lt b i h,
  byte_at_lt b (i + 1) h,
  byte_at_lt b (i + 2) h,
  byte_at_lt b (i + 3) h,
)
