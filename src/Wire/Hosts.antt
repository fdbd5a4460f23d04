-- ===== src/Wire/Hosts.antt =====
-- The two kinds of platform: one that stores the low byte first, so that the conversions reverse
-- the bytes, and one that stores the high byte first, so that they do nothing.
use protogate.Base.{ℕ, ◌+◌, ◌*◌, ◌/◌, ◌%◌, ◌^◌, ◌<◌, ◌≡◌, refl, arith}
use protogate.Wire.{ByteOrder}

abbrev pub swap16 : ℕ → ℕ
swap16 x = x % 256 * 2 ^ 8 + x / 2 ^ 8 % 256

abbrev pub swap32 : ℕ → ℕ
swap32 x = x % 256 * 2 ^ 24 + x / 2 ^ 8 % 256 * 2 ^ 16 + x / 2 ^ 16 % 256 * 2 ^ 8 + x / 2 ^ 24 % 256

pub swap16-swap16 : (x : ℕ) → x < 2 ^ 16 → swap16 (swap16 x) ≡ x
swap16-swap16 x h = omega arith

pub swap16_lt : (x : ℕ) → x < 2 ^ 16 → swap16 x < 2 ^ 16
swap16_lt x h = omega arith

pub swap32-swap32 : (x : ℕ) → x < 2 ^ 32 → swap32 (swap32 x) ≡ x
swap32-swap32 x h = omega arith

pub swap32_lt : (x : ℕ) → x < 2 ^ 32 → swap32 x < 2 ^ 32
swap32_lt x h = omega arith

abbrev pub little_endian : ByteOrder
little_endian = record {
  hton16 = swap16;
  ntoh16 = swap16;
  hton32 = swap32;
  ntoh32 = swap32;
  ntoh16-hton16 = swap16-swap16;
  ntoh32-hton32 = swap32-swap32;
  hton16_lt = swap16_lt;
  hton32_lt = swap32_lt;
  ntoh32_lt = swap32_lt;
}

abbrev pub big_endian : ByteOrder
big_endian = record {
  hton16 = λ x. x;
  ntoh16 = λ x. x;
  hton32 = λ x. x;
  ntoh32 = λ x. x;
  ntoh16-hton16 = λ x h. refl;
  ntoh32-hton32 = λ x h. refl;
  hton16_lt = λ x h. h;
  hton32_lt = λ x h. h;
  ntoh32_lt = λ x h. h;
}
