-- ===== src/Forwarder/Hosts.antt =====
-- The memory images of the two kinds of platform.
use protogate.Base.{ℕ, ◌/◌, ◌%◌, ◌^◌, ◌<◌, ◌≡◌, refl, [], ◌∷◌, arith}
use protogate.Forwarder.{Host}
use protogate.Wire.Hosts.{little_endian, big_endian, swap16, swap32}
use protogate.Wire.{Bytes, put16, put32}

abbrev pub low_first16 : ℕ → Bytes
low_first16 x = x % 256 ∷ x / 2 ^ 8 % 256 ∷ []

abbrev pub low_first32 : ℕ → Bytes
low_first32 x = x % 256 ∷ x / 2 ^ 8 % 256 ∷ x / 2 ^ 16 % 256 ∷ x / 2 ^ 24 % 256 ∷ []

pub low_first16-swap16 : (x : ℕ) → x < 2 ^ 16 → low_first16 (swap16 x) ≡ put16 x
unfolding put16
low_first16-swap16 x h = ground arith

pub low_first32-swap32 : (x : ℕ) → x < 2 ^ 32 → low_first32 (swap32 x) ≡ put32 x
unfolding put32
low_first32-swap32 x h = ground arith

abbrev pub little_endian_host : Host
little_endian_host = record {
  order = little_endian;
  image16 = low_first16;
  image32 = low_first32;
  image16-hton16 = low_first16-swap16;
  image32-hton32 = low_first32-swap32;
}

abbrev pub big_endian_host : Host
big_endian_host = record {
  order = big_endian;
  image16 = put16;
  image32 = put32;
  image16-hton16 = λ x h. refl;
  image32-hton32 = λ x h. refl;
}
