-- ===== src/Wire.antt =====
-- src/proxy/tcp_protocol.h and .cpp: the five frames of the TCP tunnel protocol, the integers in
-- them and their byte order. The structs and their two conversions are in Wire/Frames.
--
-- A byte is a number below 256, a buffer the list of its bytes. An enumeration with a fixed
-- underlying type holds any value of that type, so it is modelled by the number.
pub mod Integers
pub mod Frames
pub mod RoundTrip
pub mod Hosts
pub mod DataFrames
pub mod ConnectionId
pub mod Examples
use protogate.Base.{ℕ, ◌+◌, ◌*◌, ◌/◌, ◌%◌, ◌^◌, ◌<◌, ◌≡◌, List, [], ◌∷◌, get_or}

abbrev pub Byte : Type 0
Byte = ℕ

abbrev pub Bytes : Type 0
Bytes = List Byte

-- `enum class TCPFrameType : uint8_t`
abbrev pub TcpFrameType : Type 0
TcpFrameType = ℕ

abbrev pub tcp_open : TcpFrameType
tcp_open = 0x10

abbrev pub tcp_data : TcpFrameType
tcp_data = 0x11

abbrev pub tcp_close : TcpFrameType
tcp_close = 0x12

abbrev pub tcp_error : TcpFrameType
tcp_error = 0x13

abbrev pub tcp_ack : TcpFrameType
tcp_ack = 0x14

-- `enum class TCPCloseReason : uint16_t`
abbrev pub TcpCloseReason : Type 0
TcpCloseReason = ℕ

-- `enum class TCPErrorCode : uint16_t`
abbrev pub TcpErrorCode : Type 0
TcpErrorCode = ℕ

-- `htonl`, `ntohl`, `htons` and `ntohs` of the platform. Each pair undoes itself, and the values
-- stay in range.
pub record ByteOrder : Type 0 where
  pub hton16 : ℕ → ℕ
  pub ntoh16 : ℕ → ℕ
  pub hton32 : ℕ → ℕ
  pub ntoh32 : ℕ → ℕ
  pub ntoh16-hton16 : (x : ℕ) → x < 2 ^ 16 → ntoh16 (hton16 x) ≡ x
  pub ntoh32-hton32 : (x : ℕ) → x < 2 ^ 32 → ntoh32 (hton32 x) ≡ x
  pub hton16_lt : (x : ℕ) → x < 2 ^ 16 → hton16 x < 2 ^ 16
  pub hton32_lt : (x : ℕ) → x < 2 ^ 32 → hton32 x < 2 ^ 32
  pub ntoh32_lt : (x : ℕ) → x < 2 ^ 32 → ntoh32 x < 2 ^ 32

-- What the conversions throw. `out_of_bounds` stands for a read past the end of the buffer, which
-- C++ leaves undefined.
pub data WireError : Type 0 where
  buffer_too_small invalid_frame_type incomplete_data incomplete_message out_of_bounds : WireError

-- `push_back((v >> 8) & 0xFF); push_back(v & 0xFF);`
unfoldable pub put16 : ℕ → Bytes
put16 v = v / 2 ^ 8 % 256 ∷ v % 256 ∷ []

-- The same with shifts by 24, 16, 8 and 0.
unfoldable pub put32 : ℕ → Bytes
put32 v = v / 2 ^ 24 % 256 ∷ v / 2 ^ 16 % 256 ∷ v / 2 ^ 8 % 256 ∷ v % 256 ∷ []

-- `data[i]`, for an `i` that the code has checked.
abbrev pub byte_at : Bytes → ℕ → Byte
byte_at buffer i = get_or buffer i 0

-- `(data[i] << 8) | data[i + 1]`
unfoldable pub get16 : Bytes → ℕ → ℕ
get16 buffer i = byte_at buffer i * 2 ^ 8 + byte_at buffer (i + 1)

-- `(data[i] << 24) | (data[i + 1] << 16) | (data[i + 2] << 8) | data[i + 3]`
unfoldable pub get32 : Bytes → ℕ → ℕ
get32 buffer i =
    byte_at buffer i * 2 ^ 24
    + byte_at buffer (i + 1) * 2 ^ 16
    + byte_at buffer (i + 2) * 2 ^ 8
    + byte_at buffer (i + 3)
