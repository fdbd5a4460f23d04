-- ===== src/Agent/Cut.antt =====
-- A frame longer than the read buffer of tunnel-agent/src/client/http2_session.cpp.
use protogate.Agent.Bounds.{get32-take, handle_read_incomplete}
use protogate.Agent.Framing.{
  IsSent, data_frame, data_length, length-serialize_data, handle_read-stream,
}
use protogate.Agent.Stream.{frame_size, next_frame, is_tcp_frame, full_read, handle_read}
use protogate.Agent.{handle_tcp_data}
use protogate.Base.{
  ℕ, ◌+◌, ◌<◌, ◌≤◌, ◌≡◌, refl, sym, subst, ◌∙◌, ap, true, inl, inr, leb, Bool-cases, [], ◌∷◌,
  append-nil, arith, none, length, take, take_all, length-take, get_or-take, if◌then◌else◌,
}
use protogate.Wire.Frames.{TcpDataFrame, serialize_data}
use protogate.Wire.Hosts.{little_endian}
use protogate.Wire.{byte_at, get32, tcp_data}

-- A data frame with its header, but not all of its payload.
next_frame-cut :
    (f : TcpDataFrame) (n : ℕ)
    → IsSent (data_frame f)
    → 25 ≤ n
    → n < 25 + length f.payload
    → next_frame (take n (serialize_data f)) ≡ none
unfolding next_frame frame_size serialize_data
next_frame-cut f n sent header cut =
    let b = serialize_data f in
    let size : length b ≡ 25 + length f.payload = length-serialize_data little_endian f sent in
    let says : get32 b 21 ≡ length f.payload =
      ap (λ c. get32 c 21) (sym (append-nil b)) ∙ data_length little_endian f [] sent in
    let field : get32 (take n b) 21 ≡ length f.payload = get32-take n 21 b (omega arith) ∙ says in
    let first : byte_at (take n b) 0 ≡ tcp_data = get_or-take n 0 b 0 (omega arith) ∙ sent.0 in
    let short : length (take n b) ≡ n = omega (arith, length-take n b, size) in
    ground (arith, field, first, short)

is_tcp_frame-cut :
    (f : TcpDataFrame) (n : ℕ)
    → IsSent (data_frame f)
    → 25 ≤ n
    → n < 25 + length f.payload
    → is_tcp_frame (take n (serialize_data f)) ≡ true
unfolding is_tcp_frame
is_tcp_frame-cut f n sent header cut =
    let b = serialize_data f in
    let size : length b ≡ 25 + length f.payload = length-serialize_data little_endian f sent in
    let first : byte_at (take n b) 0 ≡ tcp_data =
      get_or-take n 0 b 0 (omega arith) ∙ (unfold serialize_data in sent.0) in
    let short : length (take n b) ≡ n = omega (arith, length-take n b, size) in
    ground (arith, first, short)

-- The first read of a data frame, with no other bytes behind it.
pub handle_read-full_read :
    (f : TcpDataFrame)
    → IsSent (data_frame f)
    → handle_read true (full_read (serialize_data f)) ≡ (
        if leb (length f.payload) 8167
        then (handle_tcp_data f.connection_id f.payload ∷ [], [])
        else ([], full_read (serialize_data f)))
unfolding full_read
handle_read-full_read f sent =
    let b = serialize_data f in
    let size : length b ≡ 25 + length f.payload = length-serialize_data little_endian f sent in
    elim (Bool-cases (leb (length f.payload) 8167)) [
      | inl fits ↦
          rw (fits, take_all 8192 b (ground (arith, size, fits)))
            (subst (λ b. handle_read true b ≡ (handle_tcp_data f.connection_id f.payload ∷ [], []))
              (append-nil b)
              (handle_read-stream little_endian (data_frame f) [] [] (sent, tt)
                (unfold next_frame in refl)))
      | inr long ↦ rw long (
          handle_read_incomplete true (take 8192 b)
            (is_tcp_frame-cut f 8192 sent (omega arith) (ground (arith, long)))
            (next_frame-cut f 8192 sent (omega arith) (ground (arith, long))))
    ]
