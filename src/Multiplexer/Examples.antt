-- ===== src/Multiplexer/Examples.antt =====
-- Runs of the multiplexer at concrete frames.
use protogate.Base.{arith, ◌≡◌, refl, List, [], ◌∷◌, map, some, true, err, codes}
use protogate.Multiplexer.Output.{
  Send, data_of, close_of, error_of, window_of, frame_of, queue, read_frames, get_output_data-queue,
}
use protogate.Wire.{put32}
use protogate.Multiplexer.{
  created, serialize, deserialize, too_short, truncated_connection_id, truncated_payload,
  get_output_data, send_callback, wants_write, set_data_callback, set_header_callback,
  on_data_chunk_recv_callback, on_header_callback, header_event, data_event,
}

abbrev calls : List Send
calls =
    data_of (codes "c1") (codes "hello")
    ∷ window_of (codes "c1") 65536
    ∷ error_of (codes "c2") (codes "refused")
    ∷ close_of (codes "c1")
    ∷ []

get_output_data-queue_example :
    (read_frames 4 (get_output_data (queue calls created)).0 ≡ some (map frame_of calls))
    × ((get_output_data (queue calls created)).1.output_buffer ≡ [])
unfolding put32
get_output_data-queue_example = get_output_data-queue calls (
  (omega arith, omega arith),
  ((omega arith, omega arith), ((omega arith, omega arith), ((omega arith, omega arith), tt))),
)

bytes_test :
    serialize (frame_of (data_of (codes "c1") (codes "hi")))
    ≡ 1 ∷ 0 ∷ 2 ∷ 99 ∷ 49 ∷ 0 ∷ 0 ∷ 0 ∷ 2 ∷ 104 ∷ 105 ∷ []
unfolding serialize protogate.Wire.put16 protogate.Wire.put32
bytes_test = refl

short_test : deserialize (1 ∷ 0 ∷ 0 ∷ 0 ∷ 0 ∷ 0 ∷ []) ≡ err too_short
unfolding deserialize
short_test = refl

id_test : deserialize (1 ∷ 0 ∷ 1 ∷ 0 ∷ 0 ∷ 0 ∷ 0 ∷ []) ≡ err truncated_connection_id
unfolding deserialize protogate.Wire.get16
id_test = refl

payload_test : deserialize (1 ∷ 0 ∷ 0 ∷ 0 ∷ 0 ∷ 0 ∷ 1 ∷ []) ≡ err truncated_payload
unfolding deserialize protogate.Wire.get16 protogate.Wire.get32
payload_test = refl

wants_test : wants_write (send_callback (1 ∷ []) created) ≡ true
unfolding wants_write send_callback
wants_test = refl

callback_test :
    on_data_chunk_recv_callback 1 5 (codes "x") (set_data_callback true created)
    ≡ some (data_event 5 (codes "x") true)
unfolding on_data_chunk_recv_callback set_data_callback
callback_test = refl

header_test :
    on_header_callback (codes "a") (codes "b") (set_header_callback true created)
    ≡ some (header_event 0 (codes "a") (codes "b"))
unfolding on_header_callback set_header_callback
header_test = refl
