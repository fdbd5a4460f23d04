-- ===== src/Forwarder/Sequence.antt =====
-- The reads of one local socket, one after the other, and the sequence numbers of their frames.
use protogate.Base.{
  ℕ, zero, suc, ◌+◌, ◌%◌, ◌^◌, ◌<◌, ◌≡◌, refl, true, List, [], ◌∷◌, ◌++◌, arith, some, find,
}
use protogate.Forwarder.Frames.{data_frame, send_tcp_data_frame-serialize}
use protogate.Forwarder.{
  Host, TcpConnection, TcpForwarder, Action, read, send, object, set_object, update, on_local_read,
  start_local_read,
}
use protogate.Wire.Frames.{serialize_data}
use protogate.Wire.{Bytes}

module _ (host : Host) where
  -- Reads that complete with these bytes.
  unfoldable pub read_all : ℕ → List Bytes → TcpForwarder → List Action × TcpForwarder
  read_all h [] f = ([], f)
  read_all h (bytes ∷ chunks) f =
      let (actions, f') = on_local_read host h (some bytes) f in
      let (more, f'') = read_all h chunks f' in (actions ++ more, f'')

-- The data frames for the chunks, numbered from `n` on, each followed by the next read.
abbrev pub numbered : ℕ → Bytes → ℕ → List Bytes → List Action
numbered h id n [] = []
numbered h id n (bytes ∷ chunks) =
    send (serialize_data (data_frame id bytes n)) ∷ read h ∷ numbered h id ((n + 1) % 2 ^ 32) chunks

object-set_object :
    (h : ℕ) (c d : TcpConnection) (cs : List TcpConnection)
    → object h cs ≡ some d
    → object h (set_object h c cs) ≡ some c
object-set_object h c d [] there = ground (arith, there)
object-set_object zero c d (e ∷ cs) there = refl
object-set_object (suc h) c d (e ∷ cs) there = object-set_object h c d cs there

-- The connection is there, open, and the one that the map has for its id.
abbrev pub IsLive : ℕ → TcpConnection → TcpForwarder → Type 0
IsLive h c f =
    (object h f.objects ≡ some c)
    × (find c.connection_id f.connections ≡ some h)
    × (c.is_open ≡ true)

abbrev counted : TcpConnection → TcpConnection
counted c = record c { sequence_number = (c.sequence_number + 1) % 2 ^ 32 }

counted-IsLive :
    (h : ℕ) (c : TcpConnection) (f : TcpForwarder)
    → IsLive h c f
    → IsLive h (counted c) (update h (counted c) f)
counted-IsLive h c f (there, entry, open_) =
    (object-set_object h (counted c) c f.objects there, entry, open_)

one_read :
    (host : Host) (h : ℕ) (c : TcpConnection) (f : TcpForwarder) (bytes : Bytes)
    → f.has_send_callback ≡ true
    → IsLive h c f
    → c.sequence_number < 2 ^ 32
    → on_local_read host h (some bytes) f ≡ (
      send (serialize_data (data_frame c.connection_id bytes c.sequence_number)) ∷ read h ∷ [],
      update h (counted c) f,
    )
unfolding on_local_read start_local_read
one_read host h c f bytes callback (there, entry, open_) small = ground (
  arith,
  there,
  entry,
  open_,
  send_tcp_data_frame-serialize host f callback c.connection_id bytes c.sequence_number small,
)

-- While a connection is open and in the map, the reads of its local socket go to the server as data
-- frames, one for each read, in the order of the reads, with the bytes read, and numbered without a
-- gap modulo 2 ^ 32 from the connection's sequence number on; a new read follows each.
pub read_all-numbered :
    (host : Host) (h : ℕ) (chunks : List Bytes) (c : TcpConnection) (f : TcpForwarder)
    → f.has_send_callback ≡ true
    → IsLive h c f
    → c.sequence_number < 2 ^ 32
    → (read_all host h chunks f).0 ≡ numbered h c.connection_id c.sequence_number chunks
unfolding read_all
read_all-numbered host h [] c f callback live small = refl
read_all-numbered host h (bytes ∷ chunks) c f callback live small =
    rw
      (
        one_read host h c f bytes callback live small,
        read_all-numbered host h chunks (counted c) (update h (counted c) f) callback
            (counted-IsLive h c f live) (omega arith),
      )
      refl
