-- ===== src/Proxy/Windows.antt =====
-- The windows of the connections of src/proxy/tcp_proxy.cpp, as an invariant of the runs of the proxy.
use protogate.Base.{
  ◌&&◌, ltb, Bool-cases, inl, inr, subst, eq_of_some, ◌⊎◌, ℕ, ◌≤◌, ◌≡◌, ◌≢◌, refl, Bool, true,
  false, List, [], ◌∷◌, arith, Option, none, some, length, Text, text_eq, find, IsMap, find-insert,
  insert-IsMap, find-erase, erase-IsMap, ok, Result-cases, if◌then◌else◌,
}
use protogate.Allowlist.{Pton}
use protogate.Models.Tunnel.{Tunnel}
use protogate.Storage.Cache.{Cache}
use protogate.Proxy.Connections.{
  admit, fresh_connection, store, opened, cleanup_connection, close_connection, create_connection,
}
use protogate.Proxy.{
  TcpConnection, TcpProxy, Effect, ConnectionState, connecting, established, closing, closed,
}
use protogate.Wire.{ByteOrder, Bytes}
use protogate.Wire.ConnectionId.{connection_id_to_string}

-- Its windows have their first sizes, both buffers fit in them, and every byte that was sent is still in the send
-- buffer.
abbrev pub InWindow : TcpConnection → Type 0
InWindow c =
    (c.send_window_size ≡ 65536)
    × (c.recv_window_size ≡ 65536)
    × (c.bytes_sent ≡ length c.send_buffer)
    × (length c.send_buffer ≤ 65536)
    × (length c.recv_buffer ≤ 65536)
    × (c.state ≢ closed)

pub record IsSound (p : TcpProxy) : Type 0 where
  pub is_map : IsMap p.connections
  pub in_window : (id : Text) (c : TcpConnection) → find id p.connections ≡ some c → InWindow c

pub by_option :
    {A B : Type 0} (P : B → Type 0) (o : Option A) (a : B) (g : A → B)
    → P a
    → ((x : A) → o ≡ some x → P (g x))
    → P (elim o [ none ↦ a | some x ↦ g x ])
by_option P none a g h k = h
by_option P (some x) a g h k = k x refl

pub by_list :
    {A B : Type 0} (P : B → Type 0) (l : List A) (a : B) (g : A → List A → B)
    → P a
    → ((x : A) → (rest : List A) → P (g x rest))
    → P (elim l [ [] ↦ a | x ∷ rest ↦ g x rest ])
by_list P [] a g h k = h
by_list P (x ∷ rest) a g h k = k x rest

pub by_test :
    {B : Type 0} (P : B → Type 0) (b : Bool) (x y : B)
    → (b ≡ true → P x)
    → (b ≡ false → P y)
    → P (if b then x else y)
by_test P true x y h k = h refl
by_test P false x y h k = k refl

-- A new state, and nothing else changed.
pub InWindow-state :
    (s : ConnectionState) (c : TcpConnection)
    → s ≢ closed
    → InWindow c
    → InWindow (record c { state = s })
InWindow-state s c h w = (w.0, w.1, w.2, w.3, w.4, h)

pub store-IsSound :
    (id : Text) (c : TcpConnection) (p : TcpProxy) → IsSound p → InWindow c → IsSound (store id c p)
unfolding store
store-IsSound id c p h w = record {
  is_map = insert-IsMap id c p.connections h.is_map;
  in_window = λ j d e. elim (Bool-cases (text_eq id j)) [
    | inl same ↦
        subst InWindow {x = c} {y = d}
          (eq_of_some (ground (arith, find-insert id j c p.connections, same, e))) w
    | inr other ↦ h.in_window j d (ground (arith, find-insert id j c p.connections, other, e))
  ];
}

pub cleanup_connection-IsSound :
    (id : Text) (p : TcpProxy) → IsSound p → IsSound (cleanup_connection id p)
unfolding cleanup_connection
cleanup_connection-IsSound id p h = record {
  is_map = erase-IsMap id p.connections h.is_map;
  in_window = λ j d e. h.in_window j d (ground (arith, find-erase id j p.connections h.is_map));
}

pub opened-IsSound : (id : Text) (p : TcpProxy) → IsSound p → IsSound (opened id p)
unfolding opened
opened-IsSound id p h =
    by_option IsSound (find id p.connections) _ _ h
      λ c e. store-IsSound id _ p h (InWindow-state established c (λ s. cc) (h.in_window id c e))

pub close_connection-IsSound :
    (has_agent : Text → Bool) (id : Text) (graceful : Bool) (p : TcpProxy)
    → IsSound p
    → IsSound (close_connection has_agent id graceful p).0
unfolding close_connection
close_connection-IsSound has_agent id graceful p h =
    by_option (λ (r : TcpProxy × List Effect). IsSound r.0) (find id p.connections) _ _ h
      λ c e.
        by_test IsSound (graceful && ltb 0 (length c.send_buffer)) _ _
          (λ pending.
            store-IsSound id (record c { state = closing }) p h
              (InWindow-state closing c (λ s. cc) (h.in_window id c e)))
          (λ otherwise. cleanup_connection-IsSound id p h)

-- A connection that was created stands in the map with an open window, or in no map.
pub created :
    (net : Pton) (order : ByteOrder) (has_agent : Text → Bool) (now : ℕ) (tunnels : Cache Tunnel)
    → (is_connected : Text → Bool) (tunnel_id : Text) (address : Option Text) (uuid : Bytes)
      (p : TcpProxy)
    → (done : TcpProxy × List Effect) (client_ip : Text)
    → admit net now tunnels (is_connected tunnel_id) tunnel_id address ≡ ok client_ip
    → create_connection net order has_agent now tunnels is_connected tunnel_id address uuid p
      ≡ ok done
    → (p ≡ done.0)
      ⊎ (store
            (connection_id_to_string uuid)
            (fresh_connection now (connection_id_to_string uuid) tunnel_id client_ip 0 connecting)
            p
          ≡ done.0)
unfolding create_connection
created net order has_agent now tunnels is_connected tunnel_id address uuid p done client_ip
      admitted e =
    ground (arith, admitted)

pub create_connection-IsSound :
    (net : Pton) (order : ByteOrder) (has_agent : Text → Bool) (now : ℕ) (tunnels : Cache Tunnel)
    → (is_connected : Text → Bool) (tunnel_id : Text) (address : Option Text) (uuid : Bytes)
      (p : TcpProxy)
    → (done : TcpProxy × List Effect) → IsSound p
    → create_connection net order has_agent now tunnels is_connected tunnel_id address uuid p
      ≡ ok done
    → IsSound done.0
unfolding create_connection
create_connection-IsSound net order has_agent now tunnels is_connected tunnel_id address uuid p done
      h e =
    elim (Result-cases (admit net now tunnels (is_connected tunnel_id) tunnel_id address)) [
      | inr (bad, refused) ↦ absurd (ground (arith, refused))
      | inl (client_ip, admitted) ↦
          elim (created net order has_agent now tunnels is_connected tunnel_id address uuid p done
            client_ip admitted e) [
              | inl same ↦ subst IsSound same h
              | inr stored ↦ subst IsSound stored (
                  store-IsSound (connection_id_to_string uuid) _ p h
                    (refl, refl, refl, omega arith, omega arith, λ s. cc))
            ]
    ]
