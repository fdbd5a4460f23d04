-- ===== src/Proxy/Access.antt =====
-- Whom `create_connection` of src/proxy/tcp_proxy.cpp lets in.
use protogate.Allowlist.Access.{AddressOf, TextCovers, from_cidr_list-is_allowed_iff}
use protogate.Allowlist.Lists.{from_cidr_list}
use protogate.Allowlist.{Pton, IpType}
use protogate.Base.{
  ℕ, ◌≡◌, Bool, true, false≢true, List, ◌∷◌, arith, Option-cases, some, Text, ok, Result-cases, inl,
  inr, Any,
}
use protogate.Models.Tunnel.{Tunnel}
use protogate.Proxy.Connections.{validate_ip_allowlist, admit, create_connection}
use protogate.Proxy.{TcpProxy, Effect}
use protogate.Storage.Cache.{Cache, get}
use protogate.Wire.{ByteOrder, Bytes}

admitted-allowed :
    (net : Pton) (now : ℕ) (tunnels : Cache Tunnel) (connected : Bool) (tunnel_id : Text)
    (t : Tunnel)
    → (client_ip other : Text) → get now tunnel_id tunnels ≡ some t
    → admit net now tunnels connected tunnel_id (some client_ip) ≡ ok other
    → (connected ≡ true) × (validate_ip_allowlist net t client_ip ≡ true)
unfolding admit
admitted-allowed net now tunnels connected tunnel_id t client_ip other found e =
    (ground (arith, found), ground (arith, found))

pub validate_ip_allowlist-TextCovers :
    (net : Pton) (t : Tunnel) (client_ip text : Text) (texts : List Text) (type : IpType)
    (b : Bytes)
    → t.ip_allowlist ≡ text ∷ texts
    → AddressOf net type client_ip b
    → validate_ip_allowlist net t client_ip ≡ true
    → Any (TextCovers net type b) (text ∷ texts)
unfolding validate_ip_allowlist
validate_ip_allowlist-TextCovers net t client_ip text texts type b list address e =
    elim (Option-cases (from_cidr_list net (text ∷ texts))) [
      | inl bad ↦ absurd (false≢true (ground (arith, bad, list)))
      | inr (ranges, good) ↦
          (from_cidr_list-is_allowed_iff net type text texts ranges client_ip b good address).0
            (ground (arith, good, list))
    ]

-- Where the cache holds the tunnel and its allowlist is not empty, a connection from an address is
-- created only if the tunnel's agent is connected and one of the texts covers the address.
pub create_connection-TextCovers :
    (net : Pton) (order : ByteOrder) (has_agent : Text → Bool) (now : ℕ) (tunnels : Cache Tunnel)
    → (is_connected : Text → Bool) (tunnel_id client_ip : Text) (uuid : Bytes) (p : TcpProxy)
    → (done : TcpProxy × List Effect) (t : Tunnel) (text : Text) (texts : List Text) (type : IpType)
      (b : Bytes)
    → create_connection net order has_agent now tunnels is_connected tunnel_id
        (some client_ip)
        uuid
        p
      ≡ ok done
    → get now tunnel_id tunnels ≡ some t
    → t.ip_allowlist ≡ text ∷ texts
    → AddressOf net type client_ip b
    → (is_connected tunnel_id ≡ true) × Any (TextCovers net type b) (text ∷ texts)
unfolding create_connection
create_connection-TextCovers net order has_agent now tunnels is_connected tunnel_id client_ip uuid p
      done t text texts type b e found list address =
    elim (Result-cases
      (admit net now tunnels (is_connected tunnel_id) tunnel_id (some client_ip))) [
        | inl (other, fine) ↦
            let (connected, valid) =
              admitted-allowed net now tunnels (is_connected tunnel_id) tunnel_id t client_ip other
                found fine in
            (
              connected,
              validate_ip_allowlist-TextCovers net t client_ip text texts type b list address valid,
            )
        | inr (bad, refused) ↦ absurd (ground (arith, refused))
      ]
