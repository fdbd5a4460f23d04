-- ===== src/Storage/Examples.antt =====
-- The theorems on the cache and on the tunnel registry at a concrete cache.
use protogate.Base.{ℕ, ◌≡◌, refl, [], ◌∷◌, arith, some, none, ◌+◌, codes, Text, find, false, ok}
use protogate.Models.Tunnel.{Tunnel, tcp, active, validate, is_valid_tunnel_id, check_cidrs}
use protogate.Storage.Cache.{Cache, put_ttl, get, remove, cleanup, size, for_each, contains}
use protogate.Storage.Registry.{
  TunnelRegistry, new_registry, register_tunnel, get_tunnel, has_tunnel,
}
use protogate.Storage.RegistryExpiry.{start, registered, Reach-get_tunnel}

-- "a" until 20, "b" until 5.
abbrev cache : Cache ℕ
cache = record {
  entries =
      (codes "a", record { value = 1; expires_at = 20 })
      ∷ (codes "b", record { value = 2; expires_at = 5 })
      ∷ [];
  default_ttl = 10;
}

abbrev tunnel : Tunnel
tunnel = record {
  tunnel_id = codes "db-1";
  protocol = tcp;
  target_host = codes "h";
  target_port = 5432;
  ip_allowlist = [];
  rate_limit_rpm = 60;
  created_at = 1;
  updated_at = 1;
  status = active;
}

abbrev one_tunnel : TunnelRegistry
one_tunnel = record {
  cache = record {
    entries = (codes "db-1", record { value = tunnel; expires_at = 3 }) ∷ [];
    default_ttl = 0;
  };
}

registers : register_tunnel 3 tunnel new_registry ≡ ok one_tunnel
unfolding register_tunnel new_registry validate check_cidrs is_valid_tunnel_id
    protogate.Storage.Cache.put protogate.Base.insert
registers = refl

Reach-get_tunnel_example :
    (get_tunnel 3 (codes "db-1") one_tunnel ≡ none)
    × (has_tunnel 3 (codes "db-1") one_tunnel ≡ false)
Reach-get_tunnel_example =
    Reach-get_tunnel 3 one_tunnel (codes "db-1") (registered (start 3) tunnel one_tunnel registers)
