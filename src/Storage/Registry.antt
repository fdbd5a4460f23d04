-- ===== src/Storage/Registry.antt =====
-- src/storage/tunnel_registry.h and .cpp: the tunnels, in a cache whose time to live the constructor
-- sets to 0 seconds. The backup to storage is not modelled.
use protogate.Base.{ℕ, Bool, true, false, List, [], Option, map, Result, ok, ◌>>=◌, Text}
use protogate.Models.Tunnel.{Tunnel, TunnelError, validate}
use protogate.Storage.Cache.{Cache, put, get, remove, contains, size, clear, for_each}

pub record TunnelRegistry : Type 0 where
  pub cache : Cache Tunnel

-- `cache_(std::chrono::seconds(0))`
unfoldable pub new_registry : TunnelRegistry
new_registry = record { cache = record { entries = []; default_ttl = 0 } }

-- `err` is the exception that `validate` throws; the registry is then as before.
unfoldable pub register_tunnel : ℕ → Tunnel → TunnelRegistry → Result TunnelError TunnelRegistry
register_tunnel now t r = do _ ← validate t; ok (record r { cache = put now t.tunnel_id t r.cache })

unfoldable pub get_tunnel : ℕ → Text → TunnelRegistry → Option Tunnel
get_tunnel now id r = get now id r.cache

update_if : Bool → ℕ → Tunnel → TunnelRegistry → TunnelRegistry × Bool
update_if true now t r = (record r { cache = put now t.tunnel_id t r.cache }, true)
update_if false now t r = (r, false)

unfoldable pub update_tunnel :
    ℕ → Tunnel → TunnelRegistry → Result TunnelError (TunnelRegistry × Bool)
unfolding update_if
update_tunnel now t r = do _ ← validate t; ok (update_if (contains now t.tunnel_id r.cache) now t r)

unfoldable pub remove_tunnel : Text → TunnelRegistry → TunnelRegistry × Bool
remove_tunnel id r =
    let (cache, removed) = remove id r.cache in (record r { cache = cache }, removed)

unfoldable pub has_tunnel : ℕ → Text → TunnelRegistry → Bool
has_tunnel now id r = contains now id r.cache

unfoldable pub get_all_tunnels : ℕ → TunnelRegistry → List Tunnel
get_all_tunnels now r = map (λ p. p.1) (for_each now r.cache)

unfoldable pub registry_size : TunnelRegistry → ℕ
registry_size r = size r.cache

unfoldable pub clear_registry : TunnelRegistry → TunnelRegistry
clear_registry r = record r { cache = clear r.cache }
