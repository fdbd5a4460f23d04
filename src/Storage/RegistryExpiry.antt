-- ===== src/Storage/RegistryExpiry.antt =====
-- The registry of src/storage/tunnel_registry.cpp over time.
use protogate.Base.{
  ℕ, ◌≤◌, ◌≡◌, refl, ◌∙◌, Bool, false, arith, none, ok, ◌⊎◌, inl, inr, subst, [], Text,
}
use protogate.Models.Tunnel.{Tunnel}
use protogate.Storage.Cache.{put, get, clear}
use protogate.Storage.CacheLaws.{
  IsCache, get-clear, remove-default_ttl, put_ttl-default_ttl, get-put_ttl, get-remove,
  contains-get, remove-IsCache, put_ttl-IsCache,
}
use protogate.Storage.Registry.{
  TunnelRegistry, new_registry, register_tunnel, get_tunnel, update_tunnel, remove_tunnel,
  has_tunnel, clear_registry,
}

-- The registries that calls can lead to, and the times at which they exist.
pub data Reach : ℕ → TunnelRegistry → Type 0 where
  start : (now : ℕ) → Reach now new_registry
  wait : {now : ℕ} {r : TunnelRegistry} → Reach now r → (later : ℕ) → now ≤ later → Reach later r
  registered :
      {now : ℕ} {r : TunnelRegistry}
      → Reach now r
      → (t : Tunnel) (r' : TunnelRegistry) → register_tunnel now t r ≡ ok r'
      → Reach now r'
  updated :
      {now : ℕ} {r : TunnelRegistry}
      → Reach now r
      → (t : Tunnel) (r' : TunnelRegistry) (done : Bool) → update_tunnel now t r ≡ ok (r', done)
      → Reach now r'
  removed :
      {now : ℕ} {r : TunnelRegistry} → Reach now r → (id : Text) → Reach now (remove_tunnel id r).0
  cleared : {now : ℕ} {r : TunnelRegistry} → Reach now r → Reach now (clear_registry r)

-- Entries have no time to live, and none can be read from `now` on.
record IsEmpty (now : ℕ) (r : TunnelRegistry) : Type 0 where
  no_ttl : r.cache.default_ttl ≡ 0
  is_cache : IsCache r.cache
  unreadable : (later : ℕ) (id : Text) → now ≤ later → get later id r.cache ≡ none

put-IsEmpty :
    (now : ℕ) (t : Tunnel) (r : TunnelRegistry)
    → IsEmpty now r
    → IsEmpty now (record r { cache = put now t.tunnel_id t r.cache })
unfolding put
put-IsEmpty now t r v = record {
  no_ttl = put_ttl-default_ttl now t.tunnel_id t r.cache.default_ttl r.cache ∙ v.no_ttl;
  is_cache = put_ttl-IsCache now t.tunnel_id t r.cache.default_ttl r.cache v.is_cache;
  unreadable = λ later id order. ground (
    arith,
    get-put_ttl now later t.tunnel_id id t r.cache.default_ttl r.cache,
    v.no_ttl,
    v.unreadable later id order,
  );
}

-- A call that does not throw writes the tunnel, or leaves the registry alone.
register_ok :
    (now : ℕ) (t : Tunnel) (r r' : TunnelRegistry)
    → register_tunnel now t r ≡ ok r'
    → record r { cache = put now t.tunnel_id t r.cache } ≡ r'
unfolding register_tunnel
register_ok now t r r' e = ground arith

update_ok :
    (now : ℕ) (t : Tunnel) (r r' : TunnelRegistry) (done : Bool)
    → update_tunnel now t r ≡ ok (r', done)
    → (record r { cache = put now t.tunnel_id t r.cache } ≡ r') ⊎ (r ≡ r')
unfolding update_tunnel
update_ok now t r r' done e = ground arith

remove-IsEmpty :
    (now : ℕ) (id : Text) (r : TunnelRegistry) → IsEmpty now r → IsEmpty now (remove_tunnel id r).0
unfolding remove_tunnel
remove-IsEmpty now id r v = record {
  no_ttl = remove-default_ttl id r.cache ∙ v.no_ttl;
  is_cache = remove-IsCache id r.cache v.is_cache;
  unreadable = λ later other order.
      ground (arith, get-remove later id other r.cache v.is_cache, v.unreadable later other order);
}

clear-IsEmpty : (now : ℕ) (r : TunnelRegistry) → IsEmpty now r → IsEmpty now (clear_registry r)
unfolding clear_registry
clear-IsEmpty now r v = record {
  no_ttl = unfold clear in v.no_ttl;
  is_cache = unfold clear in tt;
  unreadable = λ later id order. get-clear later id r.cache;
}

new-IsEmpty : (now : ℕ) → IsEmpty now new_registry
unfolding new_registry get clear
new-IsEmpty now = record {
  no_ttl = refl;
  is_cache = tt;
  unreadable = λ later id order. get-clear later id (record { entries = []; default_ttl = 0 });
}

Reach-IsEmpty : {now : ℕ} {r : TunnelRegistry} → Reach now r → IsEmpty now r
Reach-IsEmpty (start now) = new-IsEmpty now
Reach-IsEmpty (wait h later order) =
    let v = Reach-IsEmpty h in
    record {
      no_ttl = v.no_ttl;
      is_cache = v.is_cache;
      unreadable = λ l id o. v.unreadable l id (omega arith);
    }
Reach-IsEmpty (registered {now} {r} h t r' e) =
    subst (IsEmpty now) (register_ok now t r r' e) (put-IsEmpty now t r (Reach-IsEmpty h))
Reach-IsEmpty (updated {now} {r} h t r' done e) = elim (update_ok now t r r' done e) [
  | inl written ↦ subst (IsEmpty now) written (put-IsEmpty now t r (Reach-IsEmpty h))
  | inr same ↦ subst (IsEmpty now) same (Reach-IsEmpty h)
]
Reach-IsEmpty (removed {now} {r} h id) = remove-IsEmpty now id r (Reach-IsEmpty h)
Reach-IsEmpty (cleared {now} {r} h) = clear-IsEmpty now r (Reach-IsEmpty h)

-- In no registry that calls can lead to can a tunnel be read, also right after it was registered.
pub Reach-get_tunnel :
    (now : ℕ) (r : TunnelRegistry) (id : Text)
    → Reach now r
    → (get_tunnel now id r ≡ none) × (has_tunnel now id r ≡ false)
unfolding get_tunnel has_tunnel
Reach-get_tunnel now r id h =
    let e = (Reach-IsEmpty h).unreadable now id (omega arith) in
    (e, ground (arith, contains-get now id r.cache, e))
