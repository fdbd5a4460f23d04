-- ===== src/RateLimiter/Tunnel.antt =====
-- `TunnelRateLimiter` of src/security/rate_limiter.h, rate_limiter.cpp: a limiter for each tunnel.
use protogate.Base.{
  ℕ, zero, suc, ◌+◌, ◌^◌, ◌≤◌, ◌≡◌, refl, ◌∙◌, arith, Bool, [], none, some, min, ◌==◌,
  if◌then◌else◌, Text, Map, IsMap, find, insert, emplace, erase, find-insert, find-erase,
  text_eq_refl,
}
use protogate.RateLimiter.Buckets.{RateLimiter, new_limiter, allow_request}
use protogate.RateLimiter.Burst.{allowed, allowed-fresh}
use protogate.RateLimiter.Double.{Double, IsDouble}

pub record TunnelRateLimiter (W : Type 0) : Type 0 where
  pub default_requests_per_second : W
  pub default_burst_capacity : ℕ
  pub limiters : Map (RateLimiter W)

module _ {W : Type 0} (d : Double W) where
  unfoldable pub new_tunnel_limiter : W → ℕ → TunnelRateLimiter W
  new_tunnel_limiter requests_per_second burst_capacity = record {
    default_requests_per_second = requests_per_second;
    default_burst_capacity = burst_capacity;
    limiters = [];
  }

  unfoldable pub set_tunnel_limit : Text → W → ℕ → TunnelRateLimiter W → TunnelRateLimiter W
  set_tunnel_limit tunnel_id requests_per_second burst_capacity t = record t {
    limiters =
        emplace tunnel_id (new_limiter d requests_per_second burst_capacity)
          (erase tunnel_id t.limiters);
  }

  unfoldable pub limiter_of : Text → TunnelRateLimiter W → RateLimiter W
  limiter_of tunnel_id t = elim (find tunnel_id t.limiters) [
    | some limiter ↦ limiter
    | none ↦ new_limiter d t.default_requests_per_second t.default_burst_capacity
  ]

  -- `TunnelRateLimiter::allow_request`, at these two times of the limiter's.
  unfoldable pub allow_tunnel_request :
      ℕ → ℕ → Text → TunnelRateLimiter W → TunnelRateLimiter W × Bool
  allow_tunnel_request made now tunnel_id t =
      let (next, granted) = allow_request d made now tunnel_id (limiter_of tunnel_id t) in
      (record t { limiters = insert tunnel_id next t.limiters }, granted)

  unfoldable pub remove_tunnel_limit : Text → TunnelRateLimiter W → TunnelRateLimiter W
  remove_tunnel_limit tunnel_id t = record t { limiters = erase tunnel_id t.limiters }

  unfoldable pub clear_tunnel_limits : TunnelRateLimiter W → TunnelRateLimiter W
  clear_tunnel_limits t = record t { limiters = [] }

module _ {W : Type 0} (d : Double W) (laws : IsDouble d) where
  -- How many of so many requests for a tunnel at one instant are allowed.
  pub tunnel_allowed : ℕ → Text → ℕ → TunnelRateLimiter W → ℕ
  tunnel_allowed now tunnel_id zero t = 0
  tunnel_allowed now tunnel_id (suc k) t =
      let (next, granted) = allow_tunnel_request d now now tunnel_id t in
      (if granted then 1 else 0) + tunnel_allowed now tunnel_id k next

  limiter_of-insert :
      (id : Text) (l : RateLimiter W) (t : TunnelRateLimiter W) (m : Map (RateLimiter W))
      → limiter_of d id (record t { limiters = insert id l m }) ≡ l
  unfolding limiter_of
  limiter_of-insert id l t m = ground (arith, find-insert id id l m, text_eq_refl id)

  tunnel_allowed-limiter_of :
      (now k : ℕ) (id : Text) (t : TunnelRateLimiter W)
      → tunnel_allowed now id k t ≡ allowed d laws now id k (limiter_of d id t)
  unfolding tunnel_allowed allowed allow_tunnel_request
  tunnel_allowed-limiter_of now zero id t = refl
  tunnel_allowed-limiter_of now (suc k) id t =
      let next = (allow_request d now now id (limiter_of d id t)).0 in
      let later =
        tunnel_allowed-limiter_of now k id (record t { limiters = insert id next t.limiters }) in
      rw (later, limiter_of-insert id next t t.limiters) refl

  -- What was there before `set_tunnel_limit` is gone.
  limiter_of-set_tunnel_limit :
      (id : Text) (rate : W) (burst : ℕ) (t : TunnelRateLimiter W)
      → IsMap t.limiters
      → limiter_of d id (set_tunnel_limit d id rate burst t) ≡ new_limiter d rate burst
  unfolding limiter_of set_tunnel_limit emplace
  limiter_of-set_tunnel_limit id rate burst t keys = ground (
    arith,
    find-erase id id t.limiters keys,
    find-insert id id (new_limiter d rate burst) (erase id t.limiters),
    text_eq_refl id,
  )

  -- Once a tunnel's limit is set, also to a burst that it had used up before, exactly as many of its
  -- requests at one instant are allowed as the burst says, if this is at most 2 ^ 53, or all of them if
  -- they are fewer; a burst of 0 stands for 200. No tunnel has two limiters before.
  pub tunnel_allowed-set_tunnel_limit :
      (now k : ℕ) (id : Text) (rate : W) (burst : ℕ) (t : TunnelRateLimiter W)
      → IsMap t.limiters
      → burst ≤ 2 ^ 53
      → tunnel_allowed now id k (set_tunnel_limit d id rate burst t)
        ≡ min k (if burst == 0 then 200 else burst)
  tunnel_allowed-set_tunnel_limit now k id rate burst t keys exact =
      let l = new_limiter d rate burst in
      tunnel_allowed-limiter_of now k id (set_tunnel_limit d id rate burst t)
      ∙ rw (limiter_of-set_tunnel_limit id rate burst t keys) (
          allowed-fresh d laws now k id l (unfold new_limiter in ground arith)
            (unfold new_limiter find in refl)
          ∙ unfold new_limiter in refl)
