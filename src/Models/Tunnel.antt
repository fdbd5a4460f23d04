-- ===== src/Models/Tunnel.antt =====
-- src/models/tunnel.h and .cpp: a tunnel's configuration and `validate`. A text is the list of its
-- bytes; a time is a number of ticks.
use protogate.Base.{
  ℕ, Bool, true, false, not, ◌&&◌, ◌||◌, List, [], ◌∷◌, length, ltb, leb, ◌==◌, if◌then◌else◌,
  Result, ok, err, ◌>>◌, throw_if, Text, text_eq, codes,
}

pub data TunnelProtocol : Type 0 where
  http tcp : TunnelProtocol

pub data TunnelStatus : Type 0 where
  inactive active suspended : TunnelStatus

pub record Tunnel : Type 0 where
  pub tunnel_id : Text
  pub protocol : TunnelProtocol
  pub target_host : Text
  pub target_port : ℕ
  pub ip_allowlist : List Text
  pub rate_limit_rpm : ℕ
  pub created_at : ℕ
  pub updated_at : ℕ
  pub status : TunnelStatus

-- The errors that `validate` throws, in the order of its tests.
pub data TunnelError : Type 0 where
  bad_tunnel_id empty_target_host bad_target_port rate_too_high bad_cidr : TunnelError

-- `[a-z0-9]`
unfoldable pub is_alnum : ℕ → Bool
is_alnum c = (leb 97 c && leb c 122) || (leb 48 c && leb c 57)

-- `[a-z0-9-]*[a-z0-9]`
unfoldable pub matches_rest : Text → Bool
unfolding is_alnum
matches_rest [] = false
matches_rest (c ∷ []) = is_alnum c
matches_rest (c ∷ d ∷ s) = (is_alnum c || c == b'-') && matches_rest (d ∷ s)

-- `^[a-z0-9]([a-z0-9-]*[a-z0-9])?$`
unfoldable pub matches_pattern : Text → Bool
unfolding is_alnum matches_rest
matches_pattern [] = false
matches_pattern (c ∷ []) = is_alnum c
matches_pattern (c ∷ d ∷ s) = is_alnum c && matches_rest (d ∷ s)

unfoldable pub is_valid_tunnel_id : Text → Bool
unfolding matches_pattern
is_valid_tunnel_id id =
    if ltb (length id) 3 || ltb 63 (length id) then false else matches_pattern id

-- `cidr.find('/') != npos`
unfoldable pub has_slash : Text → Bool
has_slash [] = false
has_slash (c ∷ s) = c == b'/' || has_slash s

-- The loop over the allowlist. The empty text has no slash.
unfoldable pub check_cidrs : List Text → Result TunnelError (Unit {0})
unfolding has_slash
check_cidrs [] = ok tt
check_cidrs (cidr ∷ rest) =
    let more = check_cidrs rest in
    if length cidr == 0 || not (has_slash cidr) then err bad_cidr else more

unfoldable pub validate : Tunnel → Result TunnelError (Unit {0})
validate t = do
  throw_if (not (is_valid_tunnel_id t.tunnel_id)) bad_tunnel_id
  throw_if (length t.target_host == 0) empty_target_host
  throw_if (t.target_port == 0) bad_target_port
  throw_if (ltb 1000000 t.rate_limit_rpm) rate_too_high
  check_cidrs t.ip_allowlist

-- The loop of `is_ip_allowed`, which compares texts.
unfoldable pub any_equal : Text → List Text → Bool
any_equal ip [] = false
any_equal ip (cidr ∷ rest) =
    (text_eq cidr ip || text_eq cidr (codes "0.0.0.0/0") || text_eq cidr (codes "::/0"))
    || any_equal ip rest

unfoldable pub is_ip_allowed : Tunnel → Text → Bool
unfolding any_equal
is_ip_allowed t ip = if length t.ip_allowlist == 0 then true else any_equal ip t.ip_allowlist
