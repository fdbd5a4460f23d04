-- ===== src/Models/Examples.antt =====
-- The theorems on tunnels at concrete tunnels.
use protogate.Base.{◌≡◌, ◌≤◌, ◌↔◌, refl, true, false, [], ◌∷◌, codes, ok, err, All}
use protogate.Models.Tunnel.{
  Tunnel, tcp, active, validate, check_cidrs, is_valid_tunnel_id, bad_cidr,
}
use protogate.Models.TunnelId.{IsLabelChar, BeginsAlnum, EndsAlnum, is_valid_tunnel_id_iff}

abbrev tunnel : Tunnel
tunnel = record {
  tunnel_id = codes "db-1";
  protocol = tcp;
  target_host = codes "h";
  target_port = 5432;
  ip_allowlist = codes "10.0.0.0/8" ∷ [];
  rate_limit_rpm = 60;
  created_at = 1;
  updated_at = 1;
  status = active;
}

no_trailing_hyphen : is_valid_tunnel_id (codes "db-") ≡ false
unfolding is_valid_tunnel_id
no_trailing_hyphen = refl

accepts : validate tunnel ≡ ok tt
unfolding validate check_cidrs is_valid_tunnel_id
accepts = refl

refuses : validate (record tunnel { ip_allowlist = codes "10.0.0.1" ∷ [] }) ≡ err bad_cidr
unfolding validate check_cidrs is_valid_tunnel_id
refuses = refl

is_valid_tunnel_id_iff_example : (is_valid_tunnel_id (codes "db-1") ≡ true) ↔ (
    (3 ≤ 4)
    × (4 ≤ 63)
    × All IsLabelChar (codes "db-1")
    × BeginsAlnum (codes "db-1")
    × EndsAlnum (codes "db-1"))
is_valid_tunnel_id_iff_example = is_valid_tunnel_id_iff (codes "db-1")
