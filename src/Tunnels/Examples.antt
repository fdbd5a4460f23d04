-- ===== src/Tunnels/Examples.antt =====
-- The handlers on concrete requests.
use protogate.AgentRegistry.{get_agent}
use protogate.Base.{
  ℕ, ◌+◌, ◌≡◌, refl, arith, List, [], ◌∷◌, ◌++◌, none, some, length, codes, Text, ◌⊎◌, inl, inr,
  Option, true, false, Bool, ltb, if◌then◌else◌,
}
use protogate.Models.Tunnel.{Tunnel, tcp, active}
use protogate.Security.Tokens.{TokenCache, old_key, validate, invalid_format}
use protogate.Storage.Cache.{Cache, get}
use protogate.Tunnels.Handlers.{IsSound, handle_delete_tunnel-gone}
use protogate.Tunnels.Tokens.{validate-generate_token}
use protogate.Tunnels.{
  Handler, Reply, failed, created, deleted, rotated, shown, Draft, Parsed, parse_error, bad_type,
  draft, generate_token, create_checked, validate_tunnel_config, handle_create_tunnel,
  handle_rotate_token, handle_delete_tunnel, handle_get_tunnel, year,
}

abbrev hash : Text → Text
hash token = 35 ∷ token

abbrev values : List ℕ
values = 1 ∷ 2 ∷ 255 ∷ 4 ∷ []

abbrev empty_tokens : TokenCache
empty_tokens = record { entries = []; default_ttl = 50 }

validate-generate_token_example :
    validate hash 5 5 (codes "Bearer " ++ generate_token values) empty_tokens ≡ invalid_format
validate-generate_token_example = validate-generate_token hash 5 5 values empty_tokens (omega arith)

token_test : length (generate_token values) ≡ 64
unfolding generate_token protogate.Tunnels.hex_digits
token_test = refl

abbrev db : Tunnel
db = record {
  tunnel_id = codes "db";
  protocol = tcp;
  target_host = codes "h";
  target_port = 5432;
  ip_allowlist = [];
  rate_limit_rpm = 0;
  created_at = 7;
  updated_at = 7;
  status = active;
}

abbrev empty_handler : Handler
empty_handler = record {
  tunnel_cache = record { entries = []; default_ttl = 50 };
  token_cache = empty_tokens;
  agent_registry = record { max_agents = 50; agents = [] };
}

abbrev read_as : Parsed → Text → Parsed
read_as p body = p

abbrev db_draft : Draft
db_draft = record {
  tunnel_id = codes "db";
  target_host = codes "h";
  target_port = 65536 + 5432;
  protocol = codes "TCP";
  ip_allowlist = some [];
}

-- A port that does not fit is narrowed.
create_test :
    (handle_create_tunnel hash (read_as (draft db_draft)) 0 5 7 values [] empty_handler).0
    ≡ created db (generate_token values) (7 + year)
unfolding handle_create_tunnel protogate.Base.text_eq create_checked validate_tunnel_config
    protogate.Tunnels.all_id_chars get protogate.Base.find protogate.Tunnels.store_tunnel
create_test = refl

abbrev with_db : Handler
with_db = (create_checked hash 5 7 values db empty_handler).1.1

abbrev rotated_db : Handler
rotated_db = (handle_rotate_token hash 6 8 (9 ∷ 9 ∷ 9 ∷ 9 ∷ []) (codes "db") with_db).1.1

again_test :
    (handle_create_tunnel hash (read_as (draft db_draft)) 0 6 8 values [] with_db).0
    ≡ failed 409 (codes "Tunnel with this ID already exists")
unfolding handle_create_tunnel protogate.Base.text_eq create_checked validate_tunnel_config
    protogate.Tunnels.all_id_chars get protogate.Base.find protogate.Tunnels.store_tunnel
    protogate.Storage.Cache.put_ttl protogate.Base.insert
again_test = refl

-- A tunnel whose token was rotated, and which then is deleted.
abbrev two_entries : Handler
two_entries = record {
  tunnel_cache = record {
    entries = (codes "db", record { value = db; expires_at = 90 }) ∷ [];
    default_ttl = 50;
  };
  token_cache = record {
    entries =
        (
          codes "db",
          record {
            value = record { token_hash = hash (codes "b"); expires_at = 90 };
            expires_at = 90;
          },
        )
        ∷ (
          codes "db:old",
          record {
            value = record { token_hash = hash (codes "a"); expires_at = 90 };
            expires_at = 60;
          },
        )
        ∷ [];
    default_ttl = 50;
  };
  agent_registry = record { max_agents = 50; agents = [] };
}

two_entries-IsSound : IsSound two_entries
unfolding protogate.Base.find protogate.Base.text_eq
two_entries-IsSound = ((refl, tt), ((refl, (refl, tt)), (omega arith, tt)))

handle_delete_tunnel-gone_example :
    (get 7 (codes "db") (handle_delete_tunnel 6 (codes "db") two_entries).1.1.tunnel_cache ≡ none)
    × ((get 7 (codes "db") (handle_delete_tunnel 6 (codes "db") two_entries).1.1.token_cache ≡ none)
        × ((get_agent
                (codes "db")
                (handle_delete_tunnel 6 (codes "db") two_entries).1.1.agent_registry
              ≡ none)
            × (get 7
                  (old_key (codes "db"))
                  (handle_delete_tunnel 6 (codes "db") two_entries).1.1.token_cache
                ≡ get 7 (old_key (codes "db")) two_entries.token_cache)))
unfolding get protogate.Base.find protogate.Base.text_eq
handle_delete_tunnel-gone_example =
    handle_delete_tunnel-gone 6 7 (codes "db") db two_entries two_entries-IsSound refl

shown_test : handle_get_tunnel 7 (codes "db") two_entries ≡ shown db
unfolding handle_get_tunnel get protogate.Base.find protogate.Base.text_eq
shown_test = refl
