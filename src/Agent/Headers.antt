-- ===== src/Agent/Headers.antt =====
-- The fields of a request in the map of headers that the agent's session keeps.
use protogate.Agent.Requests.{Http2Request, store_header}
use protogate.AgentConnection.Request.{ordered_insert, without_host}
use protogate.Base.{
  ℕ, ◌≡◌, refl, arith, false, List, [], ◌∷◌, none, some, if◌then◌else◌, Text, Map, find, IsMap,
  text_eq, text_eq_iff, codes, All, Bool-cases, inl, inr,
}

unfoldable pub store_all : ℕ → List (Text × Text) → Http2Request → Http2Request
store_all id [] r = r
store_all id ((name, value) ∷ pairs) r = store_all id pairs (store_header id name value r)

unfoldable pub insert_all : List (Text × Text) → Map Text → Map Text
insert_all [] m = m
insert_all ((name, value) ∷ pairs) m = insert_all pairs (ordered_insert name value m)

-- The names that the session keeps in the map of headers.
abbrev pub IsOrdinary : Text × Text → Type 0
IsOrdinary (name, value) =
    (text_eq name (codes ":method") ≡ false)
    × (text_eq name (codes ":path") ≡ false)
    × (text_eq name (codes ":authority") ≡ false)
    × (text_eq name (codes "x-tunnel-request-id") ≡ false)
    × (text_eq name (codes "x-client-ip") ≡ false)

pub store_all-ordinary :
    (id : ℕ) (pairs : List (Text × Text)) (r : Http2Request) (m : Map Text)
    → All IsOrdinary pairs
    → store_all id pairs (record r { stream_id = id; headers = m })
      ≡ record r { stream_id = id; headers = insert_all pairs m }
unfolding store_all insert_all store_header
store_all-ordinary id [] r m h = refl
store_all-ordinary id ((name, value) ∷ pairs) r m ((a, b, c, d, e), h) =
    rw (a, b, c, d, e) (store_all-ordinary id pairs r (ordered_insert name value m) h)

pub find-ordered_insert :
    (k j v : Text) (m : Map Text)
    → find j (ordered_insert k v m) ≡ (if text_eq k j then some v else find j m)
unfolding find ordered_insert
find-ordered_insert k j v [] = refl
find-ordered_insert k j v ((i, w) ∷ m) =
    ground (arith, text_eq_iff k j, text_eq_iff i k, text_eq_iff i j, find-ordered_insert k j v m)

pub find-insert_all :
    (k : Text) (pairs m : Map Text)
    → IsMap pairs
    → find k (insert_all pairs m) ≡ (elim (find k pairs) [ none ↦ find k m | some v ↦ some v ])
unfolding find insert_all
find-insert_all k [] m h = refl
find-insert_all k ((j, v) ∷ pairs) m (fresh, h) = ground (
  arith,
  text_eq_iff j k,
  find-insert_all k pairs (ordered_insert j v m) h,
  find-ordered_insert j k v m,
  fresh,
)

pub find-without_host :
    (k : Text) (m : Map Text)
    → find k (without_host m) ≡ (if text_eq k (codes "host") then none else find k m)
unfolding find without_host
find-without_host k [] = ground arith
find-without_host k ((j, v) ∷ m) = ground (
  arith,
  text_eq_iff j k,
  text_eq_iff j (codes "host"),
  text_eq_iff k (codes "host"),
  find-without_host k m,
)

pub without_host-IsMap : (m : Map Text) → IsMap m → IsMap (without_host m)
unfolding without_host find
without_host-IsMap [] h = tt
without_host-IsMap ((j, v) ∷ m) (fresh, h) =
    ground (arith, find-without_host j m, fresh, without_host-IsMap m h)

pub without_host-IsOrdinary : (m : Map Text) → All IsOrdinary m → All IsOrdinary (without_host m)
unfolding without_host
without_host-IsOrdinary [] h = tt
without_host-IsOrdinary ((j, v) ∷ m) (p, h) = elim (Bool-cases (text_eq j (codes "host"))) [
  | inl host ↦ rw host (without_host-IsOrdinary m h)
  | inr other ↦ rw other (p, without_host-IsOrdinary m h)
]
