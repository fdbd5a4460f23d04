-- ===== src/Storage/Cache.antt =====
-- src/storage/cache.h. Each operation is given the time that `steady_clock::now()` returns, in the
-- clock's ticks, and times do not wrap. The lock makes each operation one step.
use protogate.Base.{
  ℕ, ◌+◌, Bool, true, false, not, List, [], ◌∷◌, Option, none, some, length, leb, if◌then◌else◌,
  Text, Map, find, insert, erase,
}

pub record Entry (V : Type 0) : Type 0 where
  pub value : V
  pub expires_at : ℕ

pub record Cache (V : Type 0) : Type 0 where
  pub entries : Map (Entry V)
  pub default_ttl : ℕ

module _ {V : Type 0} where
  abbrev pub is_expired : ℕ → Entry V → Bool
  is_expired now e = leb e.expires_at now

  unfoldable pub put_ttl : ℕ → Text → V → ℕ → Cache V → Cache V
  put_ttl now key v ttl c = record c {
    entries = insert key (record { value = v; expires_at = now + ttl }) c.entries;
  }

  unfoldable pub put : ℕ → Text → V → Cache V → Cache V
  unfolding put_ttl
  put now key v c = put_ttl now key v c.default_ttl c

  unfoldable pub get : ℕ → Text → Cache V → Option V
  get now key c = elim (find key c.entries) [
    | none ↦ none
    | some e ↦ if is_expired now e then none else some e.value
  ]

  unfoldable pub remove : Text → Cache V → Cache V × Bool
  remove key c = (
    record c { entries = erase key c.entries },
    elim (find key c.entries) [ none ↦ false | some e ↦ true ],
  )

  unfoldable pub contains : ℕ → Text → Cache V → Bool
  contains now key c = elim (find key c.entries) [ none ↦ false | some e ↦ not (is_expired now e) ]

  unfoldable pub size : Cache V → ℕ
  size c = length c.entries

  unfoldable pub clear : Cache V → Cache V
  clear c = record c { entries = [] }

  -- The loop of `cleanup`: what stays, and the number of entries removed.
  unfoldable pub sweep : ℕ → Map (Entry V) → Map (Entry V) × ℕ
  sweep now [] = ([], 0)
  sweep now ((k, e) ∷ m) =
      let (kept, removed) = sweep now m in
      if is_expired now e then (kept, removed + 1) else ((k, e) ∷ kept, removed)

  unfoldable pub cleanup : ℕ → Cache V → Cache V × ℕ
  cleanup now c =
      let (kept, removed) = sweep now c.entries in (record c { entries = kept }, removed)

  -- `for_each`: the keys and values that it visits.
  unfoldable pub live : ℕ → Map (Entry V) → List (Text × V)
  live now [] = []
  live now ((k, e) ∷ m) =
      let rest = live now m in if is_expired now e then rest else (k, e.value) ∷ rest

  unfoldable pub for_each : ℕ → Cache V → List (Text × V)
  unfolding live
  for_each now c = live now c.entries
