-- ===== src/Storage/CacheLaws.antt =====
-- The cache of src/storage/cache.h as a partial map from keys to values that changes with time.
use protogate.Base.{
  ℕ, ◌+◌, ◌≤◌, ◌≡◌, refl, true, false, [], ◌∷◌, arith, none, some, length, ltb, leb, if◌then◌else◌,
  Text, Map, find, IsMap, text_eq, text_eq_iff, find-insert, insert-IsMap, find-erase, erase-IsMap,
  length-erase, count_of,
}
use protogate.Storage.Cache.{
  Entry, Cache, clear, put_ttl, get, remove, contains, size, sweep, cleanup, live, for_each,
}

module _ {V : Type 0} where
  abbrev pub IsCache : Cache V → Type 0
  IsCache c = IsMap c.entries

  -- After a `put`, its key holds the value until the time to live has passed, and nothing from then
  -- on; every other key reads as before.
  pub get-put_ttl :
      (now later : ℕ) (k j : Text) (v : V) (ttl : ℕ) (c : Cache V)
      → get later j (put_ttl now k v ttl c)
        ≡ (if text_eq k j then (if ltb later (now + ttl) then some v else none) else get later j c)
  unfolding get put_ttl
  get-put_ttl now later k j v ttl c =
      ground (arith, find-insert k j (record { value = v; expires_at = now + ttl }) c.entries)

  -- After a `remove`, its key reads as nothing and every other key as before; the result says
  -- whether an entry, expired or not, was there.
  pub get-remove :
      (now : ℕ) (k j : Text) (c : Cache V)
      → IsCache c
      → get now j (remove k c).0 ≡ (if text_eq k j then none else get now j c)
  unfolding get remove
  get-remove now k j c h = ground (arith, find-erase k j c.entries h)

  size-remove :
      (k : Text) (c : Cache V) → size (remove k c).0 + (if (remove k c).1 then 1 else 0) ≡ size c
  unfolding size remove count_of
  size-remove k c = ground (arith, length-erase k c.entries)

  -- `contains` says whether `get` returns a value.
  pub contains-get :
      (now : ℕ) (k : Text) (c : Cache V)
      → contains now k c ≡ (elim (get now k c) [ none ↦ false | some v ↦ true ])
  unfolding contains get
  contains-get now k c = ground arith

  find-sweep :
      (now : ℕ) (k : Text) (m : Map (Entry V))
      → IsMap m
      → find k (sweep now m).0
        ≡ (elim (find k m) [ none ↦ none | some e ↦ if leb e.expires_at now then none else some e ])
  unfolding find sweep
  find-sweep now k [] h = refl
  find-sweep now k ((i, e) ∷ m) (fresh, h) = ground (arith, text_eq_iff i k, find-sweep now k m h)

  sweep-IsMap : (now : ℕ) (m : Map (Entry V)) → IsMap m → IsMap (sweep now m).0
  unfolding sweep
  sweep-IsMap now [] h = tt
  sweep-IsMap now ((i, e) ∷ m) (fresh, h) =
      ground (arith, sweep-IsMap now m h, find-sweep now i m h)

  length-sweep : (now : ℕ) (m : Map (Entry V)) → length (sweep now m).0 + (sweep now m).1 ≡ length m
  unfolding sweep
  length-sweep now [] = refl
  length-sweep now ((i, e) ∷ m) = ground (arith, length-sweep now m)

  -- `cleanup` changes no later `get`, and the number that it returns is that of the entries gone.
  pub get-cleanup :
      (now later : ℕ) (k : Text) (c : Cache V)
      → IsCache c
      → now ≤ later
      → (get later k (cleanup now c).0 ≡ get later k c)
        × (size (cleanup now c).0 + (cleanup now c).1 ≡ size c)
  unfolding get cleanup size
  get-cleanup now later k c h order =
      (ground (arith, find-sweep now k c.entries h), length-sweep now c.entries)

  live_fresh :
      (now : ℕ) (k : Text) (m : Map (Entry V)) → find k m ≡ none → find k (live now m) ≡ none
  unfolding live find
  live_fresh now k [] h = refl
  live_fresh now k ((i, e) ∷ m) h = ground (arith, live_fresh now k m)

  find-live :
      (now : ℕ) (k : Text) (m : Map (Entry V))
      → IsMap m
      → find k (live now m) ≡ (elim (find k m) [
        | none ↦ none
        | some e ↦ if leb e.expires_at now then none else some e.value
      ])
  unfolding find live
  find-live now k [] h = refl
  find-live now k ((i, e) ∷ m) (fresh, h) =
      ground (arith, text_eq_iff i k, find-live now k m h, live_fresh now k m)

  live-IsMap : (now : ℕ) (m : Map (Entry V)) → IsMap m → IsMap (live now m)
  unfolding live
  live-IsMap now [] h = tt
  live-IsMap now ((i, e) ∷ m) (fresh, h) = ground (arith, live_fresh now i m, live-IsMap now m h)

  -- `for_each` visits no key twice.
  pub for_each-IsMap : (now : ℕ) (c : Cache V) → IsCache c → IsMap (for_each now c)
  unfolding for_each
  for_each-IsMap now c h = live-IsMap now c.entries h

  -- `for_each` visits exactly the pairs that `get` returns.
  pub find-for_each :
      (now : ℕ) (k : Text) (c : Cache V) → IsCache c → find k (for_each now c) ≡ get now k c
  unfolding for_each get
  find-for_each now k c h = ground (arith, find-live now k c.entries h)

  pub get-clear : (now : ℕ) (k : Text) (c : Cache V) → get now k (clear c) ≡ none
  unfolding get clear find
  get-clear now k c = refl

  pub remove-IsCache : (k : Text) (c : Cache V) → IsCache c → IsCache (remove k c).0
  unfolding remove
  remove-IsCache k c h = erase-IsMap k c.entries h

  pub put_ttl-IsCache :
      (now : ℕ) (k : Text) (v : V) (ttl : ℕ) (c : Cache V)
      → IsCache c
      → IsCache (put_ttl now k v ttl c)
  unfolding put_ttl
  put_ttl-IsCache now k v ttl c h = insert-IsMap k _ c.entries h

  pub cleanup-IsCache : (now : ℕ) (c : Cache V) → IsCache c → IsCache (cleanup now c).0
  unfolding cleanup
  cleanup-IsCache now c h = sweep-IsMap now c.entries h

  pub remove-default_ttl : (k : Text) (c : Cache V) → (remove k c).0.default_ttl ≡ c.default_ttl
  unfolding remove
  remove-default_ttl k c = refl

  pub put_ttl-default_ttl :
      (now : ℕ) (k : Text) (v : V) (ttl : ℕ) (c : Cache V)
      → (put_ttl now k v ttl c).default_ttl ≡ c.default_ttl
  unfolding put_ttl
  put_ttl-default_ttl now k v ttl c = refl
