-- ===== src/Base/Maps.antt =====
-- `std::unordered_map` with texts for keys: an association list with one pair for each key. C++
-- leaves the order of iteration open; here it is the list's.
use Prim.Native.Nat.{ℕ, ◌+◌}
use mathlib.Core.Bool.{Bool, true, false, ◌&&◌, false≢true}
use mathlib.Core.List.{List, [], ◌∷◌, ◌++◌}
use mathlib.Core.Logic.{◌↔◌}
use mathlib.Core.Option.{Option, none, some}
use mathlib.Core.Path.{◌≡◌, refl, sym, subst}
use native.Mathlib.Omega.{arith}
use protogate.Base.Lists.{length, take, drop, take_append_drop}
use protogate.Base.Tests.{if◌then◌else◌, ◌==◌}

abbrev pub Text : Type 0
Text = List ℕ

-- `==` of `std::string`.
unfoldable pub text_eq : Text → Text → Bool
text_eq [] [] = true
text_eq (x ∷ s) (y ∷ t) = x == y && text_eq s t
text_eq _ _ = false

pub text_eq_iff : (s t : Text) → (text_eq s t ≡ true) ↔ (s ≡ t)
unfolding text_eq
text_eq_iff [] [] = (λ h. refl, λ h. refl)
text_eq_iff [] (y ∷ t) = (λ h. absurd (false≢true h), λ h. cc)
text_eq_iff (x ∷ s) [] = (λ h. absurd (false≢true h), λ h. cc)
text_eq_iff (x ∷ s) (y ∷ t) =
    let (sound, complete) = text_eq_iff s t in
    (λ h. ground (arith, sound), λ h. ground (arith, complete))

pub text_eq_refl : (s : Text) → text_eq s s ≡ true
text_eq_refl s = (text_eq_iff s s).1 refl

-- `compare(0, p.size(), p) == 0`
pub text_eq_prefix :
    (p s : Text) → text_eq (take (length p) s) p ≡ true → s ≡ p ++ drop (length p) s
text_eq_prefix p s e =
    subst (λ q. s ≡ q ++ drop (length p) s) ((text_eq_iff (take (length p) s) p).0 e)
      (sym (take_append_drop (length p) s))

abbrev pub Map : Type 0 → Type 0
Map V = List (Text × V)

module _ {V : Type 0} where
  unfoldable pub find : Text → Map V → Option V
  find k [] = none
  find k ((j, v) ∷ m) = if text_eq j k then some v else find k m

  -- `m[k] = v`
  unfoldable pub insert : Text → V → Map V → Map V
  insert k v [] = (k, v) ∷ []
  insert k v ((j, w) ∷ m) = if text_eq j k then (k, v) ∷ m else (j, w) ∷ insert k v m

  -- `emplace`, which leaves a key that is there as it is.
  unfoldable pub emplace : Text → V → Map V → Map V
  emplace k v m = elim (find k m) [ none ↦ insert k v m | some w ↦ m ]

  unfoldable pub erase : Text → Map V → Map V
  erase k [] = []
  erase k ((j, w) ∷ m) = if text_eq j k then m else (j, w) ∷ erase k m

  -- No key stands twice.
  abbrev pub IsMap : Map V → Type 0
  IsMap [] = Unit
  IsMap ((j, w) ∷ m) = (find j m ≡ none) × IsMap m

  pub find-insert :
      (k j : Text) (v : V) (m : Map V)
      → find j (insert k v m) ≡ (if text_eq k j then some v else find j m)
  unfolding find insert
  find-insert k j v [] = refl
  find-insert k j v ((i, w) ∷ m) =
      ground (arith, text_eq_iff k j, text_eq_iff i k, text_eq_iff i j, find-insert k j v m)

  pub insert-IsMap : (k : Text) (v : V) (m : Map V) → IsMap m → IsMap (insert k v m)
  unfolding insert find
  insert-IsMap k v [] h = (refl, tt)
  insert-IsMap k v ((i, w) ∷ m) (fresh, h) =
      ground (arith, text_eq_iff i k, text_eq_iff k i, find-insert k i v m, insert-IsMap k v m h)

  pub find-erase :
      (k j : Text) (m : Map V)
      → IsMap m
      → find j (erase k m) ≡ (if text_eq k j then none else find j m)
  unfolding find erase
  find-erase k j [] h = ground arith
  find-erase k j ((i, w) ∷ m) (fresh, h) =
      ground (arith, text_eq_iff k j, text_eq_iff i k, text_eq_iff i j, find-erase k j m h)

  pub erase-IsMap : (k : Text) (m : Map V) → IsMap m → IsMap (erase k m)
  unfolding erase find
  erase-IsMap k [] h = tt
  erase-IsMap k ((i, w) ∷ m) (fresh, h) = ground (arith, find-erase k i m h, erase-IsMap k m h)

  -- 1 if the key is there, else 0.
  unfoldable pub count_of : Text → Map V → ℕ
  count_of k m = elim (find k m) [ none ↦ 0 | some w ↦ 1 ]

  pub length-insert :
      (k : Text) (v : V) (m : Map V) → length (insert k v m) + count_of k m ≡ length m + 1
  unfolding insert find count_of
  length-insert k v [] = refl
  length-insert k v ((i, w) ∷ m) = ground (arith, length-insert k v m)

  pub length-erase : (k : Text) (m : Map V) → length (erase k m) + count_of k m ≡ length m
  unfolding erase find count_of
  length-erase k [] = refl
  length-erase k ((i, w) ∷ m) = ground (arith, length-erase k m)
