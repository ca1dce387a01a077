-- ===== src/Base/Dict.antt =====
-- Go's `map[string]V`. The order of entries is not observed by the code that uses it.
use are_foundation.Base.Tests.{if◌then◌else◌}
use are_foundation.Base.Lists.{length}
use Prim.Native.Nat.{ℕ}
use Prim.Native.String.{String}
use mathlib.Core.Path.{◌≡◌, refl}
use mathlib.Core.Option.{Option, none, some}
use mathlib.Core.List.{List, [], ◌∷◌, foldr}
use native.Mathlib.Omega.{arith}
use text.Mathlib.Text.{◌==◌}
use text.Mathlib.TextEquality.{eq_iff}

abbrev Entries {ℓ} : Type ℓ → Type ℓ
Entries V = List (String × V)

module _ {ℓ} {V : Type ℓ} where
  find_entry : String → Entries V → Option V
  find_entry key [] = none
  find_entry key ((j, v) ∷ l) = if j == key then some v else find_entry key l

  without : String → Entries V → Entries V
  without key [] = []
  without key ((j, v) ∷ l) = let rest = without key l in if j == key then rest else (j, v) ∷ rest

  find_entry-without :
      (key other : String) (l : Entries V)
      → find_entry other (without key l) ≡ (if key == other then none else find_entry other l)
  unfolding find_entry without
  find_entry-without key other [] = ground arith
  find_entry-without key other ((i, v) ∷ l) =
      ground (arith, find_entry-without key other l, eq_iff i key, eq_iff i other, eq_iff key other)

pub record Dict {ℓ} (V : Type ℓ) : Type ℓ where
  entries : Entries V

module _ {ℓ} {V : Type ℓ} where
  -- make(map[string]V)
  unfoldable pub empty : Dict V
  empty = record { entries = [] }

  -- v, ok := m[k]
  unfoldable pub get : Dict V → String → Option V
  unfolding find_entry
  get m key = find_entry key m.entries

  -- m[k] = v
  unfoldable pub put : Dict V → String → V → Dict V
  unfolding without
  put m key v = record { entries = (key, v) ∷ without key m.entries }

  -- delete(m, k)
  unfoldable pub delete : Dict V → String → Dict V
  unfolding without
  delete m key = record { entries = without key m.entries }

  -- len(m)
  unfoldable pub size : Dict V → ℕ
  size m = length m.entries

  -- `for k, v := range m`, where each pass updates an accumulator
  unfoldable pub fold {κ} : {W : Type κ} → (String → V → W → W) → W → Dict V → W
  fold f w m = foldr (λ entry. f entry.0 entry.1) w m.entries

-- A read after a write, by the key that is read.
module _ {ℓ} {V : Type ℓ} (m : Dict V) (key other : String) where
  pub get-delete : get (delete m key) other ≡ (if key == other then none else get m other)
  unfolding get delete
  get-delete = find_entry-without key other m.entries

  pub get-put : (v : V) → get (put m key v) other ≡ (if key == other then some v else get m other)
  unfolding get put
  get-put v = ground (arith, find_entry-without key other m.entries)

pub get-empty {ℓ} : {V : Type ℓ} (key : String) → get (empty {V = V}) key ≡ none
unfolding get empty
get-empty key = refl

pub ruleset dict_laws = (get-empty, get-delete, get-put)
