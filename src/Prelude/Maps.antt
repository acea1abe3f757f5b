-- ===== src/Prelude/Maps.antt =====
-- Go's `map`, as the list of its entries in the order in which `range` meets them.
use mathlib.Core.Path.{◌≡◌, refl}
use mathlib.Core.Logic.{◌≢◌}
use mathlib.Core.Option.{Option, none, some}
use mathlib.Core.Bool.{true, false}
use mathlib.Core.List.{List, [], ◌∷◌}
use native.Mathlib.Omega.{arith}
use ocpphal_go.Prelude.Tests.{if◌then◌else◌}
use ocpphal_go.Prelude.Keys.{Key, ◌==◌}

abbrev pub GoMap : Type 0 → Type 0 → Type 0
GoMap K V = List (K × V)

module _ {K V : Type 0} ⦃e : Key K⦄ where
  -- m[k], with `none` for a missing key
  unfoldable pub get : K → GoMap K V → Option V
  get k [] = none
  get k ((j, v) ∷ m) = if j == k then some v else get k m

  -- m[k] = v
  unfoldable pub put : K → V → GoMap K V → GoMap K V
  put k v [] = (k, v) ∷ []
  put k v ((j, w) ∷ m) = if j == k then (k, v) ∷ m else (j, w) ∷ put k v m

  -- delete(m, k)
  unfoldable pub delete : K → GoMap K V → GoMap K V
  delete k [] = []
  delete k ((j, w) ∷ m) = if j == k then delete k m else (j, w) ∷ delete k m

  pub get-put :
      (k j : K) (v : V) (m : GoMap K V) → get j (put k v m) ≡ (if k == j then some v else get j m)
  unfolding get put
  get-put k j v [] = refl
  get-put k j v ((i, w) ∷ m) = ground (arith, get-put k j v m)

  pub get-delete :
      (k j : K) (m : GoMap K V) → get j (delete k m) ≡ (if k == j then none else get j m)
  unfolding get delete
  get-delete k j [] = ground arith
  get-delete k j ((i, w) ∷ m) = ground (arith, get-delete k j m)

  -- No key has two entries.
  abbrev pub Distinct : GoMap K V → Type 0
  Distinct [] = Unit
  Distinct ((k, v) ∷ m) = (get k m ≡ none) × Distinct m

  pub put-Distinct : (k : K) (v : V) (m : GoMap K V) → Distinct m → Distinct (put k v m)
  unfolding get put
  put-Distinct k v [] d = ground arith
  put-Distinct k v ((j, w) ∷ m) d = ground (arith, put-Distinct k v m d.1, get-put k j v m)

  pub delete-Distinct : (k : K) (m : GoMap K V) → Distinct m → Distinct (delete k m)
  unfolding get delete
  delete-Distinct k [] d = tt
  delete-Distinct k ((j, w) ∷ m) d = ground (arith, delete-Distinct k m d.1, get-delete k j m)

  -- Every entry satisfies `P`.
  abbrev pub Entries : (K → V → Type 0) → GoMap K V → Type 0
  Entries P [] = Unit
  Entries P ((k, v) ∷ m) = P k v × Entries P m

  pub put-Entries :
      (P : K → V → Type 0) (k : K) (v : V) (m : GoMap K V)
      → P k v
      → Entries P m
      → Entries P (put k v m)
  unfolding put
  put-Entries P k v [] p h = (p, tt)
  put-Entries P k v ((j, w) ∷ m) p h =
      elim (e.dec j k)
        as (λ b.
          Entries P
            (if (elim b [ yes _ ↦ true | no _ ↦ false ]) then (k, v) ∷ m else (j, w) ∷ put k v m)) [
              | yes q ↦ (p, h.1)
              | no q ↦ (h.0, put-Entries P k v m p h.1)
            ]

  pub get-Entries :
      (P : K → V → Type 0) (k : K) (v : V) (m : GoMap K V) → Entries P m → get k m ≡ some v → P k v
  unfolding get
  get-Entries P k v [] h g = cc
  get-Entries P k v ((j, w) ∷ m) h g = ground (arith, get-Entries P k v m h.1)

  pub delete-Entries :
      (P : K → V → Type 0) (k : K) (m : GoMap K V) → Entries P m → Entries P (delete k m)
  unfolding delete
  delete-Entries P k [] h = tt
  delete-Entries P k ((j, w) ∷ m) h = ground (arith, delete-Entries P k m h.1)

  pub get-put_self : (k : K) (v : V) (m : GoMap K V) → get k (put k v m) ≡ some v
  get-put_self k v m = ground (arith, get-put k k v m)

  pub get-put_ne : (k j : K) (v : V) (m : GoMap K V) → k ≢ j → get j (put k v m) ≡ get j m
  get-put_ne k j v m h = ground (arith, get-put k j v m)

  pub get-delete_self : (k : K) (m : GoMap K V) → get k (delete k m) ≡ none
  get-delete_self k m = ground (arith, get-delete k k m)

  pub get-delete_ne : (k j : K) (m : GoMap K V) → k ≢ j → get j (delete k m) ≡ get j m
  get-delete_ne k j m h = ground (arith, get-delete k j m)

pub ruleset map_laws = (get-put, get-delete)
