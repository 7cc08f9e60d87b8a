-- ===== src/Base/Assoc.antt =====
-- Association lists: a table with a primary key, and a hash map.
use mathlib.Core.Bool.{Bool, true}
use mathlib.Core.List.{List, [], ◌∷◌}
use mathlib.Core.Option.{Option, none, some}
use mathlib.Core.Path.{◌≡◌, refl}
use mathlib.Core.Logic.{inl, inr}
use semnav.Base.Tests.{if◌then◌else◌, Bool-cases}

-- INSERT … ON CONFLICT(key) DO UPDATE, and `HashMap::insert`.
module _ {ℓ κ} {K : Type ℓ} {V : Type κ} (eq : K → K → Bool) where
  unfoldable pub put : K → V → List (K × V) → List (K × V)
  put k v [] = (k, v) ∷ []
  put k v ((j, w) ∷ rest) = if eq j k then (j, v) ∷ rest else (j, w) ∷ put k v rest

  unfoldable pub get : K → List (K × V) → Option V
  get k [] = none
  get k ((j, w) ∷ rest) = if eq j k then some w else get k rest

  -- What was put is found.
  pub get-put_self :
      (k : K) (v : V) (xs : List (K × V)) → eq k k ≡ true → get k (put k v xs) ≡ some v
  unfolding get put
  get-put_self k v [] self = rw self refl
  get-put_self k v ((j, w) ∷ xs) self = elim (Bool-cases (eq j k)) [
    | inl e ↦ rw (e) (rw e refl)
    | inr e ↦ rw (e) (rw e (get-put_self k v xs self))
  ]
