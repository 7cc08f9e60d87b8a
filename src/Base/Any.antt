-- ===== src/Base/Any.antt =====
-- Members of a list that pass a Boolean test.
use semnav.Base.Tests.{Bool-cases}
use semnav.Base.Lists.{All, All-map_of, retain, any, find_first}
use semnav.Base.Order.{is_gt}
use semnav.Base.Sort.{insert_by, sort_by}
use Prim.Native.Nat.{Ordering}
use mathlib.Core.Path.{◌≡◌, refl}
use mathlib.Core.Logic.{inl, inr}
use mathlib.Core.Bool.{Bool, true, false, ◌&&◌, ◌||◌}
use mathlib.Core.Option.{none, some}
use mathlib.Core.List.{List, [], ◌∷◌}

pub or_true : (a b : Bool) → b ≡ true → (a || b) ≡ true
or_true true b h = refl
or_true false b h = h

pub and_true : (a b : Bool) → (a && b) ≡ true → (a ≡ true) × (b ≡ true)
and_true true b h = (refl, h)
and_true false b h = cc

pub and_both : (a b : Bool) → a ≡ true → b ≡ true → (a && b) ≡ true
and_both true b h k = k
and_both false b h k = cc

module _ {A : Type 0} where
  pub All-retained :
      (P : A → Type 0) (p : A → Bool) (xs : List A)
      → All P (retain p xs)
      → All (λ x. p x ≡ true → P x) xs
  All-retained P p [] h = tt
  All-retained P p (x ∷ xs) h = elim (Bool-cases (p x)) [
    | inl e ↦ let k : P x × All P (retain p xs) = rw e at h in (λ _. k.0, All-retained P p xs k.1)
    | inr e ↦ let k : All P (retain p xs) = rw e at h in (λ t. cc, All-retained P p xs k)
  ]

  pub retain-All :
      (P : A → Type 0) (p : A → Bool) (xs : List A)
      → All (λ x. p x ≡ true → P x) xs
      → All P (retain p xs)
  retain-All P p [] h = tt
  retain-All P p (x ∷ xs) h = elim (Bool-cases (p x)) [
    | inl e ↦ rw e (h.0 e, retain-All P p xs h.1)
    | inr e ↦ rw e (retain-All P p xs h.1)
  ]

  -- A test that an element passes is passed by one of the list.
  pub All-passing : (xs : List A) → All (λ x. (p : A → Bool) → p x ≡ true → any p xs ≡ true) xs
  All-passing [] = tt
  All-passing (x ∷ xs) =
      (λ p e. rw e, All-map_of (λ y k p e. or_true (p x) _ (k p e)) xs (All-passing xs))

  -- A test that finds nothing fails on every element.
  pub find_first-none :
      (p : A → Bool) (xs : List A) → find_first p xs ≡ none → All (λ x. p x ≡ false) xs
  find_first-none p [] e = tt
  find_first-none p (y ∷ xs) e = elim (Bool-cases (p y)) [
    | inl t ↦ let bad : some y ≡ none = rw t at e in cc
    | inr t ↦ let rest : find_first p xs ≡ none = rw t at e in (t, find_first-none p xs rest)
  ]

  pub found-passes : (p : A → Bool) (xs : List A) {x : A} → find_first p xs ≡ some x → p x ≡ true
  found-passes p [] e = cc
  found-passes p (y ∷ xs) {x} e = elim (Bool-cases (p y)) [
    | inl t ↦ let it : some y ≡ some x = rw t at e in let same : y ≡ x = cc it in rw (← same) t
    | inr t ↦ found-passes p xs (rw t at e)
  ]

  pub any-All :
      (P : A → Type 0) (p : A → Bool) (xs : List A)
      → any p xs ≡ true
      → All P xs
      → (x : A) × (p x ≡ true) × P x
  any-All P p [] e h = cc
  any-All P p (x ∷ xs) e h = elim (Bool-cases (p x)) [
    | inl t ↦ (x, t, h.0)
    | inr t ↦ any-All P p xs (rw t at e) h.1
  ]

  pub All-insert_of :
      (P : A → Type 0) (cmp : A → A → Ordering) (x : A) (ys : List A)
      → All P (insert_by cmp x ys)
      → P x × All P ys
  unfolding insert_by
  All-insert_of P cmp x [] h = h
  All-insert_of P cmp x (y ∷ ys) h = elim (Bool-cases (is_gt (cmp x y))) [
    | inl e ↦
        let k : P y × All P (insert_by cmp x ys) = rw e at h in
        let l = All-insert_of P cmp x ys k.1 in (l.0, (k.0, l.1))
    | inr e ↦ rw e at h
  ]

  pub All-sort_of :
      (P : A → Type 0) (cmp : A → A → Ordering) (xs : List A) → All P (sort_by cmp xs) → All P xs
  unfolding sort_by
  All-sort_of P cmp [] h = tt
  All-sort_of P cmp (x ∷ xs) h =
      let k = All-insert_of P cmp x (sort_by cmp xs) h in (k.0, All-sort_of P cmp xs k.1)
