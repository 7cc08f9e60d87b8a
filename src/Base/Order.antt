-- ===== src/Base/Order.antt =====
-- Three-way comparisons (`Ord::cmp` of the source) and what makes one a total order.
use Prim.Native.Nat.{compare, Ordering}
use mathlib.Core.Path.{◌≡◌, refl, ap₂}
use mathlib.Core.Bool.{Bool, true, false}
use mathlib.Core.Logic.{◌⊎◌, inl, inr}
use mathlib.Core.List.{List, [], ◌∷◌}
use native.Mathlib.Omega.{arith}

-- `Ordering::reverse`
abbrev pub reverse : Ordering → Ordering
reverse Ordering.lt = Ordering.gt
reverse Ordering.eq = Ordering.eq
reverse Ordering.gt = Ordering.lt

-- `Ordering::then`
abbrev pub then_cmp : Ordering → Ordering → Ordering
then_cmp Ordering.lt o = Ordering.lt
then_cmp Ordering.eq o = o
then_cmp Ordering.gt o = Ordering.gt

abbrev pub is_lt : Ordering → Bool
is_lt Ordering.lt = true
is_lt _ = false

abbrev pub is_eq : Ordering → Bool
is_eq Ordering.eq = true
is_eq _ = false

abbrev pub is_gt : Ordering → Bool
is_gt Ordering.gt = true
is_gt _ = false

-- A comparison that is a total order.
pub record IsTotal {ℓ} {A : Type ℓ} (cmp : A → A → Ordering) : Type ℓ where
  pub eq_of : (a b : A) → cmp a b ≡ Ordering.eq → a ≡ b
  pub self : (a : A) → cmp a a ≡ Ordering.eq
  pub flip : (a b : A) → cmp b a ≡ reverse (cmp a b)
  pub lt_trans : (a b c : A) → cmp a b ≡ Ordering.lt → cmp b c ≡ Ordering.lt → cmp a c ≡ Ordering.lt

pub nat-IsTotal : IsTotal compare
nat-IsTotal = record {
  eq_of = λ a b h. ground arith;
  self = λ a. ground arith;
  flip = λ a b. ground arith;
  lt_trans = λ a b c h k. ground arith;
}

-- `Ordering::then` case by case.
pub then_cmp-lt :
    (o p : Ordering)
    → then_cmp o p ≡ Ordering.lt
    → (o ≡ Ordering.lt) ⊎ ((o ≡ Ordering.eq) × (p ≡ Ordering.lt))
then_cmp-lt Ordering.lt p h = inl refl
then_cmp-lt Ordering.eq p h = inr (refl, h)
then_cmp-lt Ordering.gt p h = cc

-- Comparing the first components and then the second ones.
module _ {ℓ κ} {A : Type ℓ} {B : Type κ} (c : A → A → Ordering) (d : B → B → Ordering) where
  abbrev pub pair_cmp : A × B → A × B → Ordering
  pair_cmp (a, b) (a', b') = then_cmp (c a a') (d b b')

  module _ (tc : IsTotal c) (td : IsTotal d) where
    pair_eq_of :
        (a a' : A) (b b' : B) → then_cmp (c a a') (d b b') ≡ Ordering.eq → (a ≡ a') × (b ≡ b')
    pair_eq_of a a' b b' h = ground (arith, tc.eq_of a a', td.eq_of b b')

    pair_lt_trans :
        (a a' a″ : A) (b b' b″ : B)
        → then_cmp (c a a') (d b b') ≡ Ordering.lt
        → then_cmp (c a' a″) (d b' b″) ≡ Ordering.lt
        → then_cmp (c a a″) (d b b″) ≡ Ordering.lt
    pair_lt_trans a a' a″ b b' b″ h k = elim (then_cmp-lt (c a a') (d b b') h) [
      | inl p ↦ elim (then_cmp-lt (c a' a″) (d b' b″) k) [
        | inl q ↦ rw (tc.lt_trans a a' a″ p q)
        | inr (q, _) ↦ rw (← tc.eq_of a' a″ q) (rw p)
      ]
      | inr (p, r) ↦ elim (then_cmp-lt (c a' a″) (d b' b″) k) [
        | inl q ↦ rw (tc.eq_of a a' p) (rw q)
        | inr (q, t) ↦ rw (tc.eq_of a a' p) (rw q (td.lt_trans b b' b″ r t))
      ]
    ]

    pub pair-IsTotal : IsTotal pair_cmp
    pair-IsTotal = record {
      eq_of = λ (a, b) (a', b') h. let e = pair_eq_of a a' b b' h in ap₂ (λ x y. (x, y)) e.0 e.1;
      self = λ (a, b). ground (arith, tc.self a, td.self b);
      flip = λ (a, b) (a', b'). ground (arith, tc.flip a a', td.flip b b');
      lt_trans = λ (a, b) (a', b') (a″, b″) h k. pair_lt_trans a a' a″ b b' b″ h k;
    }

-- Comparing by a key that determines the value.
module _ {ℓ κ} {A : Type ℓ} {K : Type κ} (key : A → K) (c : K → K → Ordering) where
  abbrev pub cmp_on : A → A → Ordering
  cmp_on a b = c (key a) (key b)

  pub cmp_on-IsTotal : ((a b : A) → key a ≡ key b → a ≡ b) → IsTotal c → IsTotal cmp_on
  cmp_on-IsTotal inj t = record {
    eq_of = λ a b h. inj a b (t.eq_of (key a) (key b) h);
    self = λ a. t.self (key a);
    flip = λ a b. t.flip (key a) (key b);
    lt_trans = λ x y z h k. t.lt_trans (key x) (key y) (key z) h k;
  }

-- Lexicographic order of lists.
module _ {ℓ} {A : Type ℓ} (c : A → A → Ordering) where
  abbrev pub list_cmp : List A → List A → Ordering
  list_cmp [] [] = Ordering.eq
  list_cmp [] (y ∷ ys) = Ordering.lt
  list_cmp (x ∷ xs) [] = Ordering.gt
  list_cmp (x ∷ xs) (y ∷ ys) = then_cmp (c x y) (list_cmp xs ys)

  module _ (t : IsTotal c) where
    list_eq_of : (xs ys : List A) → list_cmp xs ys ≡ Ordering.eq → xs ≡ ys
    list_eq_of [] [] h = refl
    list_eq_of [] (y ∷ ys) h = cc
    list_eq_of (x ∷ xs) [] h = cc
    list_eq_of (x ∷ xs) (y ∷ ys) h = ground (arith, t.eq_of x y, list_eq_of xs ys)

    list_self : (xs : List A) → list_cmp xs xs ≡ Ordering.eq
    list_self [] = refl
    list_self (x ∷ xs) = rw (t.self x) (list_self xs)

    list_flip : (xs ys : List A) → list_cmp ys xs ≡ reverse (list_cmp xs ys)
    list_flip [] [] = refl
    list_flip [] (y ∷ ys) = refl
    list_flip (x ∷ xs) [] = refl
    list_flip (x ∷ xs) (y ∷ ys) = ground (arith, t.flip x y, list_flip xs ys)

    list_lt_trans :
        (xs ys zs : List A)
        → list_cmp xs ys ≡ Ordering.lt
        → list_cmp ys zs ≡ Ordering.lt
        → list_cmp xs zs ≡ Ordering.lt
    list_lt_trans [] [] zs h k = cc
    list_lt_trans [] (y ∷ ys) [] h k = cc
    list_lt_trans [] (y ∷ ys) (z ∷ zs) h k = refl
    list_lt_trans (x ∷ xs) [] zs h k = cc
    list_lt_trans (x ∷ xs) (y ∷ ys) [] h k = cc
    list_lt_trans (x ∷ xs) (y ∷ ys) (z ∷ zs) h k = elim (then_cmp-lt (c x y) _ h) [
      | inl p ↦ elim (then_cmp-lt (c y z) _ k) [
        | inl q ↦ rw (t.lt_trans x y z p q)
        | inr (q, _) ↦ rw (← t.eq_of y z q) (rw p)
      ]
      | inr (p, r) ↦ elim (then_cmp-lt (c y z) _ k) [
        | inl q ↦ rw (t.eq_of x y p) (rw q)
        | inr (q, u) ↦ rw (t.eq_of x y p) (rw q (list_lt_trans xs ys zs r u))
      ]
    ]

    pub list-IsTotal : IsTotal list_cmp
    list-IsTotal = record {
      eq_of = list_eq_of;
      self = list_self;
      flip = list_flip;
      lt_trans = list_lt_trans;
    }
