-- ===== src/Graph/Db/Position.antt =====
-- src/graph/db.rs: what `find_node_by_position` finds.
use semnav.Base.{
  int_leb, int_eq, not, ◌&&◌, ◌||◌, str_eq, str_eq_iff, arith, ℕ, suc, ℤ, int_cmp, int_sub,
  int-IsTotal, ◌≡◌, refl, sym, ap, ◌∙◌, subst, Bool, true, false, Bool-cases, inl, inr, Option,
  none, some, List, [], ◌∷◌, All, All-map_of, map, retain, get_elem?, Str, Ordering, is_gt, IsTotal,
  pair_cmp, pair-IsTotal,
}
use semnav.Base.Any.{and_true, and_both}
use semnav.Base.Sort.{insert_by, sort_by, All-sort_by}
use semnav.Graph.Model.{Node}
use semnav.Graph.Db.State.{Db}
use semnav.Graph.Db.Nodes.{node_from_row, covers, span_cmp, first, find_node_by_position}

module _ {ℓ} {K : Type ℓ} (c : K → K → Ordering) (t : IsTotal c) where
  le_trans : (a b d : K) → is_gt (c a b) ≡ false → is_gt (c b d) ≡ false → is_gt (c a d) ≡ false
  le_trans a b d h k = le_by (c a b) (c b d) refl refl h k
    where
      le_by :
          (o p : Ordering)
          → c a b ≡ o
          → c b d ≡ p
          → is_gt o ≡ false
          → is_gt p ≡ false
          → is_gt (c a d) ≡ false
      le_by Ordering.lt Ordering.lt e f h k = rw (t.lt_trans a b d e f)
      le_by Ordering.lt Ordering.eq e f h k = rw (← t.eq_of b d f) (rw e)
      le_by Ordering.eq p e f h k = rw (t.eq_of a b e) (rw f k)
      le_by Ordering.gt p e f h k = cc
      le_by Ordering.lt Ordering.gt e f h k = cc

  gt_flip : (a b : K) → is_gt (c a b) ≡ true → is_gt (c b a) ≡ false
  gt_flip a b h = flip_by (c a b) refl h
    where
      flip_by : (o : Ordering) → c a b ≡ o → is_gt o ≡ true → is_gt (c b a) ≡ false
      flip_by Ordering.gt e h = rw (t.flip a b, e)
      flip_by Ordering.lt e h = cc
      flip_by Ordering.eq e h = cc

-- The size by which the nodes at a position are compared: lines, then columns.
abbrev pub extent : Node → ℤ × ℤ
extent n = (int_sub n.range.end_line n.range.start_line, int_sub n.range.end_col n.range.start_col)

extent-IsTotal : IsTotal (pair_cmp int_cmp int_cmp)
extent-IsTotal = pair-IsTotal int_cmp int_cmp int-IsTotal int-IsTotal

abbrev NotWider : Node → Node → Type 0
NotWider n y = is_gt (span_cmp n y) ≡ false

span_cmp-extent : (x y : Node) → span_cmp x y ≡ pair_cmp int_cmp int_cmp (extent x) (extent y)
unfolding span_cmp
span_cmp-extent x y = refl

NotWider-trans : (x y z : Node) → NotWider x y → NotWider y z → NotWider x z
NotWider-trans x y z h k =
    ap is_gt (span_cmp-extent x z)
    ∙ le_trans (pair_cmp int_cmp int_cmp) extent-IsTotal (extent x) (extent y) (extent z)
        (sym (ap is_gt (span_cmp-extent x y)) ∙ h) (sym (ap is_gt (span_cmp-extent y z)) ∙ k)

NotWider-flip : (x y : Node) → is_gt (span_cmp x y) ≡ true → NotWider y x
NotWider-flip x y h =
    ap is_gt (span_cmp-extent y x)
    ∙ gt_flip (pair_cmp int_cmp int_cmp) extent-IsTotal (extent x) (extent y)
        (sym (ap is_gt (span_cmp-extent x y)) ∙ h)

NotWider-self : (x : Node) → NotWider x x
NotWider-self x = ap is_gt (span_cmp-extent x x ∙ extent-IsTotal.self (extent x))

-- The head of a sorted list is not wider than what was sorted.
IsNarrowest : Option Node → List Node → Type 0
IsNarrowest none ys = ys ≡ []
IsNarrowest (some n) ys = All (NotWider n) ys

insert-IsNarrowest :
    (x : Node) (xs ys : List Node)
    → IsNarrowest (first ys) xs
    → IsNarrowest (first (insert_by span_cmp x ys)) (x ∷ xs)
unfolding insert_by IsNarrowest
insert-IsNarrowest x xs [] h = (NotWider-self x, rw h tt)
insert-IsNarrowest x xs (y ∷ ys) h = elim (Bool-cases (is_gt (span_cmp x y))) [
  | inl e ↦ rw e (NotWider-flip x y e, h)
  | inr e ↦ rw e (NotWider-self x, All-map_of (λ z k. NotWider-trans x y z e k) xs h)
]

sort-IsNarrowest : (xs : List Node) → IsNarrowest (first (sort_by span_cmp xs)) xs
unfolding sort_by IsNarrowest
sort-IsNarrowest [] = refl
sort-IsNarrowest (x ∷ xs) = insert-IsNarrowest x xs (sort_by span_cmp xs) (sort-IsNarrowest xs)

-- The element stands in the list.
abbrev pub IsIn : Node → List Node → Type 0
IsIn n xs = (i : ℕ) × (get_elem? xs i ≡ some n)

All-IsIn : (xs : List Node) → All (λ n. IsIn n xs) xs
All-IsIn [] = tt
All-IsIn (x ∷ xs) = ((0, refl), All-map_of (λ n (i, e). (suc i, e)) xs (All-IsIn xs))

All-first : (P : Node → Type 0) (xs : List Node) (n : Node) → All P xs → first xs ≡ some n → P n
All-first P [] n h e = cc
All-first P (x ∷ xs) n h e = let it : x ≡ n = cc in rw (← it) h.0

-- What a retained list says of the whole one.
retained-All :
    (P : Node → Type 0) (p : Node → Bool) (xs : List Node)
    → All P (retain p xs)
    → All (λ y. p y ≡ true → P y) xs
retained-All P p [] h = tt
retained-All P p (x ∷ xs) h = elim (Bool-cases (p x)) [
  | inl e ↦
      let kept : P x × All P (retain p xs) = rw e at h in (λ t. kept.0, retained-All P p xs kept.1)
  | inr e ↦ let kept : All P (retain p xs) = rw e at h in (λ t. cc, retained-All P p xs kept)
]

retain-passes :
    (p : Node → Bool) (xs : List Node) (Q : Node → Type 0)
    → All Q xs
    → All (λ y. (p y ≡ true) × Q y) (retain p xs)
retain-passes p [] Q h = tt
retain-passes p (x ∷ xs) Q h = elim (Bool-cases (p x)) [
  | inl e ↦ rw e ((e, h.0), retain-passes p xs Q h.1)
  | inr e ↦ rw e (retain-passes p xs Q h.1)
]

retain-none : (p : Node → Bool) (xs : List Node) → retain p xs ≡ [] → All (λ y. p y ≡ false) xs
retain-none p [] h = tt
retain-none p (x ∷ xs) h = elim (Bool-cases (p x)) [
  | inl e ↦ let kept : x ∷ retain p xs ≡ [] = rw e at h in cc
  | inr e ↦ let kept : retain p xs ≡ [] = rw e at h in (e, retain-none p xs kept)
]

-- Positions in the order of a text: lines first, then columns.
abbrev pub NotAfter : ℤ × ℤ → ℤ × ℤ → Type 0
NotAfter p q = is_gt (pair_cmp int_cmp int_cmp p q) ≡ false

-- The node is a valid one of the file, and the position is in its range, the ends included.
pub record Encloses (uri : Str) (line col : ℤ) (n : Node) : Type 0 where
  pub in_file : n.uri ≡ uri
  pub is_valid : n.valid ≡ true
  pub not_before : NotAfter (n.range.start_line, n.range.start_col) (line, col)
  pub not_behind : NotAfter (line, col) (n.range.end_line, n.range.end_col)

lex_from_tests :
    (a b c d : ℤ) → (not (int_leb c a) || int_eq a c && int_leb b d) ≡ true → NotAfter (a, b) (c, d)
lex_from_tests a b c d h = ground arith

tests_from_lex :
    (a b c d : ℤ) → NotAfter (a, b) (c, d) → (not (int_leb c a) || int_eq a c && int_leb b d) ≡ true
tests_from_lex a b c d h = ground arith

lex_to_tests :
    (a b c d : ℤ) → (not (int_leb c a) || int_eq c a && int_leb b d) ≡ true → NotAfter (a, b) (c, d)
lex_to_tests a b c d h = ground arith

tests_to_lex :
    (a b c d : ℤ) → NotAfter (a, b) (c, d) → (not (int_leb c a) || int_eq c a && int_leb b d) ≡ true
tests_to_lex a b c d h = ground arith

covers-Encloses :
    (uri : Str) (line col : ℤ) (n : Node) → covers uri line col n ≡ true → Encloses uri line col n
unfolding covers
covers-Encloses uri line col n h =
    let file = and_true (str_eq n.uri uri) _ h in
    let valid = and_true n.valid _ file.1 in
    let ends = and_true _ _ valid.1 in
    record {
      in_file = (str_eq_iff n.uri uri).0 file.0;
      is_valid = valid.0;
      not_before = lex_from_tests n.range.start_line n.range.start_col line col ends.0;
      not_behind = lex_to_tests line col n.range.end_line n.range.end_col ends.1;
    }

Encloses-covers :
    (uri : Str) (line col : ℤ) (n : Node) → Encloses uri line col n → covers uri line col n ≡ true
unfolding covers
Encloses-covers uri line col n e =
    and_both (str_eq n.uri uri) _ ((str_eq_iff n.uri uri).1 e.in_file) (
      and_both n.valid _ e.is_valid (
        and_both _ _ (tests_from_lex n.range.start_line n.range.start_col line col e.not_before)
          (tests_to_lex line col n.range.end_line n.range.end_col e.not_behind)))

abbrev pub Answer : Str → ℤ → ℤ → List Node → Option Node → Type 0
Answer uri line col stored none = All (λ y. ¬ Encloses uri line col y) stored
Answer uri line col stored (some n) =
    IsIn n stored
    × Encloses uri line col n
    × All (λ y. Encloses uri line col y → NotAfter (extent n) (extent y)) stored

-- The node that is found at a position is a stored and valid one of the file whose range has the
-- position in it, and no other such node takes up fewer lines, or as many lines with a smaller
-- distance of its columns; and if nothing is found, no stored node is such a node.
pub find_node_by_position_narrowest :
    (uri : Str) (line col : ℤ) (db : Db) (found : Option Node)
    → find_node_by_position uri line col db ≡ found
    → Answer uri line col (map node_from_row db.nodes) found
unfolding find_node_by_position IsNarrowest
find_node_by_position_narrowest uri line col db none h =
    let stored = map node_from_row db.nodes in
    let at_position = retain (covers uri line col) stored in
    All-map_of
      (λ y no yes.
        let e = Encloses-covers uri line col y yes in let bad : true ≡ false = sym e ∙ no in cc)
      stored
      (retain-none (covers uri line col) stored
        (subst (λ o. IsNarrowest o at_position) h (sort-IsNarrowest at_position)))
find_node_by_position_narrowest uri line col db (some n) h =
    let stored = map node_from_row db.nodes in
    let at_position = retain (covers uri line col) stored in
    let passes =
      All-sort_by span_cmp (λ y. (covers uri line col y ≡ true) × IsIn y stored) at_position
        (retain-passes (covers uri line col) stored (λ y. IsIn y stored) (All-IsIn stored)) in
    let at =
      All-first (λ y. (covers uri line col y ≡ true) × IsIn y stored) (sort_by span_cmp at_position)
        n passes h in
    let narrow =
      retained-All (NotWider n) (covers uri line col) stored
        (subst (λ o. IsNarrowest o at_position) h (sort-IsNarrowest at_position)) in
    (
      at.1,
      covers-Encloses uri line col n at.0,
      All-map_of
          (λ y k e. sym (ap is_gt (span_cmp-extent n y)) ∙ k (Encloses-covers uri line col y e))
          stored narrow,
    )
