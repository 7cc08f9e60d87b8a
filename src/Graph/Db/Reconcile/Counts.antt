-- ===== src/Graph/Db/Reconcile/Counts.antt =====
-- src/graph/db.rs: passes 1 and 2 mark one old node for each symbol that they assign.
use semnav.Base.{
  ℕ, zero, suc, ◌+◌, ◌≡◌, refl, ap, ◌∙◌, Bool, true, false, Bool-cases, inl, inr, Option, none,
  some, List, [], ◌∷◌, Str, ◌||◌, arith, length, length-set, get_elem?, set, replicate,
}
use semnav.Base.Sort.{sort_by}
use semnav.Graph.Model.{Node, ReconcileSymbol}
use semnav.Graph.Db.Reconcile.Matching.{
  RenameCandidate, BodyFingerprinted, exact_match, mark_used, exact_matches, candidates, cand_cmp,
  is_used, is_assigned, claim, claim_all,
}
use semnav.Graph.Db.Reconcile.{assign}

abbrev pub count_true : List Bool → ℕ
count_true [] = 0
count_true (true ∷ bs) = suc (count_true bs)
count_true (false ∷ bs) = count_true bs

abbrev pub count_some : List (Option ℕ) → ℕ
count_some [] = 0
count_some (none ∷ as') = count_some as'
count_some (some j ∷ as') = suc (count_some as')

pub count_some-cons :
    (a : Option ℕ) (as' : List (Option ℕ))
    → count_some (a ∷ as') ≡ count_some (a ∷ []) + count_some as'
count_some-cons none as' = omega arith
count_some-cons (some j) as' = omega arith

abbrev pub count_false : List Bool → ℕ
count_false [] = 0
count_false (true ∷ bs) = count_false bs
count_false (false ∷ bs) = suc (count_false bs)

pub count_true_false : (bs : List Bool) → count_true bs + count_false bs ≡ length bs
count_true_false [] = omega arith
count_true_false (true ∷ bs) = omega (arith, count_true_false bs)
count_true_false (false ∷ bs) = omega (arith, count_true_false bs)

count_true-set :
    (bs : List Bool) (j : ℕ)
    → get_elem? bs j ≡ some false
    → count_true (set bs j true) ≡ suc (count_true bs)
count_true-set [] j h = cc
count_true-set (true ∷ bs) zero h = cc
count_true-set (false ∷ bs) zero h = refl
count_true-set (true ∷ bs) (suc j) h = ap suc (count_true-set bs j h)
count_true-set (false ∷ bs) (suc j) h = count_true-set bs j h

count_some-set :
    (as' : List (Option ℕ)) (i j : ℕ)
    → get_elem? as' i ≡ some none
    → count_some (set as' i (some j)) ≡ suc (count_some as')
count_some-set [] i j h = cc
count_some-set (none ∷ as') zero j h = refl
count_some-set (some k ∷ as') zero j h = cc
count_some-set (none ∷ as') (suc i) j h = count_some-set as' i j h
count_some-set (some k ∷ as') (suc i) j h = ap suc (count_some-set as' i j h)

pub exact_match-unused :
    (fqn : Str) (olds : List Node) (used : List Bool) (j : ℕ)
    → exact_match fqn olds used ≡ some j
    → get_elem? used j ≡ some false
unfolding exact_match
exact_match-unused fqn [] used j h = cc
exact_match-unused fqn (n ∷ ns) [] j h = cc
exact_match-unused fqn (n ∷ ns) (true ∷ us) zero h = ground (arith, exact_match-unused fqn ns us)
exact_match-unused fqn (n ∷ ns) (false ∷ us) zero h = refl
exact_match-unused fqn (n ∷ ns) (true ∷ us) (suc j) h =
    ground (arith, exact_match-unused fqn ns us j)
exact_match-unused fqn (n ∷ ns) (false ∷ us) (suc j) h =
    ground (arith, exact_match-unused fqn ns us j)

length-mark_used : (m : Option ℕ) (used : List Bool) → length (mark_used m used) ≡ length used
length-mark_used none used = refl
length-mark_used (some j) used = length-set used j true

mark_used-count :
    (m : Option ℕ) (rest : List (Option ℕ)) (used : List Bool)
    → ((j : ℕ) → m ≡ some j → get_elem? used j ≡ some false)
    → count_true (mark_used m used) + count_some rest ≡ count_true used + count_some (m ∷ rest)
mark_used-count none rest used h = refl
mark_used-count (some j) rest used h = omega (arith, count_true-set used j (h j refl))

-- Pass 1 marks one old node for each symbol that it assigns.
exact_matches-count :
    (olds : List Node) (ss : List ReconcileSymbol) (used : List Bool)
    → let r = exact_matches olds ss used in
      (length r.0 ≡ length ss)
      × (length r.1 ≡ length used)
      × (count_true r.1 ≡ count_true used + count_some r.0)
unfolding exact_matches
exact_matches-count olds [] used = (refl, refl, omega arith)
exact_matches-count olds (s ∷ ss) used =
    let m = exact_match s.fqn olds used in
    let ih = exact_matches-count olds ss (mark_used m used) in
    let marked =
      mark_used-count m (exact_matches olds ss (mark_used m used)).0 used
        (exact_match-unused s.fqn olds used) in
    (ap suc ih.0, ih.1 ∙ length-mark_used m used, ih.2 ∙ marked)

pub is_used-false :
    (used : List Bool) (j : ℕ) → is_used used j ≡ false → get_elem? used j ≡ some false
is_used-false used j h = ground arith

pub is_assigned-false :
    (as' : List (Option ℕ)) (i : ℕ) → is_assigned as' i ≡ false → get_elem? as' i ≡ some none
is_assigned-false as' i h = ground arith

pub or-false : (a b : Bool) → (a || b) ≡ false → (a ≡ false) × (b ≡ false)
or-false a b h = ground arith

-- Pass 2 marks one more old node for each symbol that it assigns.
claim-count :
    (c : RenameCandidate) (assigned : List (Option ℕ)) (used : List Bool)
    → let r = claim c (assigned, used) in
      (length r.0 ≡ length assigned)
      × (length r.1 ≡ length used)
      × (count_true r.1 + count_some assigned ≡ count_true used + count_some r.0)
unfolding claim
claim-count c assigned used =
    elim (Bool-cases (is_used used c.old_idx || is_assigned assigned c.sym_idx)) [
      | inl e ↦ rw e (refl, refl, refl)
      | inr e ↦
          let free = or-false _ _ e in
          let u = count_true-set used c.old_idx (is_used-false used c.old_idx free.0) in
          let a =
            count_some-set assigned c.sym_idx c.old_idx
              (is_assigned-false assigned c.sym_idx free.1) in
          rw e (length-set assigned c.sym_idx _, length-set used c.old_idx true, omega arith)
    ]

claim_all-count :
    (cs : List RenameCandidate) (assigned : List (Option ℕ)) (used : List Bool)
    → let r = claim_all cs (assigned, used) in
      (length r.0 ≡ length assigned)
      × (length r.1 ≡ length used)
      × (count_true r.1 + count_some assigned ≡ count_true used + count_some r.0)
unfolding claim_all
claim_all-count [] assigned used = (refl, refl, refl)
claim_all-count (c ∷ cs) assigned used =
    let r = claim c (assigned, used) in
    let h = claim-count c assigned used in
    let ih = claim_all-count cs r.0 r.1 in (ih.0 ∙ h.0, ih.1 ∙ h.1, omega arith)

count_true-replicate : (n : ℕ) → count_true (replicate n false) ≡ 0
count_true-replicate zero = refl
count_true-replicate (suc n) = count_true-replicate n

length-replicate : (n : ℕ) → length (replicate n false) ≡ n
length-replicate zero = refl
length-replicate (suc n) = ap suc (length-replicate n)

-- After both passes as many old nodes are marked as symbols have one.
pub assign-count :
    (hash : BodyFingerprinted → ℕ) (olds : List Node) (ss : List ReconcileSymbol)
    → let r = assign hash olds ss in
      (length r.0 ≡ length ss) × (length r.1 ≡ length olds) × (count_true r.1 ≡ count_some r.0)
unfolding assign
assign-count hash olds ss =
    let none_used = replicate (length olds) false in
    let e = exact_matches olds ss none_used in
    let h = exact_matches-count olds ss none_used in
    let cs = sort_by cand_cmp (candidates hash olds e.1 ss e.0 0) in
    let k = claim_all-count cs e.0 e.1 in
    (
      k.0 ∙ h.0,
      k.1 ∙ h.1 ∙ length-replicate (length olds),
      omega (arith, count_true-replicate (length olds)),
    )
