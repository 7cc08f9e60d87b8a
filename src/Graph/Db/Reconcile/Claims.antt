-- ===== src/Graph/Db/Reconcile/Claims.antt =====
-- src/graph/db.rs: in the assignment of passes 1 and 2 no two symbols keep the same old node.
use semnav.Base.{
  ℕ, zero, suc, ◌≡◌, ◌≢◌, refl, sym, ap, ◌∙◌, Bool, true, false, Bool-cases, inl, inr, Option, none,
  some, List, [], ◌∷◌, ◌||◌, length, get_elem?, set, get_elem?-set, get_elem?-set_at, replicate,
}
use semnav.Base.Sort.{sort_by}
use semnav.Graph.Model.{Node, ReconcileSymbol}
use semnav.Graph.Db.Reconcile.Matching.{
  RenameCandidate, BodyFingerprinted, exact_match, mark_used, exact_matches, candidates, cand_cmp,
  is_used, is_assigned, claim, claim_all,
}
use semnav.Graph.Db.Reconcile.Counts.{
  exact_match-unused, is_used-false, is_assigned-false, or-false,
}
use semnav.Graph.Db.Reconcile.{assign}

-- A kept node is marked, and two symbols that keep one node are one symbol.
pub record Claims (assigned : List (Option ℕ)) (used : List Bool) : Type 0 where
  pub marked : (i j : ℕ) → get_elem? assigned i ≡ some (some j) → get_elem? used j ≡ some true
  pub injective :
      (i k j : ℕ)
      → get_elem? assigned i ≡ some (some j)
      → get_elem? assigned k ≡ some (some j)
      → i ≡ k

mark_used_mono :
    (m : Option ℕ) (used : List Bool) (j : ℕ)
    → get_elem? used j ≡ some true
    → get_elem? (mark_used m used) j ≡ some true
mark_used_mono none used j h = h
mark_used_mono (some k) [] j h = h
mark_used_mono (some zero) (u ∷ us) zero h = refl
mark_used_mono (some zero) (u ∷ us) (suc j) h = h
mark_used_mono (some (suc k)) (u ∷ us) zero h = h
mark_used_mono (some (suc k)) (u ∷ us) (suc j) h = mark_used_mono (some k) us j h

mark_used-anti :
    (m : Option ℕ) (used : List Bool) (j : ℕ)
    → get_elem? (mark_used m used) j ≡ some false
    → (get_elem? used j ≡ some false) × (m ≢ some j)
mark_used-anti none used j h = (h, λ e. cc)
mark_used-anti (some k) used j h = elim (get_elem?-set used k true j h) [
  | inl (e, q) ↦ absurd (cc q)
  | inr (e, q) ↦ (q, λ d. e (cc d))
]

-- What pass 1 gives, beside `Claims`: it takes unmarked nodes, and marks stay.
record Pass1 (used : List Bool) (assigned : List (Option ℕ)) (used' : List Bool) : Type 0 where
  fresh : (i j : ℕ) → get_elem? assigned i ≡ some (some j) → get_elem? used j ≡ some false
  mono : (j : ℕ) → get_elem? used j ≡ some true → get_elem? used' j ≡ some true
  claims : Claims assigned used'

module _ (m : Option ℕ) (used : List Bool) (as' : List (Option ℕ)) (u' : List Bool) where
  module _ (unused : (j : ℕ) → m ≡ some j → get_elem? used j ≡ some false)
      (p : Pass1 (mark_used m used) as' u') where
    cons-fresh : (i j : ℕ) → get_elem? (m ∷ as') i ≡ some (some j) → get_elem? used j ≡ some false
    cons-fresh zero j h = unused j (cc h)
    cons-fresh (suc i) j h = (mark_used-anti m used j (p.fresh i j h)).0

    cons-mark : (j : ℕ) → m ≡ some j → get_elem? (mark_used m used) j ≡ some true
    cons-mark j e = rw e (get_elem?-set_at used j true false (unused j e))

    cons-marked : (i j : ℕ) → get_elem? (m ∷ as') i ≡ some (some j) → get_elem? u' j ≡ some true
    cons-marked zero j h = p.mono j (cons-mark j (cc h))
    cons-marked (suc i) j h = p.claims.marked i j h

    cons-injective :
        (i k j : ℕ)
        → get_elem? (m ∷ as') i ≡ some (some j)
        → get_elem? (m ∷ as') k ≡ some (some j)
        → i ≡ k
    cons-injective zero zero j h l = refl
    cons-injective zero (suc k) j h l = absurd ((mark_used-anti m used j (p.fresh k j l)).1 (cc h))
    cons-injective (suc i) zero j h l = absurd ((mark_used-anti m used j (p.fresh i j h)).1 (cc l))
    cons-injective (suc i) (suc k) j h l = ap suc (p.claims.injective i k j h l)

    cons-Pass1 : Pass1 used (m ∷ as') u'
    cons-Pass1 = record {
      fresh = cons-fresh;
      mono = λ j h. p.mono j (mark_used_mono m used j h);
      claims = record { marked = cons-marked; injective = cons-injective };
    }

exact_matches-Pass1 :
    (olds : List Node) (ss : List ReconcileSymbol) (used : List Bool)
    → Pass1 used (exact_matches olds ss used).0 (exact_matches olds ss used).1
unfolding exact_matches
exact_matches-Pass1 olds [] used = record {
  fresh = λ i j h. cc h;
  mono = λ j h. h;
  claims = record { marked = λ i j h. cc h; injective = λ i k j h l. cc h };
}
exact_matches-Pass1 olds (s ∷ ss) used =
    let m = exact_match s.fqn olds used in
    let r = exact_matches olds ss (mark_used m used) in
    cons-Pass1 m used r.0 r.1 (exact_match-unused s.fqn olds used)
      (exact_matches-Pass1 olds ss (mark_used m used))

module _ (assigned : List (Option ℕ)) (used : List Bool) (i₀ j₀ : ℕ) where
  module _ (free : get_elem? used j₀ ≡ some false) (open' : get_elem? assigned i₀ ≡ some none)
      (c : Claims assigned used) where
    set-marked :
        (i j : ℕ)
        → get_elem? (set assigned i₀ (some j₀)) i ≡ some (some j)
        → get_elem? (set used j₀ true) j ≡ some true
    set-marked i j h = elim (get_elem?-set assigned i₀ (some j₀) i h) [
      | inl (_, q) ↦ let e : j ≡ j₀ = cc q in rw e (get_elem?-set_at used j₀ true false free)
      | inr (_, q) ↦ mark_used_mono (some j₀) used j (c.marked i j q)
    ]

    not_taken : (i : ℕ) → get_elem? assigned i ≡ some (some j₀) → ⊥
    not_taken i q = cc (c.marked i j₀ q)

    set-injective :
        (i k j : ℕ)
        → get_elem? (set assigned i₀ (some j₀)) i ≡ some (some j)
        → get_elem? (set assigned i₀ (some j₀)) k ≡ some (some j)
        → i ≡ k
    set-injective i k j h l = elim (get_elem?-set assigned i₀ (some j₀) i h) [
      | inl (e, q) ↦ elim (get_elem?-set assigned i₀ (some j₀) k l) [
        | inl (e', _) ↦ e ∙ sym e'
        | inr (_, q') ↦ absurd (not_taken k (cc (q, q')))
      ]
      | inr (_, q) ↦ elim (get_elem?-set assigned i₀ (some j₀) k l) [
        | inl (_, q') ↦ absurd (not_taken i (cc (q, q')))
        | inr (_, q') ↦ c.injective i k j q q'
      ]
    ]

    set-Claims : Claims (set assigned i₀ (some j₀)) (set used j₀ true)
    set-Claims = record { marked = set-marked; injective = set-injective }

claim-Claims :
    (c : RenameCandidate) (assigned : List (Option ℕ)) (used : List Bool)
    → Claims assigned used
    → Claims (claim c (assigned, used)).0 (claim c (assigned, used)).1
unfolding claim
claim-Claims c assigned used h =
    elim (Bool-cases (is_used used c.old_idx || is_assigned assigned c.sym_idx)) [
      | inl e ↦ rw e h
      | inr e ↦
          let free = or-false _ _ e in
          rw e (
            set-Claims assigned used c.sym_idx c.old_idx (is_used-false used c.old_idx free.0)
              (is_assigned-false assigned c.sym_idx free.1) h)
    ]

claim_all-Claims :
    (cs : List RenameCandidate) (assigned : List (Option ℕ)) (used : List Bool)
    → Claims assigned used
    → Claims (claim_all cs (assigned, used)).0 (claim_all cs (assigned, used)).1
unfolding claim_all
claim_all-Claims [] assigned used h = h
claim_all-Claims (c ∷ cs) assigned used h =
    let r = claim c (assigned, used) in claim_all-Claims cs r.0 r.1 (claim-Claims c assigned used h)

-- In the assignment of passes 1 and 2 every old node that a symbol keeps is marked as used, and no
-- two symbols keep the same old node.
pub assign-Claims :
    (hash : BodyFingerprinted → ℕ) (olds : List Node) (symbols : List ReconcileSymbol)
    → Claims (assign hash olds symbols).0 (assign hash olds symbols).1
unfolding assign
assign-Claims hash olds symbols =
    let e = exact_matches olds symbols (replicate (length olds) false) in
    let p = exact_matches-Pass1 olds symbols (replicate (length olds) false) in
    claim_all-Claims (sort_by cand_cmp (candidates hash olds e.1 symbols e.0 0)) e.0 e.1 p.claims
