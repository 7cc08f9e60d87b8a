-- ===== src/Graph/Db/Reconcile/Exact.antt =====
-- src/graph/db.rs: which old node a symbol keeps. A node of its own name comes first; any other one
-- is a rename candidate.
use semnav.Base.{
  ℕ, zero, suc, ◌<◌, ◌≡◌, ◌≢◌, refl, sym, ap, ◌∙◌, Bool, true, false, Bool-cases, inl, inr, Option,
  none, some, List, [], ◌∷◌, ◌||◌, arith, length, get_elem?, get_elem?-set_ne, replicate, Str,
  str_eq_iff, Option-cases, get_elem?-lt,
}
use semnav.Base.Sort.{sort_by}
use semnav.Graph.Model.{Node, ReconcileSymbol}
use semnav.Graph.Db.Reconcile.Matching.{
  RenameCandidate, BodyFingerprinted, exact_match, mark_used, exact_matches, candidates, cand_cmp,
  is_used, is_assigned, claim, claim_all,
}
use semnav.Graph.Db.Reconcile.Counts.{is_assigned-false, or-false}
use semnav.Graph.Db.Reconcile.{assign}

-- The node that `exact_match` finds has the name.
pub exact_match-fqn :
    (fqn : Str) (olds : List Node) (used : List Bool) (j : ℕ) (n : Node)
    → exact_match fqn olds used ≡ some j
    → get_elem? olds j ≡ some n
    → n.fqn ≡ fqn
unfolding exact_match
exact_match-fqn fqn [] used j n h at = cc
exact_match-fqn fqn (x ∷ xs) [] j n h at = cc
exact_match-fqn fqn (x ∷ xs) (u ∷ us) zero n h at = ground (arith, str_eq_iff x.fqn fqn)
exact_match-fqn fqn (x ∷ xs) (u ∷ us) (suc j) n h at =
    exact_match-fqn fqn xs us j n (ground arith) at

exact_match-finds :
    (fqn : Str) (olds : List Node) (used : List Bool) (j : ℕ) (n : Node)
    → get_elem? olds j ≡ some n
    → n.fqn ≡ fqn
    → get_elem? used j ≡ some false
    → ((k : ℕ) (x : Node) → get_elem? olds k ≡ some x → x.fqn ≡ fqn → k ≡ j)
    → exact_match fqn olds used ≡ some j
unfolding exact_match
exact_match-finds fqn [] used j n at e free only = cc
exact_match-finds fqn (x ∷ xs) [] j n at e free only = cc
exact_match-finds fqn (x ∷ xs) (u ∷ us) zero n at e free only = ground (arith, str_eq_iff x.fqn fqn)
exact_match-finds fqn (x ∷ xs) (u ∷ us) (suc j) n at e free only =
    let other : x.fqn ≢ fqn = λ d. cc (only zero x refl d) in
    let rest : exact_match fqn xs us ≡ some j =
      exact_match-finds fqn xs us j n at e free (λ k y a d. cc (only (suc k) y a d)) in
    ground (arith, str_eq_iff x.fqn fqn)

module _ (olds : List Node) (j : ℕ) (n : Node) (fqn : Str) where
  module _ (at : get_elem? olds j ≡ some n) (named : n.fqn ≡ fqn)
      (only : (k : ℕ) (x : Node) → get_elem? olds k ≡ some x → x.fqn ≡ fqn → k ≡ j) where
    still_free :
        (s : ReconcileSymbol) (used : List Bool)
        → s.fqn ≢ fqn
        → get_elem? used j ≡ some false
        → get_elem? (mark_used (exact_match s.fqn olds used) used) j ≡ some false
    still_free s used ne free = elim (Option-cases (exact_match s.fqn olds used)) [
      | inl e ↦ rw e free
      | inr (k, e) ↦
          let apart : k ≢ j =
            λ d. ne (sym (exact_match-fqn s.fqn olds used k n e (rw d at)) ∙ named) in
          rw e (get_elem?-set_ne used true apart ∙ free)
    ]

    exact_matches-finds :
        (ss : List ReconcileSymbol) (used : List Bool) (i : ℕ) (s : ReconcileSymbol)
        → get_elem? ss i ≡ some s
        → s.fqn ≡ fqn
        → ((k : ℕ) (t : ReconcileSymbol) → get_elem? ss k ≡ some t → t.fqn ≡ fqn → k ≡ i)
        → get_elem? used j ≡ some false
        → get_elem? (exact_matches olds ss used).0 i ≡ some (some j)
    unfolding exact_matches
    exact_matches-finds [] used i s has e alone free = cc
    exact_matches-finds (t ∷ ss) used zero s has e alone free =
        let it : t ≡ s = cc has in
        let same : t.fqn ≡ fqn = ap (λ (r : ReconcileSymbol). r.fqn) it ∙ e in
        rw same (ap some (exact_match-finds fqn olds used j n at named free only))
    exact_matches-finds (t ∷ ss) used (suc i) s has e alone free =
        exact_matches-finds ss (mark_used (exact_match t.fqn olds used) used) i s has e
          (λ k r a d. cc (alone (suc k) r a d))
          (still_free t used (λ d. cc (alone zero t refl d)) free)

-- Pass 2 leaves every assignment of pass 1.
claim-keeps :
    (c : RenameCandidate) (assigned : List (Option ℕ)) (used : List Bool) (i j : ℕ)
    → get_elem? assigned i ≡ some (some j)
    → get_elem? (claim c (assigned, used)).0 i ≡ some (some j)
unfolding claim
claim-keeps c assigned used i j h =
    elim (Bool-cases (is_used used c.old_idx || is_assigned assigned c.sym_idx)) [
      | inl e ↦ rw e h
      | inr e ↦
          let open' : get_elem? assigned c.sym_idx ≡ some none =
            is_assigned-false assigned c.sym_idx
              (or-false (is_used used c.old_idx) (is_assigned assigned c.sym_idx) e).1 in
          let apart : c.sym_idx ≢ i =
            λ d. let taken : get_elem? assigned i ≡ some none = rw d at open' in cc in
          rw e (get_elem?-set_ne assigned (some c.old_idx) apart ∙ h)
    ]

claim_all-keeps :
    (cs : List RenameCandidate) (assigned : List (Option ℕ)) (used : List Bool) (i j : ℕ)
    → get_elem? assigned i ≡ some (some j)
    → get_elem? (claim_all cs (assigned, used)).0 i ≡ some (some j)
unfolding claim_all
claim_all-keeps [] assigned used i j h = h
claim_all-keeps (c ∷ cs) assigned used i j h =
    let r = claim c (assigned, used) in
    claim_all-keeps cs r.0 r.1 i j (claim-keeps c assigned used i j h)

get_elem?-replicate : (n j : ℕ) → j < n → get_elem? (replicate n false) j ≡ some false
get_elem?-replicate zero j h = elim h [ ]
get_elem?-replicate (suc n) zero h = refl
get_elem?-replicate (suc n) (suc j) h = get_elem?-replicate n j (omega arith)

-- A symbol keeps the old node of its own full name, if there is one, where the names of the old
-- nodes are distinct and no other symbol of the batch has that name.
pub assign-exact :
    (hash : BodyFingerprinted → ℕ) (olds : List Node) (symbols : List ReconcileSymbol) (i j : ℕ)
    (s : ReconcileSymbol) (n : Node)
    → get_elem? symbols i ≡ some s
    → get_elem? olds j ≡ some n
    → n.fqn ≡ s.fqn
    → ((k : ℕ) (x : Node) → get_elem? olds k ≡ some x → x.fqn ≡ s.fqn → k ≡ j)
    → ((k : ℕ) (t : ReconcileSymbol) → get_elem? symbols k ≡ some t → t.fqn ≡ s.fqn → k ≡ i)
    → get_elem? (assign hash olds symbols).0 i ≡ some (some j)
unfolding assign
assign-exact hash olds symbols i j s n has at named only alone =
    let none_used = replicate (length olds) false in
    let e = exact_matches olds symbols none_used in
    claim_all-keeps (sort_by cand_cmp (candidates hash olds e.1 symbols e.0 0)) e.0 e.1 i j (
      exact_matches-finds olds j n s.fqn at named only symbols none_used i s has refl alone
        (get_elem?-replicate (length olds) j (get_elem?-lt olds j at)))
