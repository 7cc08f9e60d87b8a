-- ===== src/Graph/Db/Reconcile/Renames.antt =====
-- src/graph/db.rs: a symbol that keeps a node of another name is a rename within the bounds of
-- pass 2.
use mathlib.Core.Option
use semnav.Base.{
  ◌≢◌, ◌++◌, ◌≤◌, abs_diff, ap, subst, none, Str, ◌==◌, ==_iff, str_eq, str_eq_iff, int_eq,
  int_eq_holds, rsplit_once, unwrap_or, ℕ, zero, suc, ◌+◌, ◌≡◌, refl, ◌⊎◌, Bool, true, false,
  Bool-cases, inl, inr, Option, some, List, [], ◌∷◌, ◌||◌, ◌&&◌, not, arith, length, get_elem?,
  get_elem?-set, replicate, All, All-append, All-map_of, is_some,
}
use semnav.Base.Any.{and_true}
use semnav.Base.Sort.{sort_by, All-sort_by}
use semnav.Indexer.Symbol.{dot}
use semnav.Graph.Model.{Node, ReconcileSymbol}
use semnav.Graph.Db.Reconcile.Matching.{
  RenameCandidate, BodyFingerprinted, exact_match, mark_used, exact_matches, may_rename,
  container_prefix, candidates_for, candidates, cand_cmp, is_used, is_assigned, claim, claim_all,
}
use semnav.Graph.Db.Reconcile.Exact.{exact_match-fqn}
use semnav.Graph.Db.Reconcile.{assign}

-- No byte of the text is a dot.
abbrev pub Undotted : Str → Type 0
Undotted = All (λ c. c ≢ dot)

-- The container in a full name: what stands before the last dot, or nothing if there is no dot.
abbrev pub IsContainer : Str → Str → Type 0
IsContainer c fqn =
    ((name : Str) × (fqn ≡ c ++ dot ∷ name) × Undotted name) ⊎ ((c ≡ []) × Undotted fqn)

-- The same kind, the same container, and start lines that are at most three apart.
pub record IsRename (n : Node) (s : ReconcileSymbol) : Type 0 where
  pub same_kind : n.kind ≡ s.kind
  pub same_container : (c : Str) × IsContainer c n.fqn × IsContainer c s.fqn
  pub near : abs_diff n.range.start_line s.range.start_line ≤ 3

-- Why symbol `s` may keep node `n`.
abbrev pub MayKeep : Node → ReconcileSymbol → Type 0
MayKeep n s = (n.fqn ≡ s.fqn) ⊎ IsRename n s

-- What `rsplit_once` gives at a dot.
abbrev SplitAt : Str → Option (Str × Str) → Type 0
SplitAt s none = Undotted s
SplitAt s (some (before, after)) = (s ≡ before ++ dot ∷ after) × Undotted after

rsplit_once-SplitAt : (s : Str) → SplitAt s (rsplit_once dot s)
unfolding rsplit_once
rsplit_once-SplitAt [] = tt
rsplit_once-SplitAt (c ∷ cs) = at_dot (rsplit_once dot cs) refl (rsplit_once-SplitAt cs)
  where
    at_dot :
        (r : Option (Str × Str))
        → rsplit_once dot cs ≡ r
        → SplitAt cs r
        → SplitAt (c ∷ cs) (rsplit_once dot (c ∷ cs))
    at_dot (some (before, after)) e h = rw e (ap (λ t. c ∷ t) h.0, h.1)
    at_dot none e h = elim (Bool-cases (c == dot)) [
      | inl t ↦ rw (e, t) (ap (λ d. d ∷ cs) ((==_iff c dot).0 t), h)
      | inr t ↦ rw (e, t) ((λ d. let same = (==_iff c dot).1 d in cc), h)
    ]

container_prefix-IsContainer : (fqn : Str) → IsContainer (container_prefix fqn) fqn
unfolding container_prefix
container_prefix-IsContainer fqn = prefix (rsplit_once dot fqn) (rsplit_once-SplitAt fqn)
  where
    prefix :
        (r : Option (Str × Str))
        → SplitAt fqn r
        → IsContainer (unwrap_or (Option.map (λ p. p.0) r) []) fqn
    prefix none h = inr (refl, h)
    prefix (some (before, after)) h = inl (after, h.0, h.1)

may_rename-IsRename : (n : Node) (s : ReconcileSymbol) → may_rename n s ≡ true → IsRename n s
unfolding may_rename
may_rename-IsRename n s h =
    let kinds = and_true (int_eq n.kind s.kind) _ h in
    let rest = and_true (str_eq (container_prefix n.fqn) (container_prefix s.fqn)) _ kinds.1 in
    let same = (str_eq_iff (container_prefix n.fqn) (container_prefix s.fqn)).0 rest.0 in
    record {
      same_kind = int_eq_holds n.kind s.kind kinds.0;
      same_container = (
        container_prefix s.fqn,
        subst (λ c. IsContainer c n.fqn) same (container_prefix-IsContainer n.fqn),
        container_prefix-IsContainer s.fqn,
      );
      near = ground arith;
    }

module _ (olds : List Node) (symbols : List ReconcileSymbol) where
  -- Every kept node has a reason.
  abbrev Justified : List (Option ℕ) → Type 0
  Justified assigned =
      (i j : ℕ) (s : ReconcileSymbol) (n : Node)
      → get_elem? symbols i ≡ some s
      → get_elem? olds j ≡ some n
      → get_elem? assigned i ≡ some (some j)
      → MayKeep n s

  abbrev GoodCandidate : RenameCandidate → Type 0
  GoodCandidate c =
      (s : ReconcileSymbol) (n : Node)
      → get_elem? symbols c.sym_idx ≡ some s
      → get_elem? olds c.old_idx ≡ some n
      → may_rename n s ≡ true

  claim-Justified :
      (c : RenameCandidate) (assigned : List (Option ℕ)) (used : List Bool)
      → GoodCandidate c
      → Justified assigned
      → Justified (claim c (assigned, used)).0
  unfolding claim
  claim-Justified c assigned used g h i j s n has at kept =
      elim (Bool-cases (is_used used c.old_idx || is_assigned assigned c.sym_idx)) [
        | inl e ↦ h i j s n has at (rw e at kept)
        | inr e ↦ elim (get_elem?-set assigned c.sym_idx (some c.old_idx) i (rw e at kept)) [
          | inl (d, q) ↦
              let it : j ≡ c.old_idx = cc q in
              inr (may_rename-IsRename n s (g s n (rw (← d) has) (rw (← it) at)))
          | inr (_, q) ↦ h i j s n has at q
        ]
      ]

  claim_all-Justified :
      (cs : List RenameCandidate) (assigned : List (Option ℕ)) (used : List Bool)
      → All GoodCandidate cs
      → Justified assigned
      → Justified (claim_all cs (assigned, used)).0
  unfolding claim_all
  claim_all-Justified [] assigned used g h = h
  claim_all-Justified (c ∷ cs) assigned used g h =
      let r = claim c (assigned, used) in
      claim_all-Justified cs r.0 r.1 g.1 (claim-Justified c assigned used g.0 h)

-- The reasons of pass 1.
exact_matches-Justified :
    (olds : List Node) (ss : List ReconcileSymbol) (used : List Bool)
    → Justified olds ss (exact_matches olds ss used).0
unfolding exact_matches
exact_matches-Justified olds [] used i j s n has at kept = cc
exact_matches-Justified olds (t ∷ ss) used zero j s n has at kept =
    let it : t ≡ s = cc has in
    let found : exact_match t.fqn olds used ≡ some j = cc kept in
    inl (exact_match-fqn s.fqn olds used j n (rw it at found) at)
exact_matches-Justified olds (t ∷ ss) used (suc i) j s n has at kept =
    exact_matches-Justified olds ss (mark_used (exact_match t.fqn olds used) used) i j s n has at
      kept

-- Symbol `s` may keep the node at each position that a list of candidates for it names; positions
-- are counted from `b`.
abbrev CandidateOf : List Node → ReconcileSymbol → ℕ → ℕ → RenameCandidate → Type 0
CandidateOf olds s i b c =
    (c.sym_idx ≡ i)
    × ((k : ℕ) × (c.old_idx ≡ b + k)
        × ((n : Node) → get_elem? olds k ≡ some n → may_rename n s ≡ true))

CandidateOf-suc :
    (x : Node) (olds : List Node) (s : ReconcileSymbol) (i b : ℕ) (c : RenameCandidate)
    → CandidateOf olds s i (suc b) c
    → CandidateOf (x ∷ olds) s i b c
CandidateOf-suc x olds s i b c (e, (k, q, h)) = (e, (suc k, omega arith, h))

module _ (hash : BodyFingerprinted → ℕ) where
  candidates_for_sound :
      (olds : List Node) (used : List Bool) (s : ReconcileSymbol) (i b : ℕ)
      → All (CandidateOf olds s i b) (candidates_for hash olds used s i b)
  unfolding candidates_for
  candidates_for_sound [] used s i b = tt
  candidates_for_sound (n ∷ ns) [] s i b = tt
  candidates_for_sound (n ∷ ns) (u ∷ us) s i b =
      let rest =
        All-map_of (CandidateOf-suc n ns s i b) (candidates_for hash ns us s i (suc b))
          (candidates_for_sound ns us s i (suc b)) in
      elim (Bool-cases (not u && may_rename n s)) [
        | inl e ↦
            let ok : may_rename n s ≡ true = ground arith in
            rw e ((refl, (zero, omega arith, λ m at. let it : n ≡ m = cc at in rw (← it) ok)), rest)
        | inr e ↦ rw e rest
      ]

  -- The same of the candidates of all symbols, whose positions are counted from `b`.
  abbrev CandidateFrom : List Node → List ReconcileSymbol → ℕ → RenameCandidate → Type 0
  CandidateFrom olds ss b c =
      (k : ℕ) × (c.sym_idx ≡ b + k)
      × ((s : ReconcileSymbol) (n : Node)
          → get_elem? ss k ≡ some s
          → get_elem? olds c.old_idx ≡ some n
          → may_rename n s ≡ true)

  CandidateFrom-head :
      (olds : List Node) (s : ReconcileSymbol) (ss : List ReconcileSymbol) (b : ℕ)
      (c : RenameCandidate)
      → CandidateOf olds s b 0 c
      → CandidateFrom olds (s ∷ ss) b c
  CandidateFrom-head olds s ss b c (e, (k, q, h)) = (
    zero,
    omega arith,
    λ t n has at.
        let it : s ≡ t = cc has in
        let pos : c.old_idx ≡ k = omega arith in rw (← it) (h n (rw pos at at)),
  )

  CandidateFrom-suc :
      (olds : List Node) (s : ReconcileSymbol) (ss : List ReconcileSymbol) (b : ℕ)
      (c : RenameCandidate)
      → CandidateFrom olds ss (suc b) c
      → CandidateFrom olds (s ∷ ss) b c
  CandidateFrom-suc olds s ss b c (k, q, h) = (suc k, omega arith, h)

  candidates_sound :
      (olds : List Node) (used : List Bool) (ss : List ReconcileSymbol) (as' : List (Option ℕ))
      (b : ℕ)
      → All (CandidateFrom olds ss b) (candidates hash olds used ss as' b)
  unfolding candidates
  candidates_sound olds used [] as' b = tt
  candidates_sound olds used (s ∷ ss) [] b = tt
  candidates_sound olds used (s ∷ ss) (a ∷ as') b =
      let rest =
        All-map_of (CandidateFrom-suc olds s ss b) (candidates hash olds used ss as' (suc b))
          (candidates_sound olds used ss as' (suc b)) in
      let own =
        All-map_of (CandidateFrom-head olds s ss b) (candidates_for hash olds used s b 0)
          (candidates_for_sound olds used s b 0) in
      elim (Bool-cases (is_some a)) [
        | inl e ↦ rw e rest
        | inr e ↦ rw e (
            All-append (CandidateFrom olds (s ∷ ss) b) (candidates_for hash olds used s b 0)
              (candidates hash olds used ss as' (suc b)) own rest)
      ]

  CandidateFrom-good :
      (olds : List Node) (ss : List ReconcileSymbol) (c : RenameCandidate)
      → CandidateFrom olds ss 0 c
      → GoodCandidate olds ss c
  CandidateFrom-good olds ss c (k, q, h) s n has at =
      let pos : c.sym_idx ≡ k = omega arith in h s n (rw pos at has) at

  -- A symbol keeps an old node only if that node has the symbol's full name, or the same kind, the
  -- same name up to the last dot and a start line at most three lines away.
  pub assign-MayKeep :
      (olds : List Node) (symbols : List ReconcileSymbol) (i j : ℕ) (s : ReconcileSymbol) (n : Node)
      → get_elem? symbols i ≡ some s
      → get_elem? olds j ≡ some n
      → get_elem? (assign hash olds symbols).0 i ≡ some (some j)
      → MayKeep n s
  unfolding assign
  assign-MayKeep olds symbols =
      let none_used = replicate (length olds) false in
      let e = exact_matches olds symbols none_used in
      let cs = candidates hash olds e.1 symbols e.0 0 in
      let good =
        All-map_of (CandidateFrom-good olds symbols) cs (candidates_sound olds e.1 symbols e.0 0) in
      claim_all-Justified olds symbols (sort_by cand_cmp cs) e.0 e.1
        (All-sort_by cand_cmp (GoodCandidate olds symbols) cs good)
        (exact_matches-Justified olds symbols none_used)
