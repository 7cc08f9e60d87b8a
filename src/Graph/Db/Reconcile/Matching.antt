-- ===== src/Graph/Db/Reconcile/Matching.antt =====
-- src/graph/db.rs: passes 1 and 2 of `reconcile_file_symbols_tx`, which decide which old node each
-- symbol keeps.
use mathlib.Core.Option
use semnav.Base.{
  ℕ, suc, ℤ, int_eq, abs_diff, Bool, true, ◌&&◌, ◌||◌, not, Option, none, some, List, [], ◌∷◌, ◌++◌,
  Str, str_eq, ◌==◌, leb, if◌then◌else◌, get_elem?, set, is_some, unwrap_or, rsplit_once, compare,
  Ordering, then_cmp,
}
use semnav.Indexer.Symbol.{span, dot}
use semnav.Graph.Model.{Range, Node, ReconcileSymbol}

abbrev pub rename_max_line_drift : ℕ
rename_max_line_drift = 3

-- `container_prefix`
unfoldable pub container_prefix : Str → Str
unfolding rsplit_once
container_prefix fqn = unwrap_or (Option.map (λ p. p.0) (rsplit_once dot fqn)) []

-- What `body_fingerprint` feeds to the hasher.
pub record BodyFingerprinted : Type 0 where
  pub kind : ℤ
  pub detail : Option Str
  pub range : ℤ × ℤ × ℤ × ℤ
  pub sel : ℤ × ℤ × ℤ × ℤ

unfoldable pub body_fingerprint : (BodyFingerprinted → ℕ) → ℤ → Option Str → Range → Range → ℕ
unfolding span
body_fingerprint hash kind detail range sel =
    hash (record { kind = kind; detail = detail; range = span range; sel = span sel })

pub record RenameCandidate : Type 0 where
  pub tier : ℕ
  pub line_drift : ℕ
  pub old_idx : ℕ
  pub sym_idx : ℕ

-- Pass 1. The first unused old node with the name.
unfoldable pub exact_match : Str → List Node → List Bool → Option ℕ
exact_match fqn [] used = none
exact_match fqn (n ∷ ns) [] = none
exact_match fqn (n ∷ ns) (u ∷ us) =
    if not u && str_eq n.fqn fqn then some 0 else Option.map suc (exact_match fqn ns us)

abbrev pub mark_used : Option ℕ → List Bool → List Bool
mark_used none used = used
mark_used (some j) used = set used j true

unfoldable pub exact_matches :
    List Node → List ReconcileSymbol → List Bool → List (Option ℕ) × List Bool
unfolding exact_match
exact_matches olds [] used = ([], used)
exact_matches olds (s ∷ ss) used =
    let m = exact_match s.fqn olds used in
    let rest = exact_matches olds ss (mark_used m used) in (m ∷ rest.0, rest.1)

-- The tests that make an old node a rename candidate of a symbol.
unfoldable pub may_rename : Node → ReconcileSymbol → Bool
unfolding container_prefix
may_rename old sym =
    int_eq old.kind sym.kind
    && (str_eq (container_prefix old.fqn) (container_prefix sym.fqn)
        && leb (abs_diff old.range.start_line sym.range.start_line) rename_max_line_drift)

module _ (hash : BodyFingerprinted → ℕ) where
  unfoldable pub candidate : Node → ReconcileSymbol → ℕ → ℕ → RenameCandidate
  unfolding body_fingerprint
  candidate old sym j i = record {
    tier =
        if body_fingerprint hash old.kind old.detail old.range old.sel
          == body_fingerprint hash sym.kind sym.detail sym.range sym.sel
        then 1
        else 0;
    line_drift = abs_diff old.range.start_line sym.range.start_line;
    old_idx = j;
    sym_idx = i;
  }

  -- The candidates of symbol `i` among the unused old nodes from position `j` on.
  unfoldable pub candidates_for :
      List Node → List Bool → ReconcileSymbol → ℕ → ℕ → List RenameCandidate
  unfolding may_rename candidate
  candidates_for [] used sym i j = []
  candidates_for (n ∷ ns) [] sym i j = []
  candidates_for (n ∷ ns) (u ∷ us) sym i j =
      let rest = candidates_for ns us sym i (suc j) in
      if not u && may_rename n sym then candidate n sym j i ∷ rest else rest

  -- Pass 2: the candidates of all symbols from position `i` on that have no old node yet.
  unfoldable pub candidates :
      List Node → List Bool → List ReconcileSymbol → List (Option ℕ) → ℕ → List RenameCandidate
  unfolding candidates_for
  candidates olds used [] assigned i = []
  candidates olds used (s ∷ ss) [] i = []
  candidates olds used (s ∷ ss) (a ∷ as') i =
      let rest = candidates olds used ss as' (suc i) in
      if is_some a then rest else candidates_for olds used s i 0 ++ rest

-- Best tier first, then the smallest drift, then the order of the old nodes.
unfoldable pub cand_cmp : RenameCandidate → RenameCandidate → Ordering
cand_cmp a b =
    then_cmp (compare b.tier a.tier)
      (then_cmp (compare a.line_drift b.line_drift) (compare a.old_idx b.old_idx))

-- Whether `used[j]`; every position that is asked for is one.
abbrev pub is_used : List Bool → ℕ → Bool
is_used used j = unwrap_or (get_elem? used j) true

abbrev pub is_assigned : List (Option ℕ) → ℕ → Bool
is_assigned assigned i = is_some (unwrap_or (get_elem? assigned i) (some 0))

-- One candidate of the greedy loop.
unfoldable pub claim : RenameCandidate → List (Option ℕ) × List Bool → List (Option ℕ) × List Bool
claim c (assigned, used) =
    if is_used used c.old_idx || is_assigned assigned c.sym_idx
    then (assigned, used)
    else (set assigned c.sym_idx (some c.old_idx), set used c.old_idx true)

unfoldable pub claim_all :
    List RenameCandidate → List (Option ℕ) × List Bool → List (Option ℕ) × List Bool
unfolding claim
claim_all [] state = state
claim_all (c ∷ cs) state = claim_all cs (claim c state)
