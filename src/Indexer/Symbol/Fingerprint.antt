-- ===== src/Indexer/Symbol/Fingerprint.antt =====
-- src/indexer/symbol.rs: what a shift of a file's lines does to the fingerprint of a symbol.
use semnav.Base.{ℕ, ◌+◌, ◌<◌, ◌≡◌, ◌≢◌, ap, pos_part, arith}
use semnav.Indexer.Symbol.{LspRange, FlatSymbol, to_graph, span, fingerprinted}

-- The range with `n` lines inserted above it.
abbrev pub shift_lines : ℕ → LspRange → LspRange
shift_lines n r = record {
  start = record { line = n + r.start.line; character = r.start.character };
  end = record { line = n + r.end.line; character = r.end.character };
}

-- What is hashed for a symbol names the lines that it stands on: inserting lines above a symbol,
-- with nothing else changed, changes it.
pub fingerprinted-shift :
    (n : ℕ) (r s : LspRange) (f : FlatSymbol)
    → 0 < n
    → f.range ≡ to_graph r
    → fingerprinted
        (record f { range = to_graph (shift_lines n r); sel = to_graph (shift_lines n s) })
      ≢ fingerprinted f
unfolding fingerprinted span
fingerprinted-shift n r s f h e same =
    let line : n + r.start.line ≡ pos_part f.range.start_line = ap (λ p. pos_part p.range.0) same in
    let line' : pos_part f.range.start_line ≡ r.start.line = ap (λ q. pos_part q.start_line) e in
    omega arith
