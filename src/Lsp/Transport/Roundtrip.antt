-- ===== src/Lsp/Transport/Roundtrip.antt =====
-- src/lsp/transport.rs: what is written is read back, and where a stream ends without a frame.
use semnav.Base.{
  ℕ, ◌+◌, ◌^◌, ◌<◌, ◌≤◌, ◌≡◌, ◌≢◌, refl, sym, ap, ◌∙◌, false, Bool-cases, inl, inr, Option, none,
  some, List, [], ◌∷◌, ◌++◌, append_assoc, any, All, All-append, All-map_of, Str, str, length,
  length-append, take-length_append, drop-length_append, ltb, ◌==◌, strip_prefix, arith,
}
use semnav.Lsp.Transport.Decimal.{decimal, decimal-digits, parse_usize-decimal}
use semnav.Lsp.Transport.{
  cr, lf, crlf, max_frame_size, lines, unread, trimmed, is_blank, header, read_headers, message,
  begin_line, declared, or_before, length_header, read_message, write_message, read_body,
  after_headers,
}

-- A line without a line feed, and the line feed, are the next line.
lines-append :
    (l rest : Str) → All (λ c. c ≢ lf) l → lines (l ++ lf ∷ rest) ≡ (l ++ lf ∷ []) ∷ lines rest
unfolding lines
lines-append [] rest h = refl
lines-append (c ∷ cs) rest h =
    let other : (c == lf) ≡ false = ground arith in rw (other, lines-append cs rest h.1)

unread-begin_line : (c : ℕ) (ls : List Str) → unread (begin_line c ls) ≡ c ∷ unread ls
unfolding unread
unread-begin_line c [] = refl
unread-begin_line c (l ∷ ls) = refl

unread-lines : (s : Str) → unread (lines s) ≡ s
unfolding unread lines
unread-lines [] = refl
unread-lines (c ∷ cs) = elim (Bool-cases (c == lf)) [
  | inl e ↦ rw e (ap (λ t. c ∷ t) (unread-lines cs))
  | inr e ↦ rw e (unread-begin_line c (lines cs) ∙ ap (λ t. c ∷ t) (unread-lines cs))
]

trimmed-crlf : (l : Str) → trimmed (l ++ crlf) ≡ l
unfolding trimmed
trimmed-crlf [] = refl
trimmed-crlf (c ∷ []) = refl
trimmed-crlf (c ∷ d ∷ []) = refl
trimmed-crlf (c ∷ d ∷ e ∷ l) = ap (λ t. c ∷ t) (trimmed-crlf (d ∷ e ∷ l))

-- The first line of a frame with a body of `n` bytes, without its line end.
abbrev length_line : ℕ → Str
length_line n = str "Content-Length: " ++ decimal n

any-All : (l : Str) → any (λ c. c == lf) l ≡ false → All (λ c. c ≢ lf) l
any-All [] h = tt
any-All (c ∷ cs) h = (ground arith, any-All cs (ground arith))

no_lf : (n : ℕ) → All (λ c. c ≢ lf) (length_line n ++ cr ∷ [])
no_lf n =
    let digits : All (λ c. c ≢ lf) (decimal n) =
      All-map_of (λ c d. (λ e. omega arith)) (decimal n) (decimal-digits n).0 in
    All-append (λ c. c ≢ lf) (str "Content-Length: ") (decimal n ++ cr ∷ [])
      (any-All (str "Content-Length: ") refl)
      (All-append (λ c. c ≢ lf) (decimal n) (cr ∷ []) digits (any-All (cr ∷ []) refl))

header-length_line : (n : ℕ) → n < 2 ^ 64 → header (length_line n ++ crlf) none ≡ some n
unfolding header strip_prefix
header-length_line n h =
    ap (λ t. declared (strip_prefix length_header t) none) (trimmed-crlf (length_line n))
    ∙ ap (λ v. or_before v none) (parse_usize-decimal n h)

lines-crlf : (rest : Str) → lines (crlf ++ rest) ≡ crlf ∷ lines rest
unfolding lines
lines-crlf rest = refl

lines-frame :
    (n : ℕ) (rest : Str)
    → lines (length_line n ++ (crlf ++ (crlf ++ rest)))
      ≡ (length_line n ++ crlf) ∷ crlf ∷ lines rest
lines-frame n rest =
    ap lines (sym (append_assoc (length_line n) (cr ∷ []) (lf ∷ (crlf ++ rest))))
    ∙ (lines-append (length_line n ++ cr ∷ []) (crlf ++ rest) (no_lf n)
        ∙ (ap (λ l. l ∷ lines (crlf ++ rest)) (append_assoc (length_line n) (cr ∷ []) (lf ∷ []))
            ∙ ap (λ ls. (length_line n ++ crlf) ∷ ls) (lines-crlf rest)))

read_headers-frame :
    (n : ℕ) (rest : Str)
    → n < 2 ^ 64
    → read_headers none (lines (length_line n ++ (crlf ++ (crlf ++ rest))))
      ≡ some (some n, lines rest)
unfolding read_headers is_blank
read_headers-frame n rest h =
    ap (read_headers none) (lines-frame n rest)
    ∙ ap (λ v. some (v, lines rest)) (header-length_line n h)

module _ {ℓ} {Value : Type ℓ} (from_slice : Str → Option Value) where
  read_message-headers :
      (input : Str) (r : Option (Option ℕ × List Str))
      → read_headers none (lines input) ≡ r
      → read_message from_slice input ≡ after_headers from_slice r
  unfolding read_message
  read_message-headers input r h = ap (after_headers from_slice) h

  read_body-frame :
      (v : Value) (body rest : Str)
      → from_slice body ≡ some v
      → length body ≤ max_frame_size
      → read_body from_slice (some (length body)) (body ++ rest) ≡ message v rest
  read_body-frame v body rest par small =
      let fits : ltb max_frame_size (length body) ≡ false = ground arith in
      let long : length (body ++ rest) ≡ length body + length rest = length-append body rest in
      let there : ltb (length (body ++ rest)) (length body) ≡ false = ground arith in
      rw (fits, there, take-length_append body rest, drop-length_append body rest, par)

  read_message-frame :
      (v : Value) (body rest : Str)
      → from_slice body ≡ some v
      → length body ≤ max_frame_size
      → read_message from_slice (length_line (length body) ++ (crlf ++ (crlf ++ (body ++ rest))))
        ≡ message v rest
  read_message-frame v body rest par small =
      read_message-headers _ _ (read_headers-frame (length body) (body ++ rest) (omega arith))
      ∙ (ap (read_body from_slice (some (length body))) (unread-lines (body ++ rest))
          ∙ read_body-frame v body rest par small)

module _ {ℓ} {M : Type ℓ} (to_vec : M → Option Str) where
  write_message-some :
      (msg : M) (body : Str)
      → to_vec msg ≡ some body
      → write_message to_vec msg ≡ some (length_line (length body) ++ (crlf ++ (crlf ++ body)))
  unfolding write_message
  write_message-some msg body ser = rw (ser, write_message)

-- A message that serializes to at most 64 MiB is written, and reading the written bytes from a
-- stream gives what its serialization parses to, and leaves exactly the bytes that follow.
pub read-write {ℓ κ} :
    {M : Type ℓ} {Value : Type κ} (to_vec : M → Option Str) (from_slice : Str → Option Value)
    (msg : M) (v : Value) (body rest : Str)
    → to_vec msg ≡ some body
    → from_slice body ≡ some v
    → length body ≤ max_frame_size
    → (frame : Str) × ((write_message to_vec msg ≡ some frame)
        × (read_message from_slice (frame ++ rest) ≡ message v rest))
read-write to_vec from_slice msg v body rest ser par small =
    let line = length_line (length body) in
    let flat : (line ++ (crlf ++ (crlf ++ body))) ++ rest
        ≡ line ++ (crlf ++ (crlf ++ (body ++ rest))) =
      append_assoc line (crlf ++ (crlf ++ body)) rest in
    (
      line ++ (crlf ++ (crlf ++ body)),
      (
        write_message-some to_vec msg body ser,
        ap (read_message from_slice) flat ∙ read_message-frame from_slice v body rest par small,
      ),
    )
