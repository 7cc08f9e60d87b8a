-- ===== src/Lsp/Transport/Closed.antt =====
-- src/lsp/transport.rs: when a stream counts as closed.
use semnav.Base.{
  ℕ, ◌≡◌, ◌≢◌, ◌↔◌, refl, ap, true, false, Bool-cases, inl, inr, Option, none, some, List, [], ◌∷◌,
  Str, take, drop, any, arith,
}
use semnav.Lsp.Transport.{
  lines, unread, is_blank, header, read_headers, end_of_stream, decoded, read_body, after_headers,
  read_message,
}

read_headers-none :
    (before : Option ℕ) (ls : List Str) → any is_blank ls ≡ false → read_headers before ls ≡ none
unfolding read_headers
read_headers-none before [] h = refl
read_headers-none before (l ∷ ls) h =
    let here : is_blank l ≡ false = ground arith in
    rw here (read_headers-none (header l before) ls (ground arith))

read_headers-some :
    (before : Option ℕ) (ls : List Str) → any is_blank ls ≡ true → read_headers before ls ≢ none
unfolding read_headers
read_headers-some before [] h e = cc
read_headers-some before (l ∷ ls) h e = elim (Bool-cases (is_blank l)) [
  | inl b ↦ ground arith
  | inr b ↦ read_headers-some (header l before) ls (ground arith) (ground arith)
]

module _ {ℓ} {Value : Type ℓ} (from_slice : Str → Option Value) where
  decoded-open : (v : Option Value) (rest : Str) → decoded from_slice v rest ≢ end_of_stream
  decoded-open none rest e = cc
  decoded-open (some v) rest e = cc

  read_body-open :
      (declared : Option ℕ) (bytes : Str) → read_body from_slice declared bytes ≢ end_of_stream
  read_body-open none bytes e = cc
  read_body-open (some len) bytes e =
      ground (arith, decoded-open (from_slice (take len bytes)) (drop len bytes))

  after_headers-end :
      (r : Option (Option ℕ × List Str)) → after_headers from_slice r ≡ end_of_stream → r ≡ none
  after_headers-end none e = refl
  after_headers-end (some r) e = absurd (read_body-open r.0 (unread r.1) e)

  -- Reading a message reports the end of the stream exactly when no line of what is left of the
  -- stream is blank, so also after the headers of a frame that was cut off before its blank line.
  pub read_message-end :
      (input : Str)
      → (read_message from_slice input ≡ end_of_stream) ↔ (any is_blank (lines input) ≡ false)
  unfolding read_message
  read_message-end input = (
    λ e. elim (Bool-cases (any is_blank (lines input))) [
      | inl b ↦ absurd (read_headers-some none (lines input) b (after_headers-end _ e))
      | inr b ↦ b
    ],
    λ h. ap (after_headers from_slice) (read_headers-none none (lines input) h),
  )
