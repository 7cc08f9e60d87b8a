-- ===== src/Lsp/Transport.antt =====
-- src/lsp/transport.rs: Content-Length framing. A stream is the bytes that are still to come, and
-- ends after them; headers are taken to be ASCII. JSON printing and parsing are parameters.
pub mod Decimal
pub mod Roundtrip
pub mod Closed
use semnav.Base.{
  ℕ, zero, suc, ◌+◌, ◌-◌, ◌*◌, ◌^◌, Bool, true, false, ◌&&◌, ◌||◌, Option, none, some, List, [],
  ◌∷◌, ◌++◌, Str, str, length, take, drop, ltb, leb, ◌==◌, if◌then◌else◌, strip_prefix,
}
use Decimal.{decimal, parse_usize}

-- The bytes of `\r` and `\n`.
abbrev pub cr : ℕ
cr = 13

abbrev pub lf : ℕ
lf = 10

abbrev pub crlf : Str
crlf = cr ∷ lf ∷ []

abbrev pub max_frame_size : ℕ
max_frame_size = 64 * 1024 * 1024

-- What successive calls of `read_until(b'\n')` return: lines with their line feed, the last one
-- possibly without.
abbrev pub begin_line : ℕ → List Str → List Str
begin_line c [] = (c ∷ []) ∷ []
begin_line c (l ∷ ls) = (c ∷ l) ∷ ls

unfoldable pub lines : Str → List Str
lines [] = []
lines (c ∷ cs) = let rest = lines cs in if c == lf then (c ∷ []) ∷ rest else begin_line c rest

-- The bytes of the lines that are not read yet.
unfoldable pub unread : List Str → Str
unread [] = []
unread (l ∷ ls) = l ++ unread ls

-- `line.strip_suffix(b"\r\n").unwrap_or(&line)`
unfoldable pub trimmed : Str → Str
trimmed [] = []
trimmed (c ∷ []) = c ∷ []
trimmed (c ∷ d ∷ []) = if c == cr && d == lf then [] else c ∷ d ∷ []
trimmed (c ∷ d ∷ e ∷ cs) = c ∷ trimmed (d ∷ e ∷ cs)

unfoldable pub is_blank : Str → Bool
unfolding trimmed
is_blank line = elim (trimmed line) [ [] ↦ true | c ∷ cs ↦ false ]

abbrev pub length_header : Str
length_header = str "Content-Length:"

-- The declared length after one more header: a header that is no length, or no number, is ignored.
abbrev pub or_before : Option ℕ → Option ℕ → Option ℕ
or_before none before = before
or_before (some n) before = some n

abbrev pub declared : Option Str → Option ℕ → Option ℕ
declared none before = before
declared (some value) before = or_before (parse_usize value) before

unfoldable pub header : Str → Option ℕ → Option ℕ
unfolding trimmed strip_prefix parse_usize
header line before = declared (strip_prefix length_header (trimmed line)) before

-- The header loop: none at the end of the stream, else the declared length and the unread lines.
unfoldable pub read_headers : Option ℕ → List Str → Option (Option ℕ × List Str)
unfolding header is_blank
read_headers content_length [] = none
read_headers content_length (l ∷ ls) =
    let rest = read_headers (header l content_length) ls in
    if is_blank l then some (content_length, ls) else rest

pub data IoError : Type 0 where
  missing_length too_large unexpected_eof bad_json : IoError

-- `Ok(None)`, `Ok(Some(value))` with the bytes that are left, or an error.
pub data ReadResult {ℓ} (Value : Type ℓ) : Type ℓ where
  end_of_stream : ReadResult Value
  message : Value → Str → ReadResult Value
  io_error : IoError → ReadResult Value

module _ {ℓ} {Value : Type ℓ} (from_slice : Str → Option Value) where
  abbrev pub decoded : Option Value → Str → ReadResult Value
  decoded none rest = io_error bad_json
  decoded (some v) rest = message v rest

  abbrev pub read_body : Option ℕ → Str → ReadResult Value
  read_body none bytes = io_error missing_length
  read_body (some len) bytes =
      if ltb max_frame_size len
      then io_error too_large
      else if ltb (length bytes) len
      then io_error unexpected_eof
      else decoded (from_slice (take len bytes)) (drop len bytes)

  abbrev pub after_headers : Option (Option ℕ × List Str) → ReadResult Value
  after_headers none = end_of_stream
  after_headers (some (content_length, rest)) = read_body content_length (unread rest)

  unfoldable pub read_message : Str → ReadResult Value
  unfolding lines read_headers
  read_message input = after_headers (read_headers none (lines input))

module _ {ℓ} {M : Type ℓ} (to_vec : M → Option Str) where
  -- The bytes that `write_message` writes, if the message can be serialized.
  unfoldable pub write_message : M → Option Str
  unfolding decimal
  write_message msg = elim (to_vec msg) [
    | none ↦ none
    | some body ↦
        some ((str "Content-Length: " ++ decimal (length body)) ++ (crlf ++ (crlf ++ body)))
  ]
