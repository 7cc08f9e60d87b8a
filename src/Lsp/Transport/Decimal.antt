-- ===== src/Lsp/Transport/Decimal.antt =====
-- Decimal numbers as `format!` prints a `usize` and `trim` and `parse::<usize>` read one, for
-- src/lsp/transport.rs.
use semnav.Base.{
  ℕ, zero, suc, ◌+◌, ◌-◌, ◌*◌, ◌/◌, ◌%◌, ◌^◌, ◌<◌, ◌≤◌, ◌≡◌, refl, ap, ◌∙◌, Bool, true, false, ◌&&◌,
  ◌||◌, Bool-cases, inl, inr, Option, none, some, [], ◌∷◌, All, Str, ltb, leb, ◌==◌, if◌then◌else◌,
  arith,
}
use mathlib.Core.List.{reverse, reverse_aux, reverse-reverse}

-- The digits of `n` in front of `out`. Each step drops a digit, so `n` steps and one are enough.
unfoldable pub digits : ℕ → ℕ → Str → Str
digits zero n out = out
digits (suc fuel) n out =
    let rest = digits fuel (n / 10) ((48 + n % 10) ∷ out) in
    if ltb n 10 then (48 + n) ∷ out else rest

unfoldable pub decimal : ℕ → Str
unfolding digits
decimal n = digits (suc n) n []

abbrev is_space : ℕ → Bool
is_space c = (leb 9 c && leb c 13) || c == 32

unfoldable pub trim_start : Str → Str
trim_start [] = []
trim_start (c ∷ cs) = let rest = trim_start cs in if is_space c then rest else c ∷ cs

unfoldable pub trim : Str → Str
unfolding trim_start
trim s = reverse (trim_start (reverse (trim_start s)))

-- The digits of a number after `acc`; none at another character or past the largest `usize`.
unfoldable pub parse_digits : ℕ → Str → Option ℕ
parse_digits acc [] = some acc
parse_digits acc (c ∷ cs) =
    let next = acc * 10 + (c - 48) in
    let rest = parse_digits next cs in
    if leb 48 c && leb c 57 && ltb next (2 ^ 64) then rest else none

abbrev nonempty_digits : Str → Option ℕ
nonempty_digits [] = none
nonempty_digits (c ∷ cs) = parse_digits 0 (c ∷ cs)

-- One leading plus sign is allowed.
abbrev unsigned : Str → Option ℕ
unsigned [] = none
unsigned (c ∷ cs) = if c == 43 then nonempty_digits cs else nonempty_digits (c ∷ cs)

unfoldable pub parse_usize : Str → Option ℕ
unfolding trim parse_digits
parse_usize s = unsigned (trim s)

abbrev pub IsDigit : ℕ → Type 0
IsDigit c = (48 ≤ c) × (c ≤ 57)

-- A text that starts with a digit.
abbrev pub StartsWithDigit : Str → Type 0
StartsWithDigit [] = ⊥
StartsWithDigit (c ∷ cs) = IsDigit c

digits-digits :
    (fuel n : ℕ) (out : Str)
    → n < fuel
    → All IsDigit out
    → All IsDigit (digits fuel n out) × StartsWithDigit (digits fuel n out)
unfolding digits
digits-digits zero n out h a = absurd (omega arith)
digits-digits (suc fuel) n out h a = elim (Bool-cases (ltb n 10)) [
  | inl e ↦ rw e (((ground arith, ground arith), a), (ground arith, ground arith))
  | inr e ↦ rw e (digits-digits fuel (n / 10) _ (ground arith) ((omega arith, omega arith), a))
]

pub decimal-digits : (n : ℕ) → All IsDigit (decimal n) × StartsWithDigit (decimal n)
unfolding decimal
decimal-digits n = digits-digits (suc n) n [] (omega arith) tt

parse_digits-step :
    (acc d : ℕ) (out : Str)
    → d < 10
    → acc * 10 + d < 2 ^ 64
    → parse_digits acc ((48 + d) ∷ out) ≡ parse_digits (acc * 10 + d) out
unfolding parse_digits
parse_digits-step acc d out h b =
    let value : acc * 10 + (48 + d - 48) ≡ acc * 10 + d = omega arith in
    let above : leb 48 (48 + d) ≡ true = ground arith in
    let below : leb (48 + d) 57 ≡ true = ground arith in
    let fits : ltb (acc * 10 + d) (2 ^ 64) ≡ true = ground arith in rw (above, below, value, fits)

parse_digits-digits :
    (fuel n : ℕ) (out : Str)
    → n < fuel
    → n < 2 ^ 64
    → parse_digits 0 (digits fuel n out) ≡ parse_digits n out
unfolding digits
parse_digits-digits zero n out h b = absurd (omega arith)
parse_digits-digits (suc fuel) n out h b = elim (Bool-cases (ltb n 10)) [
  | inl e ↦
      let same : 0 * 10 + n ≡ n = omega arith in
      rw e
        (parse_digits-step 0 n out (ground arith) (omega arith) ∙ ap (λ m. parse_digits m out) same)
  | inr e ↦
      let value : n / 10 * 10 + n % 10 ≡ n = omega arith in
      let fits : n / 10 * 10 + n % 10 < 2 ^ 64 = omega arith in
      rw e (
        parse_digits-digits fuel (n / 10) ((48 + n % 10) ∷ out) (ground arith) (omega arith)
        ∙ (parse_digits-step (n / 10) (n % 10) out (omega arith) fits
            ∙ ap (λ m. parse_digits m out) value))
]

parse_decimal : (n : ℕ) → n < 2 ^ 64 → parse_digits 0 (decimal n) ≡ some n
unfolding decimal parse_digits
parse_decimal n h = parse_digits-digits (suc n) n [] (omega arith) h

-- Digits have no leading space, and no plus sign.
trim_start-digits : (s : Str) → All IsDigit s → trim_start s ≡ s
unfolding trim_start
trim_start-digits [] h = refl
trim_start-digits (c ∷ cs) h = let space : is_space c ≡ false = ground arith in rw space

unsigned-digits : (s : Str) → StartsWithDigit s → unsigned s ≡ parse_digits 0 s
unsigned-digits [] h = absurd h
unsigned-digits (c ∷ cs) h = let plus : (c == 43) ≡ false = ground arith in rw plus

All-reverse_aux : (s t : Str) → All IsDigit s → All IsDigit t → All IsDigit (reverse_aux s t)
All-reverse_aux [] t h k = k
All-reverse_aux (c ∷ cs) t h k = All-reverse_aux cs (c ∷ t) h.1 (h.0, k)

trim-digits : (s : Str) → All IsDigit s → trim (32 ∷ s) ≡ s
unfolding trim trim_start
trim-digits s a =
    ap (λ t. reverse (trim_start (reverse t))) (trim_start-digits s a)
    ∙ (ap reverse (trim_start-digits (reverse s) (All-reverse_aux s [] a tt)) ∙ reverse-reverse s)

-- A printed number is read back, with a space before it.
pub parse_usize-decimal : (n : ℕ) → n < 2 ^ 64 → parse_usize (32 ∷ decimal n) ≡ some n
unfolding parse_usize
parse_usize-decimal n h =
    let d = decimal-digits n in
    ap unsigned (trim-digits (decimal n) d.0)
    ∙ (unsigned-digits (decimal n) d.1 ∙ parse_decimal n h)
