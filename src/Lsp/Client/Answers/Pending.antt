-- ===== src/Lsp/Client/Answers/Pending.antt =====
-- src/lsp/client.rs: the map of pending requests, and the replies that are owed to them.
use mathlib.Core.List.{Perm, perm_middle}
use mathlib.Core.List.Perm
use semnav.Base.{
  ℕ, ◌+◌, ◌<◌, ◌≡◌, ◌≢◌, refl, sym, false, Bool-cases, inl, inr, Option, none, some, List, [], ◌∷◌,
  ◌++◌, append_assoc, map, All, All-map_of, All-append, ◌==◌, ==_iff, put, get, if◌then◌else◌,
  arith,
}
use semnav.Lsp.Client.Actor.{remove}

-- All ids are below `n`.
abbrev pub Below : ℕ → List (ℕ × ℕ) → Type 0
Below n pending = All (λ p. p.0 < n) pending

-- No id occurs twice.
abbrev pub DistinctKeys : List (ℕ × ℕ) → Type 0
DistinctKeys [] = Unit
DistinctKeys (p ∷ ps) = All (λ q. q.0 ≢ p.0) ps × DistinctKeys ps

-- A new id is put at the end.
pub put-Below :
    (id ch : ℕ) (pending : List (ℕ × ℕ))
    → Below id pending
    → put ◌==◌ id ch pending ≡ pending ++ (id, ch) ∷ []
unfolding put
put-Below id ch [] h = refl
put-Below id ch ((j, d) ∷ pending) h =
    let other : (j == id) ≡ false = ground arith in
    let rec = put-Below id ch pending h.1 in rw (other, rec)

pub Below-snoc :
    (id ch : ℕ) (pending : List (ℕ × ℕ))
    → Below id pending
    → Below (id + 1) (pending ++ (id, ch) ∷ [])
Below-snoc id ch [] h = (omega arith, tt)
Below-snoc id ch (p ∷ pending) h = (omega arith, Below-snoc id ch pending h.1)

pub Below-suc : (n : ℕ) (pending : List (ℕ × ℕ)) → Below n pending → Below (n + 1) pending
Below-suc n [] h = tt
Below-suc n (p ∷ pending) h = (omega arith, Below-suc n pending h.1)

pub DistinctKeys-snoc :
    (id ch : ℕ) (pending : List (ℕ × ℕ))
    → Below id pending
    → DistinctKeys pending
    → DistinctKeys (pending ++ (id, ch) ∷ [])
DistinctKeys-snoc id ch [] h d = (tt, tt)
DistinctKeys-snoc id ch (p ∷ pending) h d = (
  All-append (λ q. q.0 ≢ p.0) pending ((id, ch) ∷ []) d.0 ((λ e. absurd (omega arith)), tt),
  DistinctKeys-snoc id ch pending h.1 d.1,
)

pub All-remove :
    (P : ℕ × ℕ → Type 0) (id : ℕ) (pending : List (ℕ × ℕ))
    → All P pending
    → All P (remove id pending)
unfolding remove
All-remove P id [] h = tt
All-remove P id ((j, d) ∷ pending) h = elim (Bool-cases (j == id)) [
  | inl e ↦ rw e h.1
  | inr e ↦ rw e (h.0, All-remove P id pending h.1)
]

pub DistinctKeys-remove :
    (id : ℕ) (pending : List (ℕ × ℕ)) → DistinctKeys pending → DistinctKeys (remove id pending)
unfolding remove
DistinctKeys-remove id [] d = tt
DistinctKeys-remove id ((j, c) ∷ pending) d = elim (Bool-cases (j == id)) [
  | inl e ↦ rw e d.1
  | inr e ↦ rw e (All-remove (λ q. q.0 ≢ j) id pending d.0, DistinctKeys-remove id pending d.1)
]

module _ {O : Type 0} where
  -- The reply to a channel, if its request has one.
  abbrev pub replied : ℕ → Option O → List (ℕ × O)
  replied ch none = []
  replied ch (some o) = (ch, o) ∷ []

  -- The replies to pending requests, by id.
  abbrev pub owed : (ℕ → Option O) → List (ℕ × ℕ) → List (ℕ × O)
  owed f [] = []
  owed f ((id, ch) ∷ ps) = replied ch (f id) ++ owed f ps

  pub owed-cong :
      (f g : ℕ → Option O) (ps : List (ℕ × ℕ)) → All (λ p. f p.0 ≡ g p.0) ps → owed f ps ≡ owed g ps
  owed-cong f g [] h = refl
  owed-cong f g ((id, ch) ∷ ps) h = rw (h.0, owed-cong f g ps h.1)

  pub owed-none : (ps : List (ℕ × ℕ)) → owed (λ id. none) ps ≡ []
  owed-none [] = refl
  owed-none (p ∷ ps) = owed-none ps

  pub owed-all : (o : O) (ps : List (ℕ × ℕ)) → owed (λ id. some o) ps ≡ map (λ p. (p.1, o)) ps
  owed-all o [] = refl
  owed-all o (p ∷ ps) = rw (owed-all o ps)

  pub owed-snoc :
      (f : ℕ → Option O) (ps : List (ℕ × ℕ)) (id ch : ℕ)
      → owed f (ps ++ (id, ch) ∷ []) ≡ owed f ps ++ replied ch (f id)
  owed-snoc f [] id ch = elim (f id) as (λ r. replied ch r ++ [] ≡ replied ch r) [
    | none ↦ refl
    | some o ↦ refl
  ]
  owed-snoc f ((j, d) ∷ ps) id ch =
      rw (owed-snoc f ps id ch)
        (sym (append_assoc (replied d (f j)) (owed f ps) (replied ch (f id))))

  -- The replies once the one to `id` has come.
  abbrev pub with_reply : ℕ → O → (ℕ → Option O) → ℕ → Option O
  with_reply id o f j = if j == id then some o else f j

  owed-others :
      (id : ℕ) (o : O) (f : ℕ → Option O) (ps : List (ℕ × ℕ))
      → All (λ q. q.0 ≢ id) ps
      → owed (with_reply id o f) ps ≡ owed f ps
  owed-others id o f ps h =
      owed-cong (with_reply id o f) f ps
        (All-map_of (λ q ne. let other : (q.0 == id) ≡ false = ground arith in rw other) ps h)

  pub owed-unknown :
      (id : ℕ) (o : O) (f : ℕ → Option O) (ps : List (ℕ × ℕ))
      → get ◌==◌ id ps ≡ none
      → owed (with_reply id o f) ps ≡ owed f ps
  unfolding get
  owed-unknown id o f [] h = refl
  owed-unknown id o f ((j, d) ∷ ps) h = elim (Bool-cases (j == id)) [
    | inl e ↦ let bad : some d ≡ none = rw e at h in cc
    | inr e ↦ let rest : get ◌==◌ id ps ≡ none = rw e at h in rw (e, owed-unknown id o f ps rest)
  ]

  pub owed-known :
      (id ch : ℕ) (o : O) (f : ℕ → Option O) (ps : List (ℕ × ℕ))
      → DistinctKeys ps
      → get ◌==◌ id ps ≡ some ch
      → Perm (owed (with_reply id o f) ps) ((ch, o) ∷ owed f (remove id ps))
  unfolding get remove
  owed-known id ch o f [] k h = cc
  owed-known id ch o f ((j, d) ∷ ps) k h = elim (Bool-cases (j == id)) [
    | inl e ↦
        let found : some d ≡ some ch = rw e at h in
        let same : d ≡ ch = cc found in
        let key : j ≡ id = (==_iff j id).0 e in
        rw (e, owed-others id o f ps (rw key at k.0), same) (Perm.refl _)
    | inr e ↦
        let found : get ◌==◌ id ps ≡ some ch = rw e at h in
        rw e (
          Perm.trans (Perm.append_left (replied d (f j)) (owed-known id ch o f ps k.1 found))
            (perm_middle (replied d (f j)) (owed f (remove id ps))))
  ]
