-- ===== src/Lsp/Supervisor/Storm.antt =====
-- src/lsp/supervisor.rs: what a run of failures does under the real policy.
use semnav.Base.{
  ℕ, zero, suc, ◌-◌, ◌^◌, ◌<◌, ◌≡◌, refl, sym, ◌∙◌, ap, Bool, true, false, leb, min, Option, none,
  some, ◌++◌, arith, if◌then◌else◌,
}
use semnav.Lsp.Supervisor.{
  healthy, restarting, down, default_real, nth_backoff, spawn_or_init_error, Supervisor, to_list,
  saturating_suc, transition_after_anomaly, attempt_start, on_restart_timer, on_anomaly, anomaly_in,
}

-- An anomaly of a healthy server, and then `k` restarts that fail, at time `now`, each with the
-- process, if any, whose `initialize` failed.
unfoldable pub failing : (ℕ → Option ℕ) → ℕ → ℕ → Supervisor → Supervisor
failing processes zero now s = on_anomaly s
failing processes (suc k) now s =
    on_restart_timer (spawn_or_init_error (processes k)) now (failing processes k now s)

-- The state after the `n`-th failure in a row.
abbrev pub After : ℕ → Supervisor → Type 0
After n t =
    (t.policy ≡ default_real)
    × (t.failures ≡ min n (2 ^ 32 - 1))
    × (t.state ≡ (if leb 5 n then down else restarting))
    × (t.restart_timer ≡ some (if leb 5 n then 30 else 2 ^ (n - 1)))

backoff-pow : (n : ℕ) → n < 4 → nth_backoff default_real n ≡ 2 ^ n
unfolding nth_backoff
backoff-pow zero h = refl
backoff-pow (suc zero) h = refl
backoff-pow (suc (suc zero)) h = refl
backoff-pow (suc (suc (suc zero))) h = refl
backoff-pow (suc (suc (suc (suc n)))) h = absurd (omega arith)

saturating_suc-min :
    (n m : ℕ) → m ≡ min n (2 ^ 32 - 1) → saturating_suc m ≡ min (suc n) (2 ^ 32 - 1)
saturating_suc-min n m e = ground arith

leb-sat : (n : ℕ) (b : Bool) → leb 5 (suc n) ≡ b → leb 5 (min (suc n) (2 ^ 32 - 1)) ≡ b
leb-sat n true e = ground arith
leb-sat n false e = ground arith

backoff-sat :
    (n : ℕ)
    → leb 5 (suc n) ≡ false
    → nth_backoff default_real (min (suc n) (2 ^ 32 - 1) - 1) ≡ 2 ^ (suc n - 1)
backoff-sat n e =
    let same : min (suc n) (2 ^ 32 - 1) - 1 ≡ n = ground arith in
    let back : suc n - 1 ≡ n = omega arith in
    ap (nth_backoff default_real) same ∙ (backoff-pow n (ground arith) ∙ ap (λ m. 2 ^ m) (sym back))

-- The two outcomes, by the test.
transition-by :
    (b : Bool) (n : ℕ) (s : Supervisor)
    → s.policy ≡ default_real
    → saturating_suc s.failures ≡ min (suc n) (2 ^ 32 - 1)
    → leb 5 (suc n) ≡ b
    → After (suc n) (transition_after_anomaly s)
unfolding transition_after_anomaly
transition-by true n s p f e = rw (f, p, leb-sat n true e, e) (refl, refl, refl, refl)
transition-by false n s p f e =
    rw (f, p, leb-sat n false e, e) (refl, refl, refl, ap some (backoff-sat n e))

transition-After :
    (n : ℕ) (s : Supervisor)
    → s.policy ≡ default_real
    → s.failures ≡ min n (2 ^ 32 - 1)
    → After (suc n) (transition_after_anomaly s)
transition-After n s p f =
    transition-by (leb 5 (suc n)) n s p (saturating_suc-min n s.failures f) refl

-- A healthy server under the real policy whose exit or failure is followed by restarts that all
-- fail: after `k + 1` failures in a row the failure count is `k + 1` (up to the bound of a `u32`),
-- the first four failures leave it restarting with a backoff of 1, 2, 4 and 8 seconds, and the fifth
-- and every later one leave it down with a retry in 30 seconds.
pub failing-After :
    (processes : ℕ → Option ℕ) (k now : ℕ) (s : Supervisor)
    → s.state ≡ healthy
    → s.policy ≡ default_real
    → s.failures ≡ 0
    → After (suc k) (failing processes k now s)
unfolding failing on_anomaly on_restart_timer attempt_start
failing-After processes zero now s h p f =
    rw (ap (λ st. anomaly_in st s) h) (transition-After 0 s p f)
failing-After processes (suc k) now s h p f =
    let rec = failing-After processes k now s h p f in
    let before = failing processes k now s in
    transition-After (suc k)
      (record before { restart_timer = none; unready = to_list (processes k) ++ before.unready })
      rec.0 rec.1
