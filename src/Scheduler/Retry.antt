-- ===== src/Scheduler/Retry.antt =====
-- How long a failed execution waits for its retry.
use personal_cfo_os.Base.{
  ℕ, zero, suc, ◌*◌, ◌≤◌, ◌<◌, ◌≡◌, ltb, if◌then◌else◌, signed_lt, int_double, arith, two_63, ◌^◌,
  ◌+◌, ◌-◌, ◌==◌, nat_eq, min, ap, sym, ◌∙◌, add_duration, is_pos, Bool-cases, inl, inr,
}
use personal_cfo_os.Scheduler.{
  five_seconds, grow, rounds, retry_delay, next_retry_time, RetryBackoffPolicy,
}
use native.Mathlib.Nat.{pow-suc}
use personal_cfo_os.Stores.Types.{TaskExecutionRecord}

-- `n` doublings.
abbrev pub doubled : ℕ → ℕ → ℕ
doubled zero d = d
doubled (suc n) d = doubled n (d * 2)

doubled-le : (n d : ℕ) → d ≤ doubled n d
doubled-le zero d = omega arith
doubled-le (suc n) d = omega (arith, doubled-le n (d * 2))

min_lem : (a b : ℕ) → (if ltb a b then a else b) ≡ min a b
min_lem a b = ground arith

first_delay : (d : ℕ) → 0 < d → d < two_63 → (if is_pos d then d else five_seconds) ≡ d
first_delay d positive small = ground arith

-- 2 ^ 62
abbrev pub two_62 : ℕ
two_62 = 4611686018427387904

add_lem : (t m d : ℕ) → m < two_62 → add_duration t (min m d) ≡ t + min m d
add_lem t m d small = ground arith

double_lem : (d m : ℕ) → d ≤ m → m < two_62 → int_double d ≡ d * 2
double_lem d m le small = omega arith

signed_lem : (a b : ℕ) → a < two_63 → b < two_63 → signed_lt a b ≡ ltb a b
signed_lem a b ha hb = ground arith

-- No product overflows.
grow_lem :
    (n m d : ℕ)
    → 0 < d
    → d ≤ m
    → m < two_62
    → grow n m d ≡ (if ltb m (doubled n d) then m else doubled n d)
unfolding grow
grow_lem zero m d p le small = ground arith
grow_lem (suc n) m d p le small =
    rw (double_lem d m le small, signed_lem m (d * 2) (omega arith) (omega arith))
      (elim (Bool-cases (ltb m (d * 2))) [
        | inl e ↦ ground (arith, doubled-le n (d * 2))
        | inr e ↦ ground (arith, grow_lem n m (d * 2))
      ])

times_lem : (d x : ℕ) → d * 2 * x ≡ d * (x * 2)
times_lem d x = ground arith

doubled_lem : (n d : ℕ) → doubled n d ≡ d * 2 ^ n
doubled_lem zero d = omega arith
doubled_lem (suc n) d =
    doubled_lem n (d * 2) ∙ times_lem d (2 ^ n) ∙ ap (λ x. d * x) (sym (pow-suc 2 n))

rounds_lem : (n : ℕ) → n < two_63 → rounds n ≡ n - 1
rounds_lem n small = ground arith

-- A failed execution is retried when a delay has passed since its failure, or since now where none is on
-- record: the first delay, doubled for each retry after the first, but no more than the greatest. No product
-- overflows, where the first delay is positive and not above the greatest, which is below 2 ^ 62 nanoseconds,
-- and the count of retries is not negative.
pub next_retry_time_lem :
    (r : TaskExecutionRecord) (p : RetryBackoffPolicy) (now : ℕ)
    → 0 < p.base_delay
    → p.base_delay ≤ p.max_delay
    → p.max_delay < two_62
    → r.retry_count < two_63
    → next_retry_time r p now
      ≡ (if r.failed_at == 0 then now else r.failed_at)
        + min p.max_delay (p.base_delay * 2 ^ (r.retry_count - 1))
unfolding next_retry_time retry_delay
next_retry_time_lem r p now positive le small counted =
    let grown : grow (rounds r.retry_count) p.max_delay p.base_delay
        ≡ min p.max_delay (p.base_delay * 2 ^ (r.retry_count - 1)) =
      ap (λ n. grow n p.max_delay p.base_delay) (rounds_lem r.retry_count counted)
      ∙ grow_lem (r.retry_count - 1) p.max_delay p.base_delay positive le small
      ∙ ap (λ d. if ltb p.max_delay d then p.max_delay else d)
          (doubled_lem (r.retry_count - 1) p.base_delay)
      ∙ min_lem p.max_delay (p.base_delay * 2 ^ (r.retry_count - 1)) in
    let delayed : retry_delay r p ≡ min p.max_delay (p.base_delay * 2 ^ (r.retry_count - 1)) =
      ap (λ d. grow (rounds r.retry_count) p.max_delay d)
        (first_delay p.base_delay positive (omega arith))
      ∙ grown in
    ap (add_duration (if r.failed_at == 0 then now else r.failed_at)) delayed
    ∙ add_lem (if r.failed_at == 0 then now else r.failed_at) p.max_delay
        (p.base_delay * 2 ^ (r.retry_count - 1)) small
