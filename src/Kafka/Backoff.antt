-- ===== src/Kafka/Backoff.antt =====
-- The pauses between failed fetches.
use Prim.Native.Nat.{min}
use native.Mathlib.Nat.{pow-suc}
use wb_tasks_l.Prelude.{
  ℕ, zero, suc, ◌+◌, ◌-◌, ◌*◌, ◌/◌, ◌^◌, ◌≤◌, ◌<◌, ◌≡◌, refl, ap, ◌∙◌, List, [], ◌∷◌, Option, none,
  pos, negsuc, ◌*ℤ◌, ◌≤ℤ◌, ◌<ℤ◌, arith,
}
use wb_tasks_l.Errors.{Error}
use wb_tasks_l.Kafka.{
  wrap64, ConsumerConfig, Message, Run, Fetch, message, fetch_failed, continue, next_backoff,
  with_jitter_equal, handle_message, pause, commit, consume, step, loop,
}

-- 2^62 nanoseconds are 146 years.
abbrev pub doubling_limit : ℕ
doubling_limit = 4611686018427387904

double : (c : ℕ) → pos c *ℤ pos 2 ≡ pos (c * 2)
unfolding ◌*ℤ◌
double c = ground arith

wrap64_small : (n : ℕ) → n < 9223372036854775808 → wrap64 (pos n) ≡ pos n
unfolding wrap64
wrap64_small n h = ground arith

next_backoff-min :
    (m c : ℕ) → c < doubling_limit → next_backoff (pos m) (pos c) ≡ pos (min m (c * 2))
unfolding next_backoff
next_backoff-min m c h = rw (double c, wrap64_small (c * 2) (omega arith)) (ground arith)

-- Failed fetches in a row, with the context not done.
pub outage : ℕ → List Fetch
outage zero = []
outage (suc k) = fetch_failed none none ∷ outage k

module _ {Service : Type 0} (save : List ℕ → Service → Service × Option Error) (int63n : ℕ → ℕ → ℕ)
    (cfg : ConsumerConfig) (i m : ℕ) where
  retry-loop :
      (k c : ℕ) (r : Run Service)
      → cfg.retry_max ≡ pos m
      → m < doubling_limit
      → r.retry ≡ pos (min m (i * 2 ^ c))
      → ((loop save int63n cfg (outage k) r).1 ≡ continue)
        × ((loop save int63n cfg (outage k) r).0.retry ≡ pos (min m (i * 2 ^ (k + c))))
  unfolding outage loop step pause
  retry-loop zero c r max small now = (refl, now ∙ ap (λ n. pos (min m (i * 2 ^ n))) (omega arith))
  retry-loop (suc k) c r max small now =
      let x : ℕ = i * 2 ^ c in
      let grow : i * 2 ^ suc c ≡ x * 2 = ap (λ p. i * p) (pow-suc 2 c) ∙ omega arith in
      let next : next_backoff cfg.retry_max r.retry ≡ pos (min m (i * 2 ^ suc c)) =
        rw (now, max, next_backoff-min m (min m x) (omega arith)) (ap pos (omega (arith, grow))) in
      let (goes, grown) =
        retry-loop k (suc c) (step save int63n cfg (fetch_failed none none) r).0 max small next in
      (goes, grown ∙ ap (λ n. pos (min m (i * 2 ^ n))) (omega arith))

  retry-consume :
      (msg : Message) (r : Run Service) → (consume save int63n cfg msg r).retry ≡ cfg.retry_initial
  unfolding consume handle_message pause commit
  retry-consume msg r = ground arith

  -- After a message and then k failed fetches in a row the loop goes on, and its backoff is the
  -- initial one times 2^k, cut at the maximum; if the next fetch fails too, that backoff with its
  -- jitter is the pause. This holds from every state of the loop, for an initial backoff that is at
  -- most the maximum, and a maximum below 2^62 nanoseconds: then doubling never overflows.
  pub loop-backoff :
      (msg : Message) (k : ℕ) (r : Run Service)
      → cfg.retry_initial ≡ pos i
      → cfg.retry_max ≡ pos m
      → i ≤ m
      → m < doubling_limit
      → (let (r', flow) = loop save int63n cfg (message msg ∷ outage k) r in
          (flow ≡ continue)
          × (r'.retry ≡ pos (min m (i * 2 ^ k)))
          × ((step save int63n cfg (fetch_failed none none) r').0.pauses
              ≡ with_jitter_equal (int63n r'.jitters) (pos (min m (i * 2 ^ k))) ∷ r'.pauses))
  unfolding loop step pause
  loop-backoff msg k r init max fits small =
      let fresh = consume save int63n cfg msg r in
      let begins : fresh.retry ≡ pos (min m (i * 2 ^ 0)) =
        retry-consume msg r ∙ init ∙ ap pos (omega arith) in
      let (goes, grown) = retry-loop k 0 fresh max small begins in
      let here = grown ∙ ap (λ n. pos (min m (i * 2 ^ n))) (omega arith) in
      let r' = (loop save int63n cfg (outage k) fresh).0 in
      (goes, here, ap (λ d. with_jitter_equal (int63n r'.jitters) d ∷ r'.pauses) here)

-- The jitter keeps at least half of a pause and adds at most the other half, for every source of
-- random numbers that stays below its bound; a duration that is not positive gives no pause.
pub with_jitter_equal_bounds :
    (int63n : ℕ → ℕ) (d : ℕ)
    → ((n : ℕ) → 0 < n → int63n n < n)
    → (pos (d / 2) ≤ℤ with_jitter_equal int63n (pos d))
      × (with_jitter_equal int63n (pos d) ≤ℤ pos d)
unfolding with_jitter_equal
with_jitter_equal_bounds int63n zero h = omega arith
with_jitter_equal_bounds int63n (suc d) h =
    let draw = h (suc d - suc d / 2 + 1) (omega arith) in (omega arith, omega arith)

wrap64_big :
    (n : ℕ)
    → 9223372036854775808 ≤ n
    → n < 18446744073709551616
    → wrap64 (pos n) ≡ negsuc (18446744073709551616 - n - 1)
unfolding wrap64
wrap64_big n h k = ground arith

negative :
    (m c : ℕ)
    → doubling_limit ≤ c
    → c < 9223372036854775808
    → next_backoff (pos m) (pos c) ≡ negsuc (18446744073709551616 - c * 2 - 1)
unfolding next_backoff
negative m c h k = rw (double c, wrap64_big (c * 2) (omega arith) (omega arith)) (ground arith)

-- From 2^62 nanoseconds on, doubling overflows: the next backoff is negative, and a pause of no
-- length follows it.
pub next_backoff_overflow :
    (m c : ℕ) (int63n : ℕ → ℕ)
    → doubling_limit ≤ c
    → c < 9223372036854775808
    → (next_backoff (pos m) (pos c) <ℤ pos 0)
      × (with_jitter_equal int63n (next_backoff (pos m) (pos c)) ≡ pos 0)
unfolding with_jitter_equal
next_backoff_overflow m c int63n h k = rw (negative m c h k) (omega arith, refl)
