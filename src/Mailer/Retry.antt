-- ===== src/Mailer/Retry.antt =====
-- internal/mail/worker.go: DeliveryPolicy and retryDelay. A duration below 1 is 0. The product with
-- the jitter is an int64 that wraps, its division by 1000 rounds toward zero; the sum with half of
-- the delay is never negative.
use clixor_backend.Prelude.{
  ℕ, zero, suc, ◌+◌, ◌-◌, ◌*◌, ◌/◌, ◌%◌, ◌^◌, ◌≤◌, ◌<◌, ◌≡◌, refl, sym, ap, ◌∙◌, ltb→lt, true,
  false, not, if◌then◌else◌, ltb, arith, Bool-cases, inl, inr,
}
use native.Mathlib.Nat.{mul_assoc, pow-succ', one-le-pow, le-mul_of_pos_right, mul-le-mul_right}
use clixor_backend.Domain.{Uuid, Time}

pub record DeliveryPolicy : Type 0 where
  pub batch_size : ℕ
  pub worker_concurrency : ℕ
  pub max_attempts : ℕ
  pub base_delay : Time
  pub max_delay : Time
  pub delivered_retention : Time
  pub dead_letter_retention : Time

-- DefaultDeliveryPolicy
abbrev pub default_delivery_policy : DeliveryPolicy
default_delivery_policy = record {
  batch_size = 50;
  worker_concurrency = 4;
  max_attempts = 8;
  base_delay = 5_000_000_000;
  max_delay = 1_800_000_000_000;
  delivered_retention = 86_400_000_000_000;
  dead_letter_retention = 2_592_000_000_000_000;
}

-- The loop of retryDelay, with the number of rounds that are left.
unfoldable pub double_delay : ℕ → Time → Time → Time
double_delay zero delay max_delay = delay
double_delay (suc n) delay max_delay =
    let doubled = double_delay n (delay * 2) max_delay in
    if not (ltb delay max_delay)
    then delay
    else if ltb (max_delay / 2) delay
    then max_delay
    else doubled

-- The delay before the jitter.
unfoldable pub backoff : DeliveryPolicy → ℕ → Time
unfolding double_delay
backoff policy attempts =
    let delay = double_delay (attempts - 1) policy.base_delay policy.max_delay in
    if ltb policy.max_delay delay then policy.max_delay else delay

-- binary.BigEndian.Uint64(id[:8]) + uint64(attempts)*1103515245
unfoldable pub jitter_seed : Uuid → ℕ → ℕ
jitter_seed id attempts = (id / 18446744073709551616 + attempts * 1103515245) % 18446744073709551616

-- half + int64(product)/1000, where `product` is taken modulo 2^64 and is negative from 2^63 on.
unfoldable pub add_jitter : Time → ℕ → Time
add_jitter half product =
    let wrapped = product % 18446744073709551616 in
    if ltb wrapped 9223372036854775808
    then half + wrapped / 1000
    else half - (18446744073709551616 - wrapped) / 1000

-- retryDelay
unfoldable pub retry_delay : DeliveryPolicy → Uuid → ℕ → Time
unfolding backoff jitter_seed add_jitter
retry_delay policy id attempts =
    let delay = backoff policy attempts in
    add_jitter (delay / 2) (jitter_seed id attempts % 501 * delay)

-- The lesser of two delays.
abbrev pub least : ℕ → ℕ → ℕ
least a b = if ltb b a then b else a

-- A product by the next power.
times_power : (delay n : ℕ) → delay * 2 ^ suc n ≡ delay * 2 * 2 ^ n
times_power delay n = ap (λ x. delay * x) (pow-succ' 2 n) ∙ sym (mul_assoc delay 2 (2 ^ n))

power_positive : (n : ℕ) → 0 < 2 ^ n
power_positive n = one-le-pow n 2 (omega arith)

-- A power only enlarges a product.
power_grows : (delay n : ℕ) → delay ≤ delay * 2 ^ n
power_grows delay n = le-mul_of_pos_right delay (power_positive n)

ltb-false : (a b : ℕ) → ltb a b ≡ false → b ≤ a
ltb-false a b h = ground arith

least_over : (a b : ℕ) → b ≤ a → least a b ≡ b
least_over a b h = ground arith

-- The three ways of a round.
module _ (n : ℕ) (delay max_delay : Time) where
  double_full : ltb delay max_delay ≡ false → double_delay (suc n) delay max_delay ≡ delay
  unfolding double_delay
  double_full full = rw full refl

  double_half :
      ltb delay max_delay ≡ true
      → ltb (max_delay / 2) delay ≡ true
      → double_delay (suc n) delay max_delay ≡ max_delay
  unfolding double_delay
  double_half below half = rw (below, half) refl

  double_more :
      ltb delay max_delay ≡ true
      → ltb (max_delay / 2) delay ≡ false
      → double_delay (suc n) delay max_delay ≡ double_delay n (delay * 2) max_delay
  unfolding double_delay
  double_more below fine = rw (below, fine) refl

double_delay_lem :
    (n : ℕ) (delay max_delay : Time)
    → least (double_delay n delay max_delay) max_delay ≡ least (delay * 2 ^ n) max_delay
unfolding double_delay
double_delay_lem zero delay max_delay = ap (λ x. least x max_delay) (omega arith)
double_delay_lem (suc n) delay max_delay = elim (Bool-cases (ltb delay max_delay)) [
  | inr full ↦
      ap (λ x. least x max_delay) (double_full n delay max_delay full)
      ∙ least_over delay max_delay (ltb-false delay max_delay full)
      ∙ sym (
          least_over (delay * 2 ^ suc n) max_delay
            (omega (arith, ltb-false delay max_delay full, power_grows delay (suc n))))
  | inl below ↦ elim (Bool-cases (ltb (max_delay / 2) delay)) [
    | inl half ↦
        ap (λ x. least x max_delay) (double_half n delay max_delay below half)
        ∙ least_over max_delay max_delay (omega arith)
        ∙ sym (
            least_over (delay * 2 ^ suc n) max_delay (
              omega (
                arith,
                ltb→lt (max_delay / 2) delay half,
                times_power delay n,
                power_grows (delay * 2) n,
              )))
    | inr fine ↦
        ap (λ x. least x max_delay) (double_more n delay max_delay below fine)
        ∙ double_delay_lem n (delay * 2) max_delay
        ∙ ap (λ x. least x max_delay) (sym (times_power delay n))
  ]
]

backoff_lem :
    (policy : DeliveryPolicy) (n : ℕ)
    → backoff policy (n + 1) ≡ least (policy.base_delay * 2 ^ n) policy.max_delay
unfolding backoff
backoff_lem policy n =
    ap (λ k. least (double_delay k policy.base_delay policy.max_delay) policy.max_delay)
      (omega arith)
    ∙ double_delay_lem n policy.base_delay policy.max_delay

least_le : (a b : ℕ) → least a b ≤ b
least_le a b = ground arith

at_most_500 : (k : ℕ) → k < 501 → k ≤ 500
at_most_500 k h = omega arith

-- The jitter never passes half of the delay; it is its exact value where the product is an int64.
add_jitter_bounds : (k delay : ℕ) → k < 501 → add_jitter (delay / 2) (k * delay) ≤ delay
unfolding add_jitter
add_jitter_bounds k delay h = ground (arith, mul-le-mul_right delay (at_most_500 k h))

add_jitter_half :
    (k delay : ℕ)
    → k < 501
    → delay * 500 < 9223372036854775808
    → delay / 2 ≤ add_jitter (delay / 2) (k * delay)
unfolding add_jitter
add_jitter_half k delay h small = ground (arith, mul-le-mul_right delay (at_most_500 k h))

-- A retry waits between half and all of the delay that doubles with each attempt from the base
-- delay and is cut at the greatest delay: for the n-th attempt, from n = 1, of
-- min(base * 2^(n-1), max), although the loop stops before a product could pass the greatest delay.
-- 500 times the policy's greatest delay is below 2^63.
pub retry_delay_bounds :
    (policy : DeliveryPolicy) (id : Uuid) (n : ℕ)
    → policy.max_delay * 500 < 9223372036854775808
    → (least (policy.base_delay * 2 ^ n) policy.max_delay / 2 ≤ retry_delay policy id (n + 1))
      × (retry_delay policy id (n + 1) ≤ least (policy.base_delay * 2 ^ n) policy.max_delay)
unfolding retry_delay
retry_delay_bounds policy id n small =
    let seed = jitter_seed id (n + 1) % 501 in
    let short = least_le (policy.base_delay * 2 ^ n) policy.max_delay in
    rw (backoff_lem policy n) (
      add_jitter_half seed _ (omega arith) (omega (arith, short)),
      add_jitter_bounds seed _ (omega arith),
    )

-- Whatever the policy, no retry waits for more than its greatest delay.
pub retry_delay_le :
    (policy : DeliveryPolicy) (id : Uuid) (attempts : ℕ)
    → retry_delay policy id attempts ≤ policy.max_delay
unfolding retry_delay backoff
retry_delay_le policy id attempts =
    let delay = double_delay (attempts - 1) policy.base_delay policy.max_delay in
    omega (
      arith,
      add_jitter_bounds (jitter_seed id attempts % 501) (least delay policy.max_delay)
          (omega arith),
      least_le delay policy.max_delay,
    )
