-- ===== src/Api/RateBound.antt =====
-- How many requests the token bucket lets through.
use native.Mathlib.Nat.{add-mul, mul-le-mul}
use agdd.Prelude.{
  ap, ◌∙◌, ℕ, ◌+◌, ◌-◌, ◌*◌, ◌≤◌, min, String, ◌≡◌, ◌≢◌, refl, Bool, true, none, some, List, [],
  ◌∷◌, arith, eq_iff, if◌then◌else◌, Option-cases, inl, inr,
}
use agdd.Dict
use agdd.Dict.{Dict, get-put, get-put_self}
use agdd.Api.RateLimit.{
  Bucket, Limiter, one, new_bucket, bucket_of, refill, take_token, check_rate_limit, check_all,
}

-- The number of requests that were let through.
abbrev pub allowed_count : List Bool → ℕ
allowed_count [] = 0
allowed_count (b ∷ bs) = (if b then 1 else 0) + allowed_count bs

-- The times do not decrease, and are not before `n`.
abbrev pub IsClock : ℕ → List ℕ → Type 0
IsClock n [] = Unit
IsClock n (t ∷ ts) = (n ≤ t) × IsClock t ts

abbrev pub last_time : ℕ → List ℕ → ℕ
last_time n [] = n
last_time n (t ∷ ts) = last_time t ts

min_le : (a b : ℕ) → (min a b ≤ a) × (min a b ≤ b)
min_le a b = (omega arith, omega arith)

-- One check takes a token exactly if it lets the request through.
take_token_pays :
    (b : Bucket) → (take_token b).0.tokens + one * (if (take_token b).1 then 1 else 0) ≡ b.tokens
unfolding take_token
take_token_pays b = ground arith

take_token_time : (b : Bucket) → (take_token b).0.last_update ≡ b.last_update
unfolding take_token
take_token_time b = ground arith

take_token_full : (b : Bucket) → one ≤ b.tokens → (take_token b).1 ≡ true
unfolding take_token
take_token_full b h = ground arith

-- The checks of one bucket, one after the other.
abbrev checks : ℕ → Bucket → List ℕ → Bucket × List Bool
checks qps b [] = (b, [])
checks qps b (now ∷ times) =
    let (b1, allowed) = take_token (refill qps now b) in
    let (b2, rest) = checks qps b1 times in (b2, allowed ∷ rest)

gain : (n t m q : ℕ) → n ≤ t → t ≤ m → (m - n) * q ≡ (t - n) * q + (m - t) * q
gain n t m q h k = ap (λ (d : ℕ). d * q) (omega (arith, h, k)) ∙ add-mul (t - n) (m - t) q

last_time-le : (n : ℕ) (ts : List ℕ) → IsClock n ts → n ≤ last_time n ts
last_time-le n [] h = omega arith
last_time-le n (t ∷ ts) h = omega (arith, h.0, last_time-le t ts h.1)

refill_tokens :
    (qps now n : ℕ) (b : Bucket)
    → b.last_update ≡ n
    → (refill qps now b).tokens ≤ b.tokens + (now - n) * qps
unfolding refill
refill_tokens qps now n b e = rw e ((min_le (qps * one) (b.tokens + (now - n) * qps)).1)

refill_cap : (qps now : ℕ) (b : Bucket) → (refill qps now b).tokens ≤ qps * one
unfolding refill
refill_cap qps now b = (min_le (qps * one) (b.tokens + (now - b.last_update) * qps)).0

refill_time : (qps now : ℕ) (b : Bucket) → (refill qps now b).last_update ≡ now
unfolding refill
refill_time qps now b = refl

checks_bound :
    (qps n : ℕ) (b : Bucket) (times : List ℕ)
    → b.last_update ≡ n
    → IsClock n times
    → one * allowed_count (checks qps b times).1 ≤ b.tokens + (last_time n times - n) * qps
checks_bound qps n b [] e h = omega arith
checks_bound qps n b (now ∷ times) e h = omega (
  arith,
  take_token_pays (refill qps now b),
  refill_tokens qps now n b e,
  gain n now (last_time now times) qps h.0 (last_time-le now times h.1),
  checks_bound qps now (take_token (refill qps now b)).0 times
      (take_token_time (refill qps now b) ∙ refill_time qps now b) h.1,
)

-- Whatever a bucket holds, the first check leaves it no more than `qps` tokens.
checks_first :
    (qps now : ℕ) (b : Bucket) (times : List ℕ)
    → IsClock now times
    → one * allowed_count (checks qps b (now ∷ times)).1
      ≤ qps * one + (last_time now times - now) * qps
checks_first qps now b times h = omega (
  arith,
  take_token_pays (refill qps now b),
  refill_cap qps now b,
  checks_bound qps now (take_token (refill qps now b)).0 times
      (take_token_time (refill qps now b) ∙ refill_time qps now b) h,
)

bucket_known :
    (l : Limiter) (now : ℕ) (key : String) (b : Bucket)
    → Dict.get l.buckets key ≡ some b
    → bucket_of l now key ≡ b
unfolding bucket_of
bucket_known l now key b h = ground arith

-- The checks of one key are those of its bucket.
check_all-checks :
    (key : String) (l : Limiter) (b : Bucket) (times : List ℕ)
    → Dict.get l.buckets key ≡ some b
    → (check_all key times l).1 ≡ (checks l.qps b times).1
unfolding check_all check_rate_limit
check_all-checks key l b [] h = refl
check_all-checks key l b (now ∷ times) h = rw (bucket_known l now key b h) (
    ap (λ (bs : List Bool). (take_token (refill l.qps now b)).1 ∷ bs)
      (check_all-checks key
        (record l { buckets = Dict.put l.buckets key (take_token (refill l.qps now b)).0 })
        (take_token (refill l.qps now b)).0 times
        (get-put_self l.buckets key (take_token (refill l.qps now b)).0)))

-- The same where the first check makes the bucket.
check_all-checks_first :
    (key : String) (l : Limiter) (now : ℕ) (times : List ℕ)
    → (check_all key (now ∷ times) l).1 ≡ (checks l.qps (bucket_of l now key) (now ∷ times)).1
unfolding check_all check_rate_limit
check_all-checks_first key l now times =
    let b = (take_token (refill l.qps now (bucket_of l now key))).0 in
    ap (λ (bs : List Bool). (take_token (refill l.qps now (bucket_of l now key))).1 ∷ bs)
      (check_all-checks key (record l { buckets = Dict.put l.buckets key b }) b times
        (get-put_self l.buckets key b))

-- Of any checks of one key one after the other, at times that do not go back, the limiter lets
-- through at most `qps` requests, and `qps` more for each second from the first of these checks to
-- the last. What the bucket of the key held before, if there was one, and for how long it had not
-- been used, does not matter.
pub check_all_bound :
    (key : String) (l : Limiter) (now : ℕ) (times : List ℕ)
    → IsClock now times
    → one * allowed_count (check_all key (now ∷ times) l).1
      ≤ l.qps * one + (last_time now times - now) * l.qps
check_all_bound key l now times clock =
    rw (check_all-checks_first key l now times)
      (checks_first l.qps now (bucket_of l now key) times clock)

take_token_le : (b : Bucket) → (take_token b).0.tokens ≤ b.tokens
unfolding take_token
take_token_le b = ground arith

-- A check leaves every other key's bucket as it was, and its own with at most `qps` tokens, updated
-- at the time of the check.
pub check_rate_limit_bucket :
    (now : ℕ) (key other : String) (l : Limiter)
    → key ≢ other
    → let l1 = (check_rate_limit now key l).0 in
      (Dict.get l1.buckets other ≡ Dict.get l.buckets other)
      × ((b : Bucket) × (Dict.get l1.buckets key ≡ some b)
          × (b.tokens ≤ l.qps * one)
          × (b.last_update ≡ now))
unfolding check_rate_limit
check_rate_limit_bucket now key other l ne =
    let b = refill l.qps now (bucket_of l now key) in
    (
      ground (arith, eq_iff key other, get-put l.buckets key other (take_token b).0),
      (
        (take_token b).0,
        get-put_self l.buckets key (take_token b).0,
        omega (arith, take_token_le b, refill_cap l.qps now (bucket_of l now key)),
        take_token_time b ∙ refill_time l.qps now (bucket_of l now key),
      ),
    )

refill_enough :
    (qps now : ℕ) (b : Bucket)
    → 1 ≤ qps
    → one ≤ b.tokens + (now - b.last_update) * qps
    → one ≤ (refill qps now b).tokens
unfolding refill
refill_enough qps now b positive h = omega (arith, positive, h)

refill_new : (qps now : ℕ) → 1 ≤ qps → one ≤ (refill qps now (new_bucket qps now)).tokens
unfolding new_bucket
refill_new qps now positive =
    refill_enough qps now (new_bucket qps now) positive (omega (arith, positive))

refill_rested :
    (qps now : ℕ) (b : Bucket)
    → 1 ≤ qps
    → b.last_update + one ≤ now
    → one ≤ (refill qps now b).tokens
refill_rested qps now b positive h =
    let full : one * 1 ≤ (now - b.last_update) * qps =
      mul-le-mul {n₁ = one} {m₁ = 1} {n₂ = now - b.last_update} {m₂ = qps} (omega (arith, h))
        positive in
    refill_enough qps now b positive (omega (arith, full))

bucket_unknown :
    (l : Limiter) (now : ℕ) (key : String)
    → Dict.get l.buckets key ≡ none
    → bucket_of l now key ≡ new_bucket l.qps now
unfolding bucket_of
bucket_unknown l now key h = ground arith

-- With a limit of at least one request a second, a key that has not been checked for a second, or
-- never, is let through.
pub check_after_second :
    (now : ℕ) (key : String) (l : Limiter)
    → 1 ≤ l.qps
    → ((b : Bucket) → Dict.get l.buckets key ≡ some b → b.last_update + one ≤ now)
    → (check_rate_limit now key l).1 ≡ true
unfolding check_rate_limit
check_after_second now key l positive rested =
    take_token_full (refill l.qps now (bucket_of l now key))
      (elim (Option-cases (Dict.get l.buckets key)) [
        | inl e ↦ rw (bucket_unknown l now key e) (refill_new l.qps now positive)
        | inr (b, e) ↦
            rw (bucket_known l now key b e) (refill_rested l.qps now b positive (rested b e))
      ])
