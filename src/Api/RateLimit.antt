-- ===== src/Api/RateLimit.antt =====
-- The token bucket of src/magsag/api/rate_limit.py. Time is in microseconds and tokens in
-- millionths, so that `elapsed * qps` is exact. The clock does not run backwards between two checks
-- of one key. An exception 429 is the answer `false`.
use agdd.Prelude.{
  ℕ, ◌+◌, ◌-◌, ◌*◌, min, String, Bool, true, false, Option, none, some, List, [], ◌∷◌, leb,
  if◌then◌else◌, str_eq,
}
use agdd.Dict
use agdd.Dict.{Dict}

pub record Bucket : Type 0 where
  pub tokens : ℕ
  pub last_update : ℕ

pub record Limiter : Type 0 where
  pub qps : ℕ
  pub buckets : Dict Bucket

-- One token, and one second.
abbrev pub one : ℕ
one = 1000000

-- The `defaultdict`'s factory.
unfoldable pub new_bucket : ℕ → ℕ → Bucket
new_bucket qps now = record { tokens = qps * one; last_update = now }

unfoldable pub bucket_of : Limiter → ℕ → String → Bucket
bucket_of l now key = elim (Dict.get l.buckets key) [ none ↦ new_bucket l.qps now | some b ↦ b ]

unfoldable pub refill : ℕ → ℕ → Bucket → Bucket
refill qps now b = record {
  tokens = min (qps * one) (b.tokens + (now - b.last_update) * qps);
  last_update = now;
}

-- A token is taken if there is one.
unfoldable pub take_token : Bucket → Bucket × Bool
take_token b = if leb one b.tokens then (record b { tokens = b.tokens - one }, true) else (b, false)

unfoldable pub check_rate_limit : ℕ → String → Limiter → Limiter × Bool
check_rate_limit now key l =
    let (b, allowed) = take_token (refill l.qps now (bucket_of l now key)) in
    (record l { buckets = Dict.put l.buckets key b }, allowed)

-- The checks of one key, one after the other.
unfoldable pub check_all : String → List ℕ → Limiter → Limiter × List Bool
check_all key [] l = (l, [])
check_all key (now ∷ times) l =
    let (l1, allowed) = check_rate_limit now key l in
    let (l2, rest) = check_all key times l1 in (l2, allowed ∷ rest)

-- `authorization`, from the first space on.
unfoldable pub credential : Option String → Option String → Option String → String
credential api_key bearer host = elim (given api_key) [
  | some k ↦ k
  | none ↦ elim (given bearer) [ some k ↦ k | none ↦ elim host [ some h ↦ h | none ↦ "unknown" ] ]
]
  where
    given : Option String → Option String
    given none = none
    given (some s) = if str_eq s "" then none else some s
