-- ===== src/Examples/ApiCalls.antt =====
-- Requests through the middleware and the token bucket.
use agdd.Prelude.{
  ℕ, ◌+◌, ◌*◌, ◌-◌, ◌≤◌, String, ◌≡◌, ◌≢◌, refl, true, false, none, some, [], ◌∷◌, arith,
  if◌then◌else◌, str_eq, eq_iff,
}
use agdd.Text.{lower, occurs_in}
use agdd.Dict
use agdd.Dict.{Dict, get-empty, get-put_self}
use agdd.Dict.Distinct.{empty-HasDistinctKeys}
use agdd.Api.RateLimit.{Bucket, Limiter, one, check_rate_limit, check_all}
use agdd.Api.RateBound.{allowed_count, last_time, check_all_bound}
use agdd.Api.Idempotency.{
  Request, Entry, Middleware, App, idempotency_key, scoped_key, header, given, is_cached,
  is_streaming, conflict, replay, dispatch,
}
use agdd.Api.Replay.{dispatch_replays}

abbrev full : Bucket
full = record { tokens = 2 * one; last_update = 0 }

abbrev limiter : Limiter
limiter = record { qps = 2; buckets = Dict.put Dict.empty "ann" full }

-- A burst of four requests of a key with two tokens.
burst : (check_all "ann" (1 ∷ 2 ∷ 3 ∷ 4 ∷ []) limiter).1 ≡ true ∷ true ∷ false ∷ false ∷ []
unfolding check_all check_rate_limit agdd.Api.RateLimit.take_token agdd.Api.RateLimit.refill
    agdd.Api.RateLimit.bucket_of Dict.get Dict.put Dict.empty
burst = refl

check_all_bound_example :
    one * allowed_count (check_all "ann" (9000000 ∷ 9000001 ∷ 9000002 ∷ 9000003 ∷ []) limiter).1
    ≤ limiter.qps * one
      + (last_time 9000000 (9000001 ∷ 9000002 ∷ 9000003 ∷ []) - 9000000) * limiter.qps
check_all_bound_example =
    check_all_bound "ann" limiter 9000000 (9000001 ∷ 9000002 ∷ 9000003 ∷ [])
      (omega arith, (omega arith, (omega arith, tt)))

abbrev ann : String
ann = "ann"

abbrev bob : String
bob = "bob"

ann_ne_bob : ann ≢ bob
ann_ne_bob e = cc ((eq_iff ann bob).1 e)

abbrev idle : Limiter
idle = record { qps = 2; buckets = Dict.empty }

never_checked : (b : Bucket) → Dict.get idle.buckets bob ≡ some b → b.last_update + one ≤ 7
never_checked b h = absurd (ground (arith, get-empty {V = Bucket} bob))

-- An application that counts its calls, and answers with a length or without one.
abbrev counting : String → App ℕ
counting length_header = record {
  sha256 = λ body. body;
  json_key = λ body. none;
  call_next =
      λ n r. (record { status = 201; headers = (length_header, "2") ∷ []; body = "ok" }, n + 1);
}

abbrev create_run : String → Request
create_run body = record {
  method = "POST";
  path = "/runs";
  headers = ("idempotency-key", "k1") ∷ [];
  body = body;
}

abbrev middleware : Middleware
middleware = record {
  store = Dict.empty;
  ttl = 86400000000;
  locks = [];
  request_count = 0;
  cleanup_interval = 1000;
}

keyed_by : (name body : String) → idempotency_key (counting name) (create_run body) ≡ some "k1"
unfolding idempotency_key header given
keyed_by name body = refl

dispatch_replays_example :
    let (m1, w1, first) = dispatch (counting "content-length") 1 2 (create_run "a") middleware 0 in
    ((dispatch (counting "content-length") 3 4 (create_run "b") m1 w1).1 ≡ w1)
    × ((dispatch (counting "content-length") 3 4 (create_run "b") m1 w1).2
        ≡ (if str_eq "a" "b" then replay first else conflict))
unfolding is_cached is_streaming header occurs_in lower
dispatch_replays_example =
    dispatch_replays (counting "content-length") 1 2 3 4 "k1" (create_run "a") (create_run "b")
      middleware 0 refl refl refl (keyed_by "content-length" "a") (keyed_by "content-length" "b")
      (empty-HasDistinctKeys {V = Entry}) (get-empty {V = Entry} (scoped_key (create_run "a") "k1"))
      refl (omega arith)
