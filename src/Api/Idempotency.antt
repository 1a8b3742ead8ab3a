-- ===== src/Api/Idempotency.antt =====
-- The idempotency middleware, src/magsag/api/middleware/idempotency.py. Bodies, header names and
-- header values are texts, and header names are in lower case, as ASGI has them. SHA-256, the key in
-- a JSON body and the application are parameters. One request is dispatched at a time, so no lock is
-- held between two of them.
use Prim.Native.String.{◌++◌ as append}
use agdd.Prelude.{
  ℕ, ◌+◌, ◌-◌, ◌%◌, String, Bool, true, false, not, ◌&&◌, ◌||◌, Option, none, some, List, [], ◌∷◌,
  ◌++◌, leb, ltb, ◌==◌, if◌then◌else◌, str_eq, get_or,
}
use agdd.Dict
use agdd.Dict.{Dict}
use agdd.Text.{codes, lower, occurs_in}
use agdd.Approval.Gate.{contains}

abbrev pub Headers : Type 0
Headers = List (String × String)

pub record Request : Type 0 where
  pub method : String
  pub path : String
  pub headers : Headers
  pub body : String

pub record Response : Type 0 where
  pub status : ℕ
  pub headers : Headers
  pub body : String

-- A tuple of `_store`.
pub record Entry : Type 0 where
  pub request_hash : String
  pub response : Response
  pub timestamp : ℕ

pub record Middleware : Type 0 where
  pub store : Dict Entry
  pub ttl : ℕ
  pub locks : List String
  pub request_count : ℕ
  pub cleanup_interval : ℕ

-- The application behind the middleware, on a state `W`, and what the standard library computes of a
-- body.
pub record App (W : Type 0) : Type 0 where
  pub sha256 : String → String
  pub json_key : String → Option String
  pub call_next : W → Request → Response × W

-- headers.get(name)
unfoldable pub header : String → Headers → Option String
header name [] = none
header name ((n, v) ∷ l) = if str_eq n name then some v else header name l

-- A text, where there is one and it has a character.
unfoldable pub given : Option String → Option String
given none = none
given (some s) = if str_eq s "" then none else some s

unfoldable pub is_expired_at : ℕ → ℕ → Entry → Bool
is_expired_at now ttl e = ltb ttl (now - e.timestamp)

-- `IdempotencyStore.get`: an expired entry is deleted.
unfoldable pub store_get : ℕ → String → Middleware → Middleware × Option Entry
store_get now key m = elim (Dict.get m.store key) [
  | none ↦ (m, none)
  | some e ↦
      if is_expired_at now m.ttl e
      then (record m { store = Dict.remove m.store key }, none)
      else (m, some e)
]

-- `IdempotencyStore.set`
unfoldable pub store_set : ℕ → String → String → Response → Middleware → Middleware
store_set now key hash response m = record m {
  store =
      Dict.put m.store key (record { request_hash = hash; response = response; timestamp = now });
}

unfoldable pub expired_keys : ℕ → ℕ → List (String × Entry) → List String
expired_keys now ttl [] = []
expired_keys now ttl ((k, e) ∷ l) =
    let rest = expired_keys now ttl l in if is_expired_at now ttl e then k ∷ rest else rest

unfoldable pub delete_keys : List String → Dict Entry → Dict Entry
delete_keys [] d = d
delete_keys (k ∷ ks) d = delete_keys ks (Dict.remove d k)

unfoldable pub cleanup_expired : ℕ → Middleware → Middleware
cleanup_expired now m = record m {
  store = delete_keys (expired_keys now m.ttl (Dict.items m.store)) m.store;
}

-- `_cleanup_locks`: a lock stays if its key is in the store.
unfoldable pub live_locks : Dict Entry → List String → List String
live_locks d [] = []
live_locks d (k ∷ ks) =
    let rest = live_locks d ks in elim (Dict.get d k) [ none ↦ rest | some _ ↦ k ∷ rest ]

-- The count of the request, and the cleanup at every `cleanup_interval`-th.
unfoldable pub count_request : ℕ → Middleware → Middleware
count_request now m =
    let m1 : Middleware = record m { request_count = m.request_count + 1 } in
    if (m1.request_count % m1.cleanup_interval) == 0
    then (let m2 = cleanup_expired now m1 in record m2 { locks = live_locks m2.store m2.locks })
    else m1

unfoldable pub is_streaming : Headers → Bool
is_streaming headers =
    let content_type = codes (get_or (header "content-type" headers) "") in
    let has_length : Bool = elim (header "content-length" headers) [
      | none ↦ false
      | some _ ↦ true
    ] in
    let is_chunked =
      occurs_in (codes "chunked")
        (lower (codes (get_or (header "transfer-encoding" headers) ""))) in
    if occurs_in (codes "text/event-stream") content_type
      || occurs_in (codes "application/x-ndjson") content_type
    then true
    else if not has_length && is_chunked
    then true
    else not has_length

-- f"{method}:{path}:{key}"
unfoldable pub scoped_key : Request → String → String
scoped_key r key = append r.method (append ":" (append r.path (append ":" key)))

-- The header before the body.
unfoldable pub idempotency_key : {W : Type 0} → App W → Request → Option String
idempotency_key app r = elim (given (header "idempotency-key" r.headers)) [
  | some k ↦ some k
  | none ↦ given (app.json_key r.body)
]

abbrev pub conflict : Response
conflict = record {
  status = 409;
  headers = ("content-type", "application/json") ∷ [];
  body = "Idempotency key already used with different request body";
}

-- The stored response, with the replay header last.
unfoldable pub replay : Response → Response
replay r = record r { headers = r.headers ++ (("x-idempotency-replay", "true") ∷ []) }

abbrev pub is_success : ℕ → Bool
is_success status = leb 200 status && ltb status 300

unfoldable pub is_cached : Response → Bool
is_cached r = is_success r.status && not (is_streaming r.headers)

unfoldable pub add_lock : String → Middleware → Middleware
add_lock key m = record m { locks = if contains key m.locks then m.locks else key ∷ m.locks }

module _ {W : Type 0} (app : App W) where
  -- The call of the application, whose answer is stored if it may be.
  unfoldable pub run_request : ℕ → String → Request → Middleware → W → Middleware × W × Response
  run_request now key r m w =
      let (response, w1) = app.call_next w r in
      if is_cached response
      then (store_set now key (app.sha256 r.body) response m, w1, response)
      else (m, w1, response)

  -- The part under the lock of the key. `started` is when the request came, `ended` when the
  -- application answered.
  unfoldable pub dispatch_keyed :
      ℕ → ℕ → String → Request → Middleware → W → Middleware × W × Response
  dispatch_keyed started ended key r m w =
      let (m1, stored) = store_get started key m in
      elim stored [
        | none ↦ run_request ended key r m1 w
        | some e ↦
            if str_eq e.request_hash (app.sha256 r.body)
            then (m1, w, replay e.response)
            else (m1, w, conflict)
      ]

  unfoldable pub dispatch : ℕ → ℕ → Request → Middleware → W → Middleware × W × Response
  dispatch started ended r m w =
      let m1 = count_request started m in
      if str_eq r.method "POST"
      then elim (idempotency_key app r) [
        | none ↦ (let (response, w1) = app.call_next w r in (m1, w1, response))
        | some key ↦
            dispatch_keyed started ended (scoped_key r key) r (add_lock (scoped_key r key) m1) w
      ]
      else (let (response, w1) = app.call_next w r in (m1, w1, response))
