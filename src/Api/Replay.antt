-- ===== src/Api/Replay.antt =====
-- What the middleware promises on a second request with one key.
use agdd.Prelude.{
  ℕ, ◌+◌, ◌≤◌, String, ◌≡◌, refl, sym, ap, subst, ◌∙◌, true, false, none, some, arith, str_eq,
  if◌then◌else◌, eq_iff,
}
use agdd.Dict
use agdd.Dict.{Dict, get-put_self, get-remove}
use agdd.Dict.Distinct.{HasDistinctKeys, put-HasDistinctKeys}
use agdd.Api.Idempotency.{
  Request, Response, Entry, Middleware, App, is_expired_at, store_get, store_set, count_request,
  scoped_key, idempotency_key, conflict, replay, is_cached, add_lock, run_request, dispatch_keyed,
  dispatch,
}
use agdd.Api.Cleanup.{ttl-count_request, count_live, count_none, count-HasDistinctKeys}

same_key :
    (key : String) (r q : Request)
    → q.method ≡ r.method
    → q.path ≡ r.path
    → scoped_key q key ≡ scoped_key r key
unfolding scoped_key
same_key key r q h k = cc (h, k)

module _ {W : Type 0} (app : App W) where
  -- The entry that a request leaves.
  abbrev pub entry_of : ℕ → Request → Response → Entry
  entry_of now r response = record {
    request_hash = app.sha256 r.body;
    response = response;
    timestamp = now;
  }

  keyed_new :
      (started ended : ℕ) (key : String) (r : Request) (m : Middleware) (w : W)
      → Dict.get m.store key ≡ none
      → dispatch_keyed app started ended key r m w ≡ run_request app ended key r m w
  unfolding dispatch_keyed store_get
  keyed_new started ended key r m w h = ground arith

  keyed_known :
      (started ended : ℕ) (key : String) (r : Request) (e : Entry) (m : Middleware) (w : W)
      → Dict.get m.store key ≡ some e
      → is_expired_at started m.ttl e ≡ false
      → ((dispatch_keyed app started ended key r m w).1 ≡ w)
        × ((dispatch_keyed app started ended key r m w).2
            ≡ (if str_eq e.request_hash (app.sha256 r.body) then replay e.response else conflict))
  unfolding dispatch_keyed store_get
  keyed_known started ended key r e m w h live = (ground arith, ground arith)

  dispatch_post :
      (started ended : ℕ) (key : String) (r : Request) (m : Middleware) (w : W)
      → r.method ≡ "POST"
      → idempotency_key app r ≡ some key
      → dispatch app started ended r m w
        ≡ dispatch_keyed app started ended
            (scoped_key r key)
            r
            (add_lock (scoped_key r key) (count_request started m))
            w
  unfolding dispatch
  dispatch_post started ended key r m w post keyed = ground (arith, eq_iff r.method "POST")

  store-add_lock : (key : String) (m : Middleware) → (add_lock key m).store ≡ m.store
  unfolding add_lock
  store-add_lock key m = refl

  ttl-add_lock : (key : String) (m : Middleware) → (add_lock key m).ttl ≡ m.ttl
  unfolding add_lock
  ttl-add_lock key m = refl

  -- A request whose key is new: the application is called, and what it answers is stored if it may be.
  dispatch_new :
      (started ended : ℕ) (key : String) (r : Request) (m : Middleware) (w : W)
      → r.method ≡ "POST"
      → idempotency_key app r ≡ some key
      → Dict.get m.store (scoped_key r key) ≡ none
      → dispatch app started ended r m w
        ≡ run_request app ended
            (scoped_key r key)
            r
            (add_lock (scoped_key r key) (count_request started m))
            w
  dispatch_new started ended key r m w post keyed new =
      dispatch_post started ended key r m w post keyed
      ∙ keyed_new started ended (scoped_key r key) r
          (add_lock (scoped_key r key) (count_request started m)) w
          (ap (λ (d : Dict Entry). Dict.get d (scoped_key r key))
              (store-add_lock (scoped_key r key) (count_request started m))
            ∙ count_none started (scoped_key r key) m new)

  -- A request whose key has a live entry: the application is not called.
  pub dispatch_known :
      (started ended : ℕ) (key : String) (r : Request) (e : Entry) (m : Middleware) (w : W)
      → r.method ≡ "POST"
      → idempotency_key app r ≡ some key
      → HasDistinctKeys m.store
      → Dict.get m.store (scoped_key r key) ≡ some e
      → is_expired_at started m.ttl e ≡ false
      → ((dispatch app started ended r m w).1 ≡ w)
        × ((dispatch app started ended r m w).2
            ≡ (if str_eq e.request_hash (app.sha256 r.body) then replay e.response else conflict))
  dispatch_known started ended key r e m w post keyed distinct known live =
      rw (dispatch_post started ended key r m w post keyed) (
        keyed_known started ended (scoped_key r key) r e
          (add_lock (scoped_key r key) (count_request started m)) w
          (ap (λ (d : Dict Entry). Dict.get d (scoped_key r key))
              (store-add_lock (scoped_key r key) (count_request started m))
            ∙ count_live started (scoped_key r key) m e distinct known live)
          (ap (λ (t : ℕ). is_expired_at started t e)
              (ttl-add_lock (scoped_key r key) (count_request started m)
                ∙ ttl-count_request started (scoped_key r key) m)
            ∙ live))

  run_stores :
      (now : ℕ) (key : String) (r : Request) (m : Middleware) (w : W)
      → is_cached (app.call_next w r).0 ≡ true
      → run_request app now key r m w ≡ (
        store_set now key (app.sha256 r.body) (app.call_next w r).0 m,
        (app.call_next w r).1,
        (app.call_next w r).0,
      )
  unfolding run_request
  run_stores now key r m w h = rw h refl

  run_skips :
      (now : ℕ) (key : String) (r : Request) (m : Middleware) (w : W)
      → is_cached (app.call_next w r).0 ≡ false
      → run_request app now key r m w ≡ (m, (app.call_next w r).1, (app.call_next w r).0)
  unfolding run_request
  run_skips now key r m w h = rw h refl

  run_answers :
      (now : ℕ) (key : String) (r : Request) (m : Middleware) (w : W)
      → ((run_request app now key r m w).1 ≡ (app.call_next w r).1)
        × ((run_request app now key r m w).2 ≡ (app.call_next w r).0)
  unfolding run_request
  run_answers now key r m w = (ground arith, ground arith)

  stored_known :
      (now again finished : ℕ) (key : String) (r q : Request) (response : Response) (m : Middleware)
      (w : W)
      → q.method ≡ "POST"
      → idempotency_key app q ≡ some key
      → scoped_key q key ≡ scoped_key r key
      → HasDistinctKeys m.store
      → again ≤ now + m.ttl
      → let m1 = store_set now (scoped_key r key) (app.sha256 r.body) response m in
        ((dispatch app again finished q m1 w).1 ≡ w)
        × ((dispatch app again finished q m1 w).2 ≡ (
            if str_eq (app.sha256 r.body) (app.sha256 q.body) then replay response else conflict))
  unfolding store_set
  stored_known now again finished key r q response m w post keyed same distinct soon =
      dispatch_known again finished key q (entry_of now r response)
        (store_set now (scoped_key r key) (app.sha256 r.body) response m) w post keyed
        (put-HasDistinctKeys m.store (scoped_key r key) (entry_of now r response) distinct)
        (subst
          (λ k.
            Dict.get (Dict.put m.store (scoped_key r key) (entry_of now r response)) k
            ≡ some (entry_of now r response))
          (sym same) (get-put_self m.store (scoped_key r key) (entry_of now r response)))
        (unfold is_expired_at in ground (arith, soon))

  -- After a POST request with a new idempotency key whose answer may be stored, a second POST request
  -- to the same path with the same key, within the time to live, does not reach the application. If
  -- its body has the same hash, it gets the stored answer with the replay header, and otherwise a
  -- conflict. The cleanups of both requests are included; no key of the store stands twice.
  pub dispatch_replays :
      (started ended again finished : ℕ) (key : String) (r q : Request) (m : Middleware) (w : W)
      → r.method ≡ "POST"
      → q.method ≡ "POST"
      → q.path ≡ r.path
      → idempotency_key app r ≡ some key
      → idempotency_key app q ≡ some key
      → HasDistinctKeys m.store
      → Dict.get m.store (scoped_key r key) ≡ none
      → is_cached (app.call_next w r).0 ≡ true
      → again ≤ ended + m.ttl
      → let (m1, w1, first) = dispatch app started ended r m w in
        ((dispatch app again finished q m1 w1).1 ≡ w1)
        × ((dispatch app again finished q m1 w1).2
            ≡ (if str_eq (app.sha256 r.body) (app.sha256 q.body) then replay first else conflict))
  dispatch_replays started ended again finished key r q m w post post' path keyed keyed' distinct
        new cached soon =
      rw
        (dispatch_new started ended key r m w post keyed new
          ∙ run_stores ended (scoped_key r key) r
              (add_lock (scoped_key r key) (count_request started m)) w cached)
        (stored_known ended again finished key r q (app.call_next w r).0
          (add_lock (scoped_key r key) (count_request started m)) (app.call_next w r).1 post' keyed'
          (same_key key r q (post' ∙ sym post) path)
          (subst HasDistinctKeys (sym (store-add_lock (scoped_key r key) (count_request started m)))
            (count-HasDistinctKeys started (scoped_key r key) m distinct))
          (subst (λ t. again ≤ ended + t)
            (sym (
              ttl-add_lock (scoped_key r key) (count_request started m)
              ∙ ttl-count_request started (scoped_key r key) m))
            soon))

  -- After a POST request with a new key whose answer may not be stored, since it failed or streams,
  -- the key is still new: the same request reaches the application again.
  pub dispatch_retries :
      (started ended again finished : ℕ) (key : String) (r : Request) (m : Middleware) (w : W)
      → r.method ≡ "POST"
      → idempotency_key app r ≡ some key
      → Dict.get m.store (scoped_key r key) ≡ none
      → is_cached (app.call_next w r).0 ≡ false
      → let (m1, w1, first) = dispatch app started ended r m w in
        ((dispatch app again finished r m1 w1).1 ≡ (app.call_next w1 r).1)
        × ((dispatch app again finished r m1 w1).2 ≡ (app.call_next w1 r).0)
  dispatch_retries started ended again finished key r m w post keyed new uncached =
      let m1 = add_lock (scoped_key r key) (count_request started m) in
      rw
        (dispatch_new started ended key r m w post keyed new
          ∙ run_skips ended (scoped_key r key) r m1 w uncached)
        (rw
          (dispatch_new again finished key r m1 (app.call_next w r).1 post keyed (
            ap (λ (d : Dict Entry). Dict.get d (scoped_key r key))
              (store-add_lock (scoped_key r key) (count_request started m))
            ∙ count_none started (scoped_key r key) m new))
          (run_answers finished (scoped_key r key) r
            (add_lock (scoped_key r key) (count_request again m1)) (app.call_next w r).1))
