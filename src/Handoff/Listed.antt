-- ===== src/Handoff/Listed.antt =====
-- The listing of the requests of handoffs.
use agdd.Prelude.{
  String, ◌≡◌, ◌≢◌, refl, sym, ◌∙◌, subst, str_eq, eq_iff, if◌then◌else◌, true, false, Option, none,
  some, List, [], ◌∷◌, arith, ap, ◌&&◌, Memᴰ, Bool-cases, inl, inr, ◌↔◌,
}
use agdd.Dict
use agdd.Dict.{Dict}
use agdd.Handoff.Request.{
  HandoffStatus, HandoffRequest, pending, in_progress, completed, failed, rejected, status_text,
}
use agdd.Handoff.Tool.{HandoffTool, wants_agent, wants_status, filtered, list_handoffs}
use agdd.Handoff.Newest.{
  IsNewestFirst, newest_first-IsNewestFirst, mem_of_newest_first, mem_to_newest_first,
}

-- The request comes from the agent that is asked for, where one is named.
abbrev pub ComesFrom : Option String → HandoffRequest → Type 0
ComesFrom none r = Unit
ComesFrom (some s) r = s ≢ "" → r.source_agent ≡ s

abbrev pub HasStatus : Option HandoffStatus → HandoffRequest → Type 0
HasStatus none r = Unit
HasStatus (some s) r = r.status ≡ s

-- A request that stands in the table, with the source and the status asked for.
abbrev pub IsWanted :
    Option String → Option HandoffStatus → List (String × HandoffRequest) → HandoffRequest → Type 0
IsWanted source_agent status l x =
    (k : String) × Memᴰ (k, x) l × ComesFrom source_agent x × HasStatus status x

wants_agent-ComesFrom :
    (a : Option String) (r : HandoffRequest) → (wants_agent a r ≡ true) ↔ ComesFrom a r
wants_agent-ComesFrom none r = (λ h. tt, λ h. refl)
wants_agent-ComesFrom (some s) r = elim (Bool-cases (str_eq s "")) [
  | inl e ↦ (λ h ne. absurd (ne ((eq_iff s "").0 e)), λ h. rw e refl)
  | inr e ↦ (
    λ h ne. (eq_iff r.source_agent s).0 (ground (arith, e, h)),
    λ h. rw e ((eq_iff r.source_agent s).1 (h (λ q. ground (arith, eq_iff s "", e, q)))),
  )
]

-- The status of a text.
status_named : String → HandoffStatus
status_named s =
    if str_eq s "pending"
    then pending
    else if str_eq s "in_progress"
    then in_progress
    else if str_eq s "completed"
    then completed
    else if str_eq s "failed"
    then failed
    else rejected

status_named-text : (s : HandoffStatus) → status_named (status_text s) ≡ s
unfolding status_named
status_named-text pending = refl
status_named-text in_progress = refl
status_named-text completed = refl
status_named-text failed = refl
status_named-text rejected = refl

wants_status-HasStatus :
    (a : Option HandoffStatus) (r : HandoffRequest) → (wants_status a r ≡ true) ↔ HasStatus a r
wants_status-HasStatus none r = (λ h. tt, λ h. refl)
wants_status-HasStatus (some s) r = (
  λ h.
      sym (status_named-text r.status)
      ∙ (ap status_named ((eq_iff (status_text r.status) (status_text s)).0 h)
          ∙ status_named-text s),
  λ h. (eq_iff (status_text r.status) (status_text s)).1 (ap status_text h),
)

module _ (source_agent : Option String) (status : Option HandoffStatus) where
  filtered_kept :
      (k : String) (r : HandoffRequest) (l : List (String × HandoffRequest))
      → wants_agent source_agent r ≡ true
      → wants_status status r ≡ true
      → filtered source_agent status ((k, r) ∷ l) ≡ r ∷ filtered source_agent status l
  unfolding filtered
  filtered_kept k r l a s = rw (a, s) refl

  filtered_dropped :
      (k : String) (r : HandoffRequest) (l : List (String × HandoffRequest))
      → (wants_agent source_agent r && wants_status status r) ≡ false
      → filtered source_agent status ((k, r) ∷ l) ≡ filtered source_agent status l
  unfolding filtered
  filtered_dropped k r l h = ground arith

  first-IsWanted :
      (x r : HandoffRequest) (k : String) (l : List (String × HandoffRequest))
      → (Memᴰ x (filtered source_agent status l) → IsWanted source_agent status l x)
      → wants_agent source_agent r ≡ true
      → wants_status status r ≡ true
      → Memᴰ x (r ∷ filtered source_agent status l)
      → IsWanted source_agent status ((k, r) ∷ l) x
  first-IsWanted x r k l later a s (Memᴰ.head p) = (
    k,
    Memᴰ.head (ap (λ q. (k, q)) p),
    (wants_agent-ComesFrom source_agent x).0
        (subst (λ q. wants_agent source_agent q ≡ true) (sym p) a),
    (wants_status-HasStatus status x).0 (subst (λ q. wants_status status q ≡ true) (sym p) s),
  )
  first-IsWanted x r k l later a s (Memᴰ.tail n) =
      let (j, m, a', s') = later n in (j, Memᴰ.tail m, a', s')

  mem_of_filtered :
      (x : HandoffRequest) (l : List (String × HandoffRequest))
      → Memᴰ x (filtered source_agent status l)
      → IsWanted source_agent status l x
  unfolding filtered
  mem_of_filtered x [] m = elim m [ ]
  mem_of_filtered x ((k, r) ∷ l) m =
      elim (Bool-cases (wants_agent source_agent r && wants_status status r)) [
        | inl e ↦
            first-IsWanted x r k l (mem_of_filtered x l) (ground arith) (ground arith)
              (subst (Memᴰ x) (filtered_kept k r l (ground arith) (ground arith)) m)
        | inr e ↦
            let (j, n, a, s) = mem_of_filtered x l (subst (Memᴰ x) (filtered_dropped k r l e) m) in
            (j, Memᴰ.tail n, a, s)
      ]

  mem_to_filtered :
      (x : HandoffRequest) (k : String) (l : List (String × HandoffRequest))
      → Memᴰ (k, x) l
      → wants_agent source_agent x ≡ true
      → wants_status status x ≡ true
      → Memᴰ x (filtered source_agent status l)
  mem_to_filtered x k [] m a s = elim m [ ]
  mem_to_filtered x k ((j, r) ∷ l) (Memᴰ.head p) a s =
      let same : x ≡ r = ap (λ (e : String × HandoffRequest). e.1) p in
      subst (Memᴰ x)
        (sym (
          filtered_kept j r l (subst (λ q. wants_agent source_agent q ≡ true) same a)
            (subst (λ q. wants_status status q ≡ true) same s)))
        (Memᴰ.head same)
  mem_to_filtered x k ((j, r) ∷ l) (Memᴰ.tail m) a s =
      let rest = mem_to_filtered x k l m a s in
      elim (Bool-cases (wants_agent source_agent r && wants_status status r)) [
        | inl e ↦
            subst (Memᴰ x) (sym (filtered_kept j r l (ground arith) (ground arith)))
              (Memᴰ.tail rest)
        | inr e ↦ subst (Memᴰ x) (sym (filtered_dropped j r l e)) rest
      ]

  -- A listing has the newest requests first, and a request is on it exactly if it stands in the table
  -- and comes from the agent asked for, unless none or the empty text is, and has the status asked
  -- for, if any.
  pub list_handoffs_exact :
      {S W : Type 0} (t : HandoffTool S W)
      → IsNewestFirst (list_handoffs source_agent status t)
        × ((x : HandoffRequest)
            → (Memᴰ x (list_handoffs source_agent status t)
                ↔ IsWanted source_agent status (Dict.items t.requests) x))
  unfolding list_handoffs
  list_handoffs_exact t =
      let l = filtered source_agent status (Dict.items t.requests) in
      (
        newest_first-IsNewestFirst l,
        λ x. (
          (λ m. mem_of_filtered x (Dict.items t.requests) (mem_of_newest_first x l m)),
          (λ w. mem_to_newest_first x l (
              mem_to_filtered x w.0 (Dict.items t.requests) w.1
                ((wants_agent-ComesFrom source_agent x).1 w.2)
                ((wants_status-HasStatus status x).1 w.3))),
        ),
      )
