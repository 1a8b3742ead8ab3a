-- ===== src/Approval/Overdue/Listed.antt =====
-- Every pending ticket in memory is among those that `list_pending_tickets` returns.
use agdd.Prelude.{
  swap_first, keep_head, String, ◌≡◌, ◌≢◌, refl, sym, ap, subst, ◌∙◌, true, ◌&&◌, if◌then◌else◌,
  none, some, List, [], ◌∷◌, map, Memᴰ, arith, All, leb, str_eq, eq_iff, Bool-cases, Option-cases,
  inl, inr,
}
use agdd.Dict
use agdd.Dict.{Dict, All-get, get-put, get-put_self}
use agdd.Dict.Distinct.{Absent, Distinct, HasDistinctKeys}
use agdd.Approval.Ticket.{pending, is_pending, Ticket, TicketRecord, ticket_from_record}
use agdd.Approval.Gate.{Outside, Backend, Gate}
use agdd.Approval.Sweep.{
  pending_in_memory, add_stored, insert_by_request, sort_by_request, list_pending_tickets,
}

-- The tickets stand under their own identifiers.
abbrev pub AllKeyed : List (String × Ticket) → Type 0
AllKeyed = All (λ (e : String × Ticket). e.1.ticket_id ≡ e.0)

abbrev keys_of : List (String × Ticket) → List String
keys_of = map (λ (e : String × Ticket). e.0)

pending_in_memory_other :
    (id : String) (l : List (String × Ticket)) (found : Dict Ticket)
    → AllKeyed l
    → Absent id (keys_of l)
    → Dict.get (pending_in_memory none none l found) id ≡ Dict.get found id
unfolding pending_in_memory
pending_in_memory_other id [] found h a = refl
pending_in_memory_other id ((k, u) ∷ l) found h a =
    let apart : u.ticket_id ≢ id = λ e. a (Memᴰ.head (sym e ∙ h.0)) in
    pending_in_memory_other id l _ h.1 (λ m. a (Memᴰ.tail m))
    ∙ ground (arith, get-put found u.ticket_id id u, eq_iff u.ticket_id id, apart)

put_pending :
    (u : Ticket) (found : Dict Ticket)
    → u.status ≡ pending
    → Dict.get
        (if is_pending u.status && true then Dict.put found u.ticket_id u else found)
        u.ticket_id
      ≡ some u
put_pending u found p = ground (arith, get-put_self found u.ticket_id u)

pending_in_memory_has :
    (id : String) (t : Ticket) (l : List (String × Ticket)) (found : Dict Ticket)
    → AllKeyed l
    → Distinct (keys_of l)
    → t.status ≡ pending
    → Memᴰ (id, t) l
    → Dict.get (pending_in_memory none none l found) id ≡ some t
unfolding pending_in_memory
pending_in_memory_has id t [] found h d p m = elim m [ ]
pending_in_memory_has id t ((k, u) ∷ l) found h d p (Memᴰ.head q) =
    subst
      (λ (e : String × Ticket).
        Dict.get (pending_in_memory none none ((k, u) ∷ l) found) e.0 ≡ some e.1)
      (sym q)
      (pending_in_memory_other k l
          (if is_pending u.status && true then Dict.put found u.ticket_id u else found) h.1 d.0
        ∙ subst
            (λ i.
              Dict.get (if is_pending u.status && true then Dict.put found u.ticket_id u else found)
                i
              ≡ some u)
            h.0 (put_pending u found (subst (λ (e : String × Ticket). e.1.status ≡ pending) q p)))
pending_in_memory_has id t ((k, u) ∷ l) found h d p (Memᴰ.tail m) =
    pending_in_memory_has id t l _ h.1 d.1 p m

abbrev add_one : TicketRecord → Dict Ticket → Dict Ticket
add_one r found = elim (Dict.get found r.ticket_id) [
  | none ↦ Dict.put found r.ticket_id (ticket_from_record r)
  | some _ ↦ found
]

add_one_keeps :
    (id : String) (t : Ticket) (r : TicketRecord) (found : Dict Ticket)
    → Dict.get found id ≡ some t
    → Dict.get (add_one r found) id ≡ some t
add_one_keeps id t r found h = elim (Bool-cases (str_eq r.ticket_id id)) [
  | inl e ↦
      let known : Dict.get found r.ticket_id ≡ some t =
        subst (λ i. Dict.get found i ≡ some t) (sym ((eq_iff r.ticket_id id).0 e)) h in
      ground (arith, known)
  | inr e ↦ ground (arith, get-put found r.ticket_id id (ticket_from_record r))
]

add_stored_keeps :
    (id : String) (t : Ticket) (rs : List TicketRecord) (found : Dict Ticket)
    → Dict.get found id ≡ some t
    → Dict.get (add_stored rs found) id ≡ some t
unfolding add_stored
add_stored_keeps id t [] found h = h
add_stored_keeps id t (r ∷ rs) found h =
    add_stored_keeps id t rs (add_one r found) (add_one_keeps id t r found h)

insert_by_request_has :
    (t u : Ticket) (l : List Ticket) → Memᴰ t (u ∷ l) → Memᴰ t (insert_by_request u l)
unfolding insert_by_request
insert_by_request_has t u [] m = m
insert_by_request_has t u (v ∷ l) m = elim (Bool-cases (leb u.requested_at v.requested_at)) [
  | inl e ↦ rw e m
  | inr e ↦ rw e (keep_head (λ q. insert_by_request_has t u l q) (swap_first m))
]

sort_by_request_has :
    (id : String) (t : Ticket) (l : List (String × Ticket))
    → Memᴰ (id, t) l
    → Memᴰ t (sort_by_request l)
unfolding sort_by_request
sort_by_request_has id t [] m = elim m [ ]
sort_by_request_has id t ((k, u) ∷ l) (Memᴰ.head q) =
    insert_by_request_has t u (sort_by_request l) (Memᴰ.head (ap (λ (e : String × Ticket). e.1) q))
sort_by_request_has id t ((k, u) ∷ l) (Memᴰ.tail m) =
    insert_by_request_has t u (sort_by_request l) (Memᴰ.tail (sort_by_request_has id t l m))

All-entries :
    (l m : List (String × Ticket))
    → ((e : String × Ticket) → Memᴰ e l → Memᴰ e m)
    → All (λ (e : String × Ticket). Memᴰ e m) l
All-entries [] m f = tt
All-entries (e ∷ l) m f = (f e (Memᴰ.head refl), All-entries l m (λ x q. f x (Memᴰ.tail q)))

-- What is read at a key is one of the entries.
entry_of :
    (d : Dict Ticket) (id : String) (t : Ticket)
    → Dict.get d id ≡ some t
    → Memᴰ (id, t) (Dict.items d)
entry_of d id t h =
    All-get (λ (e : String × Ticket). Memᴰ e (Dict.items d)) d id
      (All-entries (Dict.items d) (Dict.items d) (λ e q. q)) h

module _ {S : Type 0} (b : Backend S) (out : Outside) where
  pub list_pending_has :
      (id : String) (t : Ticket) (g : Gate S)
      → AllKeyed (Dict.items g.tickets)
      → HasDistinctKeys g.tickets
      → t.status ≡ pending
      → Dict.get g.tickets id ≡ some t
      → Memᴰ t (list_pending_tickets b out none none g).1
  unfolding list_pending_tickets
  list_pending_has id t g keyed distinct p h = elim (Option-cases g.ticket_store) [
    | inl e ↦ rw e (sort_by_request_has id t (Dict.items found) (entry_of found id t here))
    | inr (s, e) ↦ rw e (elim (Option-cases (b.list_approval_tickets s none none).0) [
      | inl e' ↦ rw e' (sort_by_request_has id t (Dict.items found) (entry_of found id t here))
      | inr (rs, e') ↦ rw e' (
          sort_by_request_has id t (Dict.items (add_stored rs found))
            (entry_of (add_stored rs found) id t (add_stored_keeps id t rs found here)))
    ])
  ]
    where
      found : Dict Ticket
      found = pending_in_memory none none (Dict.items g.tickets) Dict.empty

      here : Dict.get found id ≡ some t
      here =
          pending_in_memory_has id t (Dict.items g.tickets) Dict.empty keyed distinct.distinct p
            (entry_of g.tickets id t h)
