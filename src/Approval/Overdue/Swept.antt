-- ===== src/Approval/Overdue/Swept.antt =====
-- The tickets in memory after `expire_old_tickets`.
use agdd.Prelude.{
  ℕ, ◌+◌, ◌<◌, String, ◌≡◌, ◌≢◌, refl, sym, ap, subst, ◌∙◌, true, false, none, some, List, [], ◌∷◌,
  Memᴰ, arith, leb, str_eq, Bool-cases, inl, inr,
}
use agdd.Dict
use agdd.Dict.{Dict, All-get, get-put, get-put_self}
use agdd.Dict.Distinct.{HasDistinctKeys}
use agdd.Value.{str, end, field}
use agdd.Approval.Ticket.{is_expired, pending, expired, Ticket}
use agdd.Approval.Gate.{Outside, Backend, Gate}
use agdd.Approval.Resolve.{resolved, resolve_ticket, expire_ticket}
use agdd.Approval.Sweep.{list_pending_tickets, expire_each, expire_old_tickets}
use agdd.Approval.Lookup.{tickets-persist}
use agdd.Approval.Overdue.Listed.{AllKeyed, list_pending_has}

module _ {S : Type 0} (b : Backend S) (out : Outside) (now : ℕ) where
  abbrev lapsed : Ticket → Ticket
  lapsed t =
      resolved now expired "system:auto-expire" (some "Approval request expired")
        (field "reason" (str "expired") end) t

  tickets-expire_ticket :
      (t : Ticket) (g : Gate S)
      → is_expired t.status ≡ true
      → (expire_ticket b out now t g).0.tickets ≡ g.tickets
  unfolding expire_ticket
  tickets-expire_ticket t g h = ground arith

  tickets-expire_live :
      (t : Ticket) (g : Gate S)
      → is_expired t.status ≡ false
      → (expire_ticket b out now t g).0.tickets ≡ Dict.put g.tickets t.ticket_id (lapsed t)
  unfolding resolve_ticket expire_ticket Dict.put
  tickets-expire_live t g h = rw (h, expire_ticket) (rw tickets-persist refl)

  put_before :
      (id : String) (t u : Ticket) (g : Gate S)
      → t.status ≡ pending
      → Dict.get (Dict.put g.tickets u.ticket_id (lapsed u)) id ≡ some t
      → Dict.get g.tickets id ≡ some t
  put_before id t u g p h = elim (Bool-cases (str_eq u.ticket_id id)) [
    | inl e ↦
        let same : some (lapsed u) ≡ some t =
          ground (arith, get-put g.tickets u.ticket_id id (lapsed u)) in
        absurd (ground (arith, same))
    | inr e ↦ ground (arith, get-put g.tickets u.ticket_id id (lapsed u))
  ]

  -- A pending ticket after an expiry was there before it.
  expire_ticket_before :
      (id : String) (t u : Ticket) (g : Gate S)
      → t.status ≡ pending
      → Dict.get (expire_ticket b out now u g).0.tickets id ≡ some t
      → Dict.get g.tickets id ≡ some t
  expire_ticket_before id t u g p h = elim (Bool-cases (is_expired u.status)) [
    | inl e ↦ sym (ap (λ (d : Dict Ticket). Dict.get d id) (tickets-expire_ticket u g e)) ∙ h
    | inr e ↦
        put_before id t u g p
          (sym (ap (λ (d : Dict Ticket). Dict.get d id) (tickets-expire_live u g e)) ∙ h)
  ]

  expire_each_before :
      (id : String) (t : Ticket) (l : List Ticket) (count : ℕ) (g : Gate S)
      → t.status ≡ pending
      → Dict.get (expire_each b out now l count g).0.tickets id ≡ some t
      → Dict.get g.tickets id ≡ some t
  unfolding expire_each
  expire_each_before id t [] count g p h = h
  expire_each_before id t (u ∷ l) count g p h = elim (Bool-cases (leb u.expires_at now)) [
    | inl e ↦
        expire_ticket_before id t u g p
          (expire_each_before id t l (count + 1) (expire_ticket b out now u g).0 p (ground arith))
    | inr e ↦ expire_each_before id t l count g p (ground arith)
  ]

  expire_head :
      (u : Ticket) (l : List Ticket) (count : ℕ) (g : Gate S)
      → u.status ≡ pending
      → leb u.expires_at now ≡ true
      → Dict.get (expire_each b out now (u ∷ l) count g).0.tickets u.ticket_id ≢ some u
  unfolding expire_each
  expire_head u l count g p due h =
      let live : is_expired u.status ≡ false = ground (arith, p) in
      let before : Dict.get (expire_ticket b out now u g).0.tickets u.ticket_id ≡ some u =
        expire_each_before u.ticket_id u l (count + 1) (expire_ticket b out now u g).0 p
          (ground arith) in
      let same : some (lapsed u) ≡ some u =
        sym (get-put_self g.tickets u.ticket_id (lapsed u))
        ∙ sym (ap (λ (d : Dict Ticket). Dict.get d u.ticket_id) (tickets-expire_live u g live))
        ∙ before in
      ground (arith, same)

  -- No due ticket of the list is pending in memory after the loop.
  expire_each_due :
      (t : Ticket) (l : List Ticket) (count : ℕ) (g : Gate S)
      → t.status ≡ pending
      → leb t.expires_at now ≡ true
      → Memᴰ t l
      → Dict.get (expire_each b out now l count g).0.tickets t.ticket_id ≢ some t
  unfolding expire_each
  expire_each_due t [] count g p due m h = elim m [ ]
  expire_each_due t (u ∷ l) count g p due (Memᴰ.head q) h =
      expire_head u l count g (subst (λ (v : Ticket). v.status ≡ pending) q p)
        (subst (λ (v : Ticket). leb v.expires_at now ≡ true) q due)
        (subst
          (λ (v : Ticket).
            Dict.get (expire_each b out now (u ∷ l) count g).0.tickets v.ticket_id ≡ some v)
          q h)
  expire_each_due t (u ∷ l) count g p due (Memᴰ.tail m) h =
      elim (Bool-cases (leb u.expires_at now)) [
        | inl e ↦
            expire_each_due t l (count + 1) (expire_ticket b out now u g).0 p due m (ground arith)
        | inr e ↦ expire_each_due t l count g p due m (ground arith)
      ]

  tickets-list_pending :
      (g : Gate S) → (list_pending_tickets b out none none g).0.tickets ≡ g.tickets
  unfolding list_pending_tickets
  tickets-list_pending g = ground arith

  -- After a sweep of a gate whose tickets stand under their own identifiers, no key twice, no pending
  -- ticket in memory is at or past its time, whatever the backend returned and took.
  pub sweep_leaves_none_overdue :
      (id : String) (t : Ticket) (g : Gate S)
      → AllKeyed (Dict.items g.tickets)
      → HasDistinctKeys g.tickets
      → Dict.get (expire_old_tickets b out now g).0.tickets id ≡ some t
      → t.status ≡ pending
      → now < t.expires_at
  unfolding expire_old_tickets
  sweep_leaves_none_overdue id t g keyed distinct h p =
      let (g1, found) = list_pending_tickets b out none none g in
      let before : Dict.get g.tickets id ≡ some t =
        sym (ap (λ (d : Dict Ticket). Dict.get d id) (tickets-list_pending g))
        ∙ expire_each_before id t found 0 g1 p h in
      let own : t.ticket_id ≡ id =
        All-get (λ (e : String × Ticket). e.1.ticket_id ≡ e.0) g.tickets id keyed before in
      elim (Bool-cases (leb t.expires_at now)) [
        | inl e ↦ absurd (
            expire_each_due t found 0 g1 p e (list_pending_has b out id t g keyed distinct p before)
              (subst (λ i. Dict.get (expire_each b out now found 0 g1).0.tickets i ≡ some t)
                (sym own) h))
        | inr e ↦ ground arith
      ]
