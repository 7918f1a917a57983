-- ===== src/Gateway/Hub/Safety.antt =====
-- The steps of the hub, and whether its clients are open.
use dantegpu_core.Prelude.{
  ℕ, drop, String, List, [], ◌∷◌, Bool, true, false, not, text_eq, eq_iff, filter, All, All-filter,
  Bool-cases, ◌≡◌, refl, sym, ◌∙◌, ◌⊎◌, inl, inr, arith,
}
use mathlib.Core.Path.{ap, subst}
use dantegpu_core.Gateway.Hub.{
  Message, Clients, Channel, Hub, Stepped, went, set_channel, has_id, drop_id, knows, close, push,
  has_room, register, unregister, send_or_drop, send_or_skip,
}

-- Two clients with one ID are one client.
unfoldable pub HasUniqueIds : {P : Type 0} → Clients P → Type 0
HasUniqueIds {P} c = (p q : P) → text_eq (c.client p).id (c.client q).id ≡ true → p ≡ q

module _ {P : Type 0} ⦃c : Clients P⦄ where
  unfoldable pub IsOpen : Hub P → P → Type 0
  IsOpen h p = (h.channels p).is_closed ≡ false

  unfoldable pub IsDistinct : List P → Type 0
  IsDistinct [] = Unit
  IsDistinct (p ∷ ps) = All (λ q. c.same q p ≡ false) ps × IsDistinct ps

  -- The clients of the hub are open and distinct.
  unfoldable pub IsReady : Hub P → Type 0
  IsReady h = All (IsOpen h) h.clients × IsDistinct h.clients

  All-kept :
      (Q R : P → Type 0) (test : P → Bool)
      → ((p : P) → test p ≡ true → Q p → R p)
      → (ps : List P) → All Q ps
      → All R (filter test ps)
  All-kept Q R test f [] a = tt
  All-kept Q R test f (p ∷ ps) a = elim (Bool-cases (test p)) [
    | inl e ↦ rw e (f p e a.0, All-kept Q R test f ps a.1)
    | inr e ↦ rw e (All-kept Q R test f ps a.1)
  ]

  pub All-imp : (Q R : P → Type 0) (ps : List P) → ((p : P) → Q p → R p) → All Q ps → All R ps
  All-imp Q R [] f a = tt
  All-imp Q R (p ∷ ps) f a = (f p a.0, All-imp Q R ps f a.1)

  filter-IsDistinct : (test : P → Bool) (ps : List P) → IsDistinct ps → IsDistinct (filter test ps)
  unfolding IsDistinct
  filter-IsDistinct test [] d = tt
  filter-IsDistinct test (p ∷ ps) d = elim (Bool-cases (test p)) [
    | inl e ↦ rw e (
      All-kept (λ q. c.same q p ≡ false) (λ q. c.same q p ≡ false) test (λ q k s. s) ps d.0,
      filter-IsDistinct test ps d.1,
    )
    | inr e ↦ rw e (filter-IsDistinct test ps d.1)
  ]

  -- A client that was not dropped with another's ID is another client.
  not_dropped : (p q : P) → not (has_id (c.client p).id q) ≡ true → c.same q p ≡ false
  not_dropped p q h = elim (Bool-cases (c.same q p)) [
    | inr e ↦ e
    | inl e ↦
        let path : q ≡ p = (c.same_iff q p).0 e in
        let kept = subst (λ x. not (text_eq (c.client x).id (c.client p).id) ≡ true) path h in
        ground (arith, kept, eq_iff (c.client p).id (c.client p).id)
  ]

  other_channel :
      (p q : P) (new : Channel) (h : Hub P)
      → c.same q p ≡ false
      → IsOpen h q
      → IsOpen (set_channel p new h) q
  unfolding IsOpen
  other_channel p q new h e o = rw e o

  pub push-IsOpen : (p q : P) (m : Message) (h : Hub P) → IsOpen h q → IsOpen (push p m h) q
  unfolding IsOpen push
  push-IsOpen p q m h o = elim (Bool-cases (c.same q p)) [
    | inl e ↦ rw e (ap (λ x. (h.channels x).is_closed) (sym ((c.same_iff q p).0 e)) ∙ o)
    | inr e ↦ rw e o
  ]

  knows-IsOpen :
      (p : P) (h : Hub P) (ps : List P)
      → HasUniqueIds c
      → knows (c.client p).id ps ≡ true
      → All (IsOpen h) ps
      → IsOpen h p
  unfolding knows HasUniqueIds
  knows-IsOpen p h [] u k a = ground (arith, k)
  knows-IsOpen p h (q ∷ ps) u k a = elim (Bool-cases (has_id (c.client p).id q)) [
    | inl e ↦ subst (IsOpen h) (u q p e) a.0
    | inr e ↦ knows-IsOpen p h ps u (ground (arith, k, e)) a.1
  ]

  -- Closing a client after it has been dropped leaves the hub ready.
  pub dropped-IsReady :
      (p : P) (h : Hub P) (new : Channel)
      → IsReady h
      → IsReady (set_channel p new (record h { clients = drop_id (c.client p).id h.clients }))
  unfolding IsReady drop_id IsOpen
  dropped-IsReady p h new r = (
    All-kept (IsOpen h)
        (IsOpen (set_channel p new (record h { clients = drop_id (c.client p).id h.clients })))
        (λ q. not (has_id (c.client p).id q))
        (λ q k o.
          other_channel p q new (record h { clients = drop_id (c.client p).id h.clients })
            (not_dropped p q k) o)
        h.clients r.0,
    filter-IsDistinct (λ q. not (has_id (c.client p).id q)) h.clients r.1,
  )

  -- The step is done, and the hub is ready after it.
  unfoldable pub Survives : Stepped P → Type 0
  Survives s = (k : Hub P) × ((s ≡ went k) × IsReady k)

  pub close-open :
      (p : P) (h : Hub P)
      → IsOpen h p
      → close p h ≡ went (set_channel p (record (h.channels p) { is_closed = true }) h)
  unfolding close IsOpen
  close-open p h o = rw (close, o) refl

  pub register-Survives : (p : P) (h : Hub P) → IsOpen h p → IsReady h → Survives (register p h)
  unfolding Survives register IsReady IsDistinct drop_id IsOpen
  register-Survives p h o r = (
    record h { clients = p ∷ drop_id (c.client p).id h.clients },
    (
      refl,
      (
        (
          o,
          All-kept (IsOpen h) (IsOpen h) (λ q. not (has_id (c.client p).id q)) (λ q k x. x)
              h.clients r.0,
        ),
        (
          All-filter (λ q. c.same q p ≡ false) (λ q. not (has_id (c.client p).id q))
              (λ q k. not_dropped p q k) h.clients,
          filter-IsDistinct (λ q. not (has_id (c.client p).id q)) h.clients r.1,
        ),
      ),
    ),
  )

  pub unregister-Survives :
      (p : P) (h : Hub P) → HasUniqueIds c → IsReady h → Survives (unregister p h)
  unfolding Survives unregister IsReady IsOpen
  unregister-Survives p h u r = elim (Bool-cases (knows (c.client p).id h.clients)) [
    | inr e ↦ (h, (rw (unregister, e) refl, r))
    | inl e ↦
        let less = record h { clients = drop_id (c.client p).id h.clients } in
        let new = record (h.channels p) { is_closed = true } in
        (
          set_channel p new less,
          (
            rw (unregister, e) (close-open p less (knows-IsOpen p h h.clients u e r.0)),
            dropped-IsReady p h new r,
          ),
        )
  ]

  pub pushed-IsReady : (p : P) (m : Message) (h : Hub P) → IsReady h → IsReady (push p m h)
  unfolding IsReady push
  pushed-IsReady p m h r =
      (All-imp (IsOpen h) (IsOpen (push p m h)) h.clients (λ q o. push-IsOpen p q m h o) r.0, r.1)

  -- A client that is dropped and closed.
  pub shut : P → Hub P → Hub P
  shut p h =
      set_channel p (record (h.channels p) { is_closed = true })
        (record h { clients = drop_id (c.client p).id h.clients })

  pub sent_or_dropped :
      (p : P) (m : Message) (h : Hub P)
      → IsOpen h p
      → (send_or_drop p m h ≡ went (push p m h)) ⊎ (send_or_drop p m h ≡ went (shut p h))
  unfolding send_or_drop IsOpen shut close
  sent_or_dropped p m h o = ground (arith, o)

  pub shut-IsReady : (p : P) (h : Hub P) → IsReady h → IsReady (shut p h)
  unfolding shut
  shut-IsReady p h r = dropped-IsReady p h (record (h.channels p) { is_closed = true }) r

  pub shut-IsOpen : (p q : P) (h : Hub P) → c.same q p ≡ false → IsOpen h q → IsOpen (shut p h) q
  unfolding shut IsOpen
  shut-IsOpen p q h e o =
      other_channel p q (record (h.channels p) { is_closed = true })
        (record h { clients = drop_id (c.client p).id h.clients }) e o

  -- A client with room is not dropped.
  pub roomy_send :
      (p : P) (m : Message) (h : Hub P)
      → IsOpen h p
      → has_room p h ≡ true
      → send_or_drop p m h ≡ went (push p m h)
  unfolding send_or_drop IsOpen
  roomy_send p m h o e = ground (arith, o, e)

  pub sent_or_skipped :
      (user : String) (p : P) (m : Message) (h : Hub P)
      → IsOpen h p
      → (send_or_skip user p m h ≡ went h) ⊎ (send_or_skip user p m h ≡ went (push p m h))
  unfolding send_or_skip IsOpen
  sent_or_skipped user p m h o = ground (arith, o)

  pub drained-IsOpen :
      (n : ℕ) (p q : P) (h : Hub P)
      → IsOpen h q
      → IsOpen (set_channel p (record (h.channels p) { queue = drop n (h.channels p).queue }) h) q
  unfolding IsOpen
  drained-IsOpen n p q h o = elim (Bool-cases (c.same q p)) [
    | inl e ↦ rw e (ap (λ x. (h.channels x).is_closed) (sym ((c.same_iff q p).0 e)) ∙ o)
    | inr e ↦ rw e o
  ]
