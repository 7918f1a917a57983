-- ===== src/Gateway/Hub/Turns.antt =====
-- The turns of the loops of the hub, and whether the clients that they visit are open.
use dantegpu_core.Prelude.{
  ℕ, zero, suc, String, List, [], ◌∷◌, Option, none, some, true, false, All, Bool-cases,
  Option-cases, ltb, length, ◌≡◌, refl, ◌⊎◌, inl, inr, arith, drop,
}
use mathlib.Core.Path.{subst}
use dantegpu_core.Gateway.Hub.{
  Message, Clients, Hub, Stepped, went, set_channel, register, unregister, send_or_drop, has_room,
  push, write,
}
use dantegpu_core.Gateway.Hub.Running.{
  Sending, Running, is_read, after, take_registration, take_unregistration, take_message, broadcast,
  broadcast_to_all, broadcast_to_user, visit, pick, send_on,
}
use dantegpu_core.Gateway.Hub.Safety.{
  HasUniqueIds, IsOpen, IsDistinct, IsReady, Survives, All-imp, register-Survives,
  unregister-Survives, sent_or_dropped, sent_or_skipped, pushed-IsReady, push-IsOpen,
  drained-IsOpen, shut, shut-IsReady, shut-IsOpen, roomy_send,
}

module _ {P : Type 0} ⦃c : Clients P⦄ where
  -- The client that the broadcast visits next has room.
  unfoldable pub HasRoom : Option (Message × List P) → Hub P → Type 0
  HasRoom none h = Unit
  HasRoom (some (m, [])) h = Unit
  HasRoom (some (m, p ∷ ps)) h = has_room p h ≡ true

  unfoldable pub BroadcastOpen : Option (Message × List P) → Hub P → Type 0
  BroadcastOpen none h = Unit
  BroadcastOpen (some (m, left)) h = All (IsOpen h) left × IsDistinct left

  unfoldable pub SendingOpen : Hub P → List (Sending P) → Type 0
  SendingOpen h ss = All (λ (s : Sending P). All (IsOpen h) s.left) ss

  -- The clients of the hub, and those that a loop has still to visit, are open.
  unfoldable pub IsSound : Running P → Type 0
  IsSound r = IsReady r.hub × (BroadcastOpen r.broadcasting r.hub × SendingOpen r.hub r.sending)

  -- The step does not panic, and leaves a sound state.
  unfoldable pub StaysSound : Option (Running P) → Type 0
  StaysSound o = (r : Running P) × ((o ≡ some r) × IsSound r)

  Keeps : Hub P → Hub P → Type 0
  Keeps h k = (q : P) → IsOpen h q → IsOpen k q

  kept_broadcast :
      (h k : Hub P)
      → Keeps h k
      → (b : Option (Message × List P)) → BroadcastOpen b h
      → BroadcastOpen b k
  unfolding BroadcastOpen Keeps
  kept_broadcast h k f none o = tt
  kept_broadcast h k f (some (m, left)) o = (All-imp (IsOpen h) (IsOpen k) left f o.0, o.1)

  kept_sending :
      (h k : Hub P) → Keeps h k → (ss : List (Sending P)) → SendingOpen h ss → SendingOpen k ss
  unfolding SendingOpen Keeps
  kept_sending h k f [] o = tt
  kept_sending h k f (s ∷ ss) o =
      (All-imp (IsOpen h) (IsOpen k) s.left f o.0, kept_sending h k f ss o.1)

  none_sending : (h : Hub P) (ss : List (Sending P)) → ss ≡ [] → SendingOpen h ss
  unfolding SendingOpen
  none_sending h ss e = rw e tt

  pushed-Keeps : (p : P) (m : Message) (h : Hub P) → Keeps h (push p m h)
  unfolding Keeps
  pushed-Keeps p m h q o = push-IsOpen p q m h o

  abbrev running : Hub P → List Message → Option (Message × List P) → List (Sending P) → Running P
  running h queued b ss = record { hub = h; queued = queued; broadcasting = b; sending = ss }

  unread : (r : Running P) → is_read r ≡ false → (r.broadcasting ≡ none) × (r.sending ≡ [])
  unfolding is_read
  unread r e = ground (arith, e)

  -- A step at the hub that survives, while no loop goes on.
  alone_StaysSound :
      (r : Running P) (s : Stepped P)
      → is_read r ≡ false
      → Survives s
      → StaysSound (after r (λ h. record r { hub = h }) s)
  unfolding StaysSound IsSound after Survives BroadcastOpen SendingOpen
  alone_StaysSound r s e (k, (went_on, ready)) =
      let (idle, free) = unread r e in
      rw went_on (record r { hub = k }, (refl, (ready, (rw idle tt, rw free tt))))

  pub registers_StaysSound :
      (p : P) (r : Running P) → IsOpen r.hub p → IsSound r → StaysSound (take_registration p r)
  unfolding StaysSound IsSound take_registration
  registers_StaysSound p r o i = elim (Bool-cases (is_read r)) [
    | inl e ↦ rw (take_registration, e) (r, (refl, i))
    | inr e ↦
        rw (take_registration, e)
          (alone_StaysSound r (register p r.hub) e (register-Survives p r.hub o i.0))
  ]

  pub unregisters_StaysSound :
      (p : P) (r : Running P) → HasUniqueIds c → IsSound r → StaysSound (take_unregistration p r)
  unfolding StaysSound IsSound take_unregistration
  unregisters_StaysSound p r u i = elim (Bool-cases (is_read r)) [
    | inl e ↦ rw (take_unregistration, e) (r, (refl, i))
    | inr e ↦
        rw (take_unregistration, e)
          (alone_StaysSound r (unregister p r.hub) e (unregister-Survives p r.hub u i.0))
  ]

  pub takes_StaysSound :
      (h : Hub P) (queued : List Message) (b : Option (Message × List P)) (ss : List (Sending P))
      → let r = running h queued b ss in IsSound r → StaysSound (take_message r)
  unfolding StaysSound IsSound take_message BroadcastOpen IsReady
  takes_StaysSound h queued (some b) ss i = (_, (refl, i))
  takes_StaysSound h [] none ss i = (_, (refl, i))
  takes_StaysSound h (m ∷ ms) none ss i = (_, (refl, (i.0, (i.0, i.1.1))))

  -- A visit that pushes the message, or does nothing, keeps all clients open.
  shut_broadcast :
      (p : P) (h : Hub P) (ps : List P)
      → All (λ q. c.same q p ≡ false) ps
      → All (IsOpen h) ps
      → All (IsOpen (shut p h)) ps
  shut_broadcast p h [] d a = tt
  shut_broadcast p h (q ∷ ps) d a = (shut-IsOpen p q h d.0 a.0, shut_broadcast p h ps d.1 a.1)

  pub broadcasts_StaysSound :
      (h : Hub P) (queued : List Message) (b : Option (Message × List P)) (ss : List (Sending P))
      → let r = running h queued b ss in
        (ss ≡ []) ⊎ HasRoom b h → IsSound r → StaysSound (broadcast r)
  unfolding StaysSound IsSound broadcast BroadcastOpen IsDistinct HasRoom after
  broadcasts_StaysSound h queued none ss x i = (_, (refl, i))
  broadcasts_StaysSound h queued (some (m, [])) ss x i = (_, (refl, (i.0, (tt, i.1.1))))
  broadcasts_StaysSound h queued (some (m, p ∷ ps)) ss x i =
      let (ready, ((opens, distinct), sending)) = i in
      let pushed : send_or_drop p m h ≡ went (push p m h)
          → StaysSound (broadcast (running h queued (some (m, p ∷ ps)) ss)) =
        λ e.
          rw (broadcast, e)
            (
              _,
              (
                refl,
                (
                  pushed-IsReady p m h ready,
                  (
                    kept_broadcast h (push p m h) (pushed-Keeps p m h) (some (m, ps))
                        (opens.1, distinct.1),
                    kept_sending h (push p m h) (pushed-Keeps p m h) ss sending,
                  ),
                ),
              ),
            ) in
      elim x [
        | inr room ↦ pushed (roomy_send p m h opens.0 room)
        | inl free ↦ elim (sent_or_dropped p m h opens.0) [
          | inl e ↦ pushed e
          | inr e ↦
              rw (broadcast, e)
                (
                  _,
                  (
                    refl,
                    (
                      shut-IsReady p h ready,
                      (
                        (shut_broadcast p h ps distinct.0 opens.1, distinct.1),
                        none_sending (shut p h) ss free,
                      ),
                    ),
                  ),
                )
        ]
      ]

  visit-StaysSound :
      (user : String) (m : Message) (left : List P) (r : Running P) (others : List (Sending P))
      → All (IsOpen r.hub) left
      → IsReady r.hub
      → BroadcastOpen r.broadcasting r.hub
      → SendingOpen r.hub others
      → StaysSound (visit (record { user_id = user; message = m; left = left }) r others)
  unfolding StaysSound IsSound visit after SendingOpen Keeps
  visit-StaysSound user m [] r others a ready b o = (_, (refl, (ready, (b, o))))
  visit-StaysSound user m (p ∷ ps) r others a ready b o =
      elim (sent_or_skipped user p m r.hub a.0) [
        | inl e ↦ rw (visit, e) (_, (refl, (ready, (b, (a.1, o)))))
        | inr e ↦
            let k = push p m r.hub in
            let keeps = pushed-Keeps p m r.hub in
            rw (visit, e)
              (
                _,
                (
                  refl,
                  (
                    pushed-IsReady p m r.hub ready,
                    (
                      kept_broadcast r.hub k keeps r.broadcasting b,
                      (
                        All-imp (IsOpen r.hub) (IsOpen k) ps keeps a.1,
                        kept_sending r.hub k keeps others o,
                      ),
                    ),
                  ),
                ),
              )
      ]

  PickedOpen : Hub P → Option (Sending P × List (Sending P)) → Type 0
  PickedOpen h none = Unit
  PickedOpen h (some (s, others)) = All (IsOpen h) s.left × SendingOpen h others

  picked_later :
      (h : Hub P) (s : Sending P) (o : Option (Sending P × List (Sending P)))
      → All (IsOpen h) s.left
      → PickedOpen h o
      → PickedOpen h (elim o [ none ↦ none | some (t, ts) ↦ some (t, s ∷ ts) ])
  unfolding PickedOpen SendingOpen
  picked_later h s none a x = tt
  picked_later h s (some (t, ts)) a x = (x.0, (a, x.1))

  pick-PickedOpen :
      (n : ℕ) (h : Hub P) (ss : List (Sending P)) → SendingOpen h ss → PickedOpen h (pick n ss)
  unfolding PickedOpen SendingOpen pick
  pick-PickedOpen n h [] o = tt
  pick-PickedOpen zero h (s ∷ ss) o = o
  pick-PickedOpen (suc n) h (s ∷ ss) o =
      picked_later h s (pick n ss) o.0 (pick-PickedOpen n h ss o.1)

  pub sends_StaysSound : (n : ℕ) (r : Running P) → IsSound r → StaysSound (send_on n r)
  unfolding StaysSound IsSound send_on PickedOpen
  sends_StaysSound n r (ready, (b, o)) =
      let picked = pick-PickedOpen n r.hub r.sending o in
      elim (Option-cases (pick n r.sending)) [
        | inl e ↦ rw (send_on, e) (r, (refl, (ready, (b, o))))
        | inr ((s, others), e) ↦
            let (a, rest) = subst (PickedOpen r.hub) e picked in
            rw (send_on, e) (visit-StaysSound s.user_id s.message s.left r others a ready b rest)
      ]

  drained : ℕ → P → Hub P → Hub P
  drained n p h = set_channel p (record (h.channels p) { queue = drop n (h.channels p).queue }) h

  pub writes_StaysSound :
      (n : ℕ) (p : P) (r : Running P)
      → IsSound r
      → StaysSound (after r (λ h. record r { hub = h }) (write n p r.hub))
  unfolding StaysSound IsSound after write IsReady drained Keeps
  writes_StaysSound n p r (ready, (b, o)) =
      let k = drained n p r.hub in
      (
        _,
        (
          refl,
          (
            (
              All-imp (IsOpen r.hub) (IsOpen k) r.hub.clients (λ q. drained-IsOpen n p q r.hub)
                  ready.0,
              ready.1,
            ),
            (
              kept_broadcast r.hub k (λ q. drained-IsOpen n p q r.hub) r.broadcasting b,
              kept_sending r.hub k (λ q. drained-IsOpen n p q r.hub) r.sending o,
            ),
          ),
        ),
      )

  pub called_all :
      (m : Message) (r : Running P) → IsSound r → StaysSound (some (broadcast_to_all m r))
  unfolding StaysSound IsSound broadcast_to_all
  called_all m r i = elim (Bool-cases (ltb (length r.queued) 256)) [
    | inl e ↦ rw (broadcast_to_all, e) (_, (refl, i))
    | inr e ↦ rw (broadcast_to_all, e) (r, (refl, i))
  ]

  pub called_user :
      (user : String) (m : Message) (r : Running P)
      → IsSound r
      → StaysSound (some (broadcast_to_user user m r))
  unfolding StaysSound IsSound broadcast_to_user IsReady SendingOpen
  called_user user m r (ready, (b, o)) = (_, (refl, (ready, (b, (ready.0, o)))))
