-- ===== src/Auth/Sessions/RoundTrip.antt =====
-- The sessions that are stored, read and deleted.
use dantegpu_core.Prelude.{
  ℕ, ◌+◌, ◌-◌, ◌≤◌, ◌<◌, String, Option, none, some, Bool, true, false, if◌then◌else◌, ltb, ltb→lt,
  inl, inr, ok, err, Bool-cases, ◌≡◌, ◌≢◌, refl, sym, ◌∙◌, arith,
}
use mathlib.Core.Path.{ap, subst}
use dantegpu_core.Auth.Redis.{
  ◌>>=◌, ◌>>◌, wrapped, dropped, guard, lift, Redis, HoldsTexts, relabel, bind-ok, bind-Went,
  wrapped-Went, guard-Went,
}
use dantegpu_core.Auth.Sessions.{
  Session, Codec, store_session, list_session, session_key, user_sessions_key, found, create, get,
  delete,
}

not_both :
    (now ttl : ℕ) (o : Option String) (text : String)
    → 0 < ttl
    → o ≡ (if ltb now (now + ttl) then some text else none)
    → o ≢ none
not_both now ttl o text p h n = ground (arith, h, n)

module _ {S : Type 0} ⦃r : Redis S⦄ (laws : HoldsTexts r) where
  -- The commands of `Create`.
  stored :
      (now : ℕ) (x : Session) (text : String) (s : S)
      → now < x.expires_at
      → (r.set now (session_key x.id) text (x.expires_at - now) s).0 ≡ ok tt
      → (r.sadd now
          (user_sessions_key x.user_id)
          x.id
          (r.set now (session_key x.id) text (x.expires_at - now) s).1).0
        ≡ ok tt
      → (u : ℕ) → now ≤ u
      → laws.text_at u
          (session_key x.id)
          (r.expire now
            (user_sessions_key x.user_id)
            (x.expires_at - now)
            (r.sadd now
              (user_sessions_key x.user_id)
              x.id
              (r.set now (session_key x.id) text (x.expires_at - now) s).1).1).1
        ≡ (if ltb u x.expires_at then some text else none)
  stored now x text s before set added u later =
      let key = session_key x.id in
      let users = user_sessions_key x.user_id in
      let ttl = x.expires_at - now in
      let s1 = (r.set now key text ttl s).1 in
      let s2 = (r.sadd now users x.id s1).1 in
      let apart : key ≢ users = λ p.
        not_both now ttl (laws.text_at now key s1) text (omega (arith, before))
          (laws.set-holds now now ttl key text s set (omega arith))
          (subst (λ k. laws.text_at now k s1 ≡ none) (sym p)
            (laws.sadd-needs_set now users x.id s1 added)) in
      laws.expire-keeps now u ttl users key s2 apart
      ∙ laws.sadd-keeps now u users x.id key s1 later
      ∙ laws.set-holds now u ttl key text s set later
      ∙ ap (λ e. if ltb u e then some text else none) (omega arith)

if_true {ℓ} : {A : Type ℓ} {b : Bool} {x : A} (y : A) → b ≡ true → (if b then x else y) ≡ x
if_true y h = rw h refl

if_false {ℓ} : {A : Type ℓ} {b : Bool} (x : A) {y : A} → b ≡ false → (if b then x else y) ≡ y
if_false x h = rw h refl

module _ {S : Type 0} ⦃r : Redis S⦄ (codec : Codec) where
  get-read :
      (u : ℕ) (id : String) (s : S) (o : Option String)
      → (r.get u (session_key id) s).0 ≡ ok o
      → (get codec u id s).0
        ≡ ((found o >>= λ text. wrapped "failed to unmarshal session: " (lift (codec.decode text)))
            (r.get u (session_key id) s).1).0
  unfolding get
  get-read u id s o h =
      ap (λ z. z.0)
        (bind-ok (wrapped "failed to get session: " (r.get u (session_key id)))
          (λ p.
            found p >>= λ text. wrapped "failed to unmarshal session: " (lift (codec.decode text)))
          s o (ap (relabel "failed to get session: ") h))

  get-none :
      (u : ℕ) (id : String) (s : S)
      → (r.get u (session_key id) s).0 ≡ ok none
      → (get codec u id s).0 ≡ err "session not found"
  unfolding found
  get-none u id s h = get-read u id s none h

  get-some :
      (u : ℕ) (id : String) (s : S) (text : String) (x : Session)
      → (r.get u (session_key id) s).0 ≡ ok (some text)
      → codec.decode text ≡ ok x
      → (get codec u id s).0 ≡ ok x
  unfolding found
  get-some u id s text x h d =
      get-read u id s (some text) h ∙ ap (relabel "failed to unmarshal session: ") d

module _ {S : Type 0} ⦃r : Redis S⦄ (laws : HoldsTexts r) (codec : Codec) where
  -- What `Create` leaves under the key of the session.
  unfoldable pub Stores : ℕ → Session → S → Type 0
  Stores now x s =
      (text : String) × ((codec.encode x ≡ ok text)
        × ((u : ℕ)
            → now ≤ u
            → laws.text_at u (session_key x.id) s
              ≡ (if ltb u x.expires_at then some text else none)))

  create-Stores :
      (now : ℕ) (x : Session) (s : S)
      → (create codec now x s).0 ≡ ok tt
      → Stores now x (create codec now x s).1
  unfolding create Stores store_session list_session
  create-Stores now x s h =
      let key = session_key x.id in
      let users = user_sessions_key x.user_id in
      let ttl = x.expires_at - now in
      let (text, (e, (q1, h1))) =
        wrapped-Went
          (λ t. guard (ltb now x.expires_at) "session already expired" >> store_session now x t) s
          tt "failed to marshal session: " (lift (codec.encode x)) h in
      let (before, (q2, h2)) =
        guard-Went (λ _. store_session now x text) s tt (ltb now x.expires_at)
          "session already expired" h1 in
      let (a, (set, (q3, h3))) =
        wrapped-Went (λ _. list_session now x) s tt "failed to store session: "
          (r.set now key text ttl) h2 in
      let s1 = (r.set now key text ttl s).1 in
      let (b, (added, (q4, h4))) =
        wrapped-Went (λ _. dropped (r.expire now users ttl)) s1 tt
          "failed to add session to user set: " (r.sadd now users x.id) h3 in
      let last = ap (λ z. z.1) (q1 ∙ q2 ∙ q3 ∙ q4) in
      (
        text,
        (
          e,
          (λ u later.
              ap (laws.text_at u key) last
              ∙ stored laws now x text s (ltb→lt now x.expires_at before) set added u later),
        ),
      )

  -- A session that Create stored is what Get answers until the session expires, and then it is not found; the
  -- encoding is one that decodes, Redis keeps its documented behaviour and answers the command of Get.
  pub get-create :
      (now u : ℕ) (x : Session) (s : S) (o : Option String)
      → ((text : String) → codec.encode x ≡ ok text → codec.decode text ≡ ok x)
      → (create codec now x s).0 ≡ ok tt
      → now ≤ u
      → (r.get u (session_key x.id) (create codec now x s).1).0 ≡ ok o
      → (get codec u x.id (create codec now x s).1).0
        ≡ (if ltb u x.expires_at then ok x else err "session not found")
  unfolding Stores
  get-create now u x s o inverse h later answered =
      let (text, (e, at)) = create-Stores now x s h in
      let held =
        laws.get-reads u (session_key x.id) (create codec now x s).1 o answered ∙ at u later in
      elim (Bool-cases (ltb u x.expires_at)) [
        | inl early ↦ rw early (
            get-some codec u x.id (create codec now x s).1 text x
              (answered ∙ ap ok (held ∙ if_true none early)) (inverse text e))
        | inr late ↦ rw late (
            get-none codec u x.id (create codec now x s).1
              (answered ∙ ap ok (held ∙ if_false (some text) late)))
      ]

  -- A session that Delete deleted is not found afterwards; Redis keeps its documented behaviour and answers the
  -- command of Get.
  pub get-delete :
      (now u : ℕ) (id : String) (s : S) (o : Option String)
      → (delete codec now id s).0 ≡ ok tt
      → now ≤ u
      → (r.get u (session_key id) (delete codec now id s).1).0 ≡ ok o
      → (get codec u id (delete codec now id s).1).0 ≡ err "session not found"
  unfolding delete
  get-delete now u id s o h later answered =
      let key = session_key id in
      let (x, (e, (q1, h1))) =
        bind-Went
          (λ x.
            wrapped "failed to delete session: " (r.del now key)
            >> wrapped "failed to remove session from user set: "
                (r.srem now (user_sessions_key x.user_id) id))
          s tt (get codec now id) h in
      let s1 = (get codec now id s).1 in
      let users = user_sessions_key x.user_id in
      let (a, (gone, (q2, h2))) =
        wrapped-Went (λ _. wrapped "failed to remove session from user set: " (r.srem now users id))
          s1 tt "failed to delete session: " (r.del now key) h1 in
      let s2 = (r.del now key s1).1 in
      let last = ap (λ z. z.1) (q1 ∙ q2) in
      get-none codec u id (delete codec now id s).1 (
        answered
        ∙ ap ok (
            laws.get-reads u key (delete codec now id s).1 o answered
            ∙ ap (laws.text_at u key) last
            ∙ laws.srem-keeps now u users id key s2 later
            ∙ laws.del-removes now u key s1 gone later))
