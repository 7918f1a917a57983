-- ===== src/Billing/Service/Starts/Booking.antt =====
-- The escrow, the session and the transaction of StartRentalSession after the lock.
use dantegpu_core.Prelude.{
  String, List, [], ◌∷◌, ◌++◌, none, some, true, false, ◌≡◌, refl, ◌⊎◌, inl, inr, arith, text_eq,
  Bool-cases,
}
use dantegpu_core.Decimal.{Decimals, add, mul, from_int}
use dantegpu_core.Billing.Models.{
  Result, ok, Wallet, RentalSession, SessionStartRequest, SessionResponse, SessionStatus,
  Transaction, TransactionType, TransactionStatus, TransactionCreateRequest,
}
use dantegpu_core.Billing.Pricing.{PricingResponse}
use dantegpu_core.Billing.World.{Opening, RentalJob, is_ok, World, Env, new_uuid}
use dantegpu_core.Billing.Store.{
  set_balance, update_where, create_transaction, insert_transaction, transaction_columns,
  new_transaction,
}
use dantegpu_core.Billing.Store.Sessions.{create_rental_session, insert_session, session_columns}
use dantegpu_core.Billing.Store.Outcomes.{create_rental_session-cases, create_transaction-cases}
use dantegpu_core.Billing.Service.{
  open_escrow, new_session, open_session, escrow_metadata, booked_hours, start_transaction,
}

Opening-cases :
    (o : Opening)
    → ((job : RentalJob) × (o ≡ Opening.opened job))
      ⊎ (((job : RentalJob) × ((m : String) × (o ≡ Opening.unindexed job m)))
          ⊎ ((m : String) × (o ≡ Opening.unopened m)))
Opening-cases (Opening.opened job) = inl (job, refl)
Opening-cases (Opening.unindexed job m) = inr (inl (job, (m, refl)))
Opening-cases (Opening.unopened m) = inr (inr (m, refl))

module _ {D : Type 0} ⦃d : Decimals D⦄ where
  -- The wallets after the lock of an hour's price.
  unfoldable pub IsLocked : Env D → Wallet D → D → World D → World D → Type 0
  IsLocked env wallet price w w' =
      w'.wallets
      ≡ update_where (λ (r : Wallet D). text_eq r.id wallet.id)
          (set_balance env wallet.balance (add wallet.locked_balance price)) w.wallets

  -- A new session of the request.
  unfoldable pub IsRequested : SessionStartRequest D → String → RentalSession D → Type 0
  IsRequested req id s =
      (s.id ≡ id)
      × ((s.user_id ≡ req.user_id)
          × ((s.provider_id ≡ req.provider_id)
              × ((s.status ≡ SessionStatus.active)
                  × ((s.gpu_model ≡ req.gpu_model) × (s.allocated_vram ≡ req.requested_vram)))))

  -- One more session, for the request.
  unfoldable pub HasSession :
      SessionStartRequest D → String → List (RentalSession D) → World D → Type 0
  HasSession req id sessions w' =
      (s : RentalSession D) × ((w'.sessions ≡ sessions ++ s ∷ []) × IsRequested req id s)

  -- One more transaction, that of the price from the wallet for the session.
  unfoldable pub HasPayment : Env D → String → D → String → List (Transaction D) → World D → Type 0
  HasPayment env wallet_id price id transactions w' =
      (t : Transaction D) × ((w'.transactions ≡ transactions ++ t ∷ [])
        × ((t.from_wallet_id ≡ some wallet_id)
            × ((t.to_wallet_id ≡ none)
                × ((t.type ≡ TransactionType.session_start)
                    × ((t.status ≡ TransactionStatus.pending)
                        × ((t.amount ≡ env.column price) × (t.session_id ≡ some id)))))))

  -- After the lock: a session and its transaction, a session alone, or neither.
  unfoldable pub Opened :
      Env D
      → SessionStartRequest D
      → String
      → D
      → String
      → List (RentalSession D)
      → List (Transaction D)
      → Result (SessionResponse D) × World D
      → Type 0
  Opened env req wallet_id price id sessions transactions r =
      ((is_ok r.0 ≡ true)
        × (HasSession req id sessions r.1 × HasPayment env wallet_id price id transactions r.1))
      ⊎ (((is_ok r.0 ≡ false)
            × (HasSession req id sessions r.1 × (r.1.transactions ≡ transactions)))
          ⊎ ((is_ok r.0 ≡ false) × ((r.1.sessions ≡ sessions) × (r.1.transactions ≡ transactions))))

  pub open_session-wallets :
      (env : Env D) (req : SessionStartRequest D) (p : PricingResponse D) (wallet : Wallet D)
      (w : World D)
      → (open_session env req p wallet w).1.wallets ≡ w.wallets
  unfolding open_session open_escrow create_rental_session insert_session create_transaction
      insert_transaction
  open_session-wallets env req p wallet w = ground arith

  -- The escrow fails, or hands on a session of the request; the tables stay.
  open_escrow-cases :
      (env : Env D) (req : SessionStartRequest D) (p : PricingResponse D) (id : String)
      (w : World D)
      → ((open_escrow env req p (new_session env req p id) w).1.sessions ≡ w.sessions)
        × (((open_escrow env req p (new_session env req p id) w).1.transactions ≡ w.transactions)
            × ((is_ok (open_escrow env req p (new_session env req p id) w).0 ≡ false)
                ⊎ ((s : RentalSession D) × (((open_escrow env req p (new_session env req p id) w).0
                        ≡ ok s)
                      × IsRequested req id s))))
  unfolding open_escrow new_session escrow_metadata IsRequested
  open_escrow-cases env req p id w = elim (Bool-cases env.covenant_enabled) [
    | inr e ↦ rw e (refl, (refl, inr (_, (refl, (refl, (refl, (refl, (refl, (refl, refl)))))))))
    | inl e ↦
        elim (Opening-cases (
          env.open_job (mul p.total_hourly_rate (from_int (booked_hours req))) req.gpu_model id
            (booked_hours req))) [
              | inl (job, h) ↦
                  rw (e, h)
                    (refl, (refl, inr (_, (refl, (refl, (refl, (refl, (refl, (refl, refl)))))))))
              | inr (inl (job, (m, h))) ↦ rw (e, h) (refl, (refl, inl refl))
              | inr (inr (m, h)) ↦ rw (e, h) (refl, (refl, inl refl))
            ]
  ]

  pub open_session-Opened :
      (env : Env D) (req : SessionStartRequest D) (p : PricingResponse D) (wallet : Wallet D)
      (w : World D)
      → Opened env req wallet.id p.total_hourly_rate
          (env.fresh w.drawn)
          w.sessions
          w.transactions
          (open_session env req p wallet w)
  unfolding open_session Opened HasSession HasPayment IsRequested session_columns new_transaction
      transaction_columns start_transaction
  open_session-Opened env req p wallet w =
      let id : String = env.fresh w.drawn in
      let w1 : World D = (new_uuid env w).1 in
      let w2 : World D = (open_escrow env req p (new_session env req p id) w1).1 in
      let (hs, (ht, c)) = open_escrow-cases env req p id w1 in
      elim c [
        | inl e ↦ inr (inr (ground arith))
        | inr (s, (e, k)) ↦
            let w3 : World D = (create_rental_session env s w2).1 in
            let request : TransactionCreateRequest D = start_transaction wallet req p id in
            let t = new_transaction env request (env.fresh w3.drawn) in
            elim ((create_rental_session-cases env s w2).1) [
              | inr f ↦ inr (inr (ground (arith, create_rental_session-cases env s w2)))
              | inl f ↦ elim ((create_transaction-cases env request w3).1) [
                | inr g ↦ inr (
                    inl (
                      ground (
                        arith,
                        (create_rental_session-cases env s w2).0,
                        (create_transaction-cases env request w3).0,
                      ),
                      (
                        (
                          session_columns env s,
                          (
                            ground (
                              arith,
                              (create_rental_session-cases env s w2).0,
                              (create_transaction-cases env request w3).0,
                            ),
                            k,
                          ),
                        ),
                        ground (
                          arith,
                          (create_rental_session-cases env s w2).0,
                          (create_transaction-cases env request w3).0,
                        ),
                      ),
                    ))
                | inl g ↦ inl (
                  ground (
                    arith,
                    (create_rental_session-cases env s w2).0,
                    (create_transaction-cases env request w3).0,
                  ),
                  (
                    (
                      session_columns env s,
                      (
                        ground (
                          arith,
                          (create_rental_session-cases env s w2).0,
                          (create_transaction-cases env request w3).0,
                        ),
                        k,
                      ),
                    ),
                    (
                      transaction_columns env t,
                      (
                        ground (
                          arith,
                          (create_rental_session-cases env s w2).0,
                          (create_transaction-cases env request w3).0,
                        ),
                        (refl, (refl, (refl, (refl, (refl, refl))))),
                      ),
                    ),
                  ),
                )
              ]
            ]
      ]
