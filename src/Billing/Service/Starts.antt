-- ===== src/Billing/Service/Starts.antt =====
-- What StartRentalSession leaves behind on each of its ways out.
pub mod Booking
use dantegpu_core.Prelude.{
  String, List, [], ◌∷◌, ◌++◌, none, some, pos, true, false, ◌≡◌, refl, sym, ap, ◌∙◌, ◌⊎◌, inl, inr,
  arith, Unicode, find_first, text_eq, Bool-cases,
}
use mathlib.Core.Path.{subst}
use dantegpu_core.Decimal.{Decimals, add, mul, from_int, less_than}
use dantegpu_core.Billing.Models.{
  Result, ok, Wallet, WalletType, RentalSession, SessionStartRequest, SessionResponse,
  SessionStatus, Transaction, TransactionType, TransactionStatus, TransactionCreateRequest,
  available_balance, lock_funds, can_spend,
}
use dantegpu_core.Billing.Pricing.{PricingResponse, Priced, calculate_pricing}
use dantegpu_core.Billing.World.{
  Opening, RentalJob, is_ok, Untouched, bind-ok, World, Env, new_uuid,
}
use dantegpu_core.Billing.Store.{
  get_wallet_by_user_id, is_wallet_of, update_wallet_balance, set_balance, update_where,
  create_transaction, insert_transaction, transaction_columns, new_transaction,
}
use dantegpu_core.Billing.Store.Sessions.{create_rental_session, insert_session, session_columns}
use dantegpu_core.Billing.Store.Outcomes.{
  get_wallet_by_user_id-cases, create_rental_session-cases, create_transaction-cases,
}
use dantegpu_core.Billing.Service.{
  Config, first_hour, first_hour_request, take_lock, open_escrow, new_session, open_session,
  start_rental_session, lock_hour, escrow_metadata, booked_hours, start_transaction,
}
use Booking.{IsLocked, Opened, open_session-wallets, open_session-Opened}

module _ {D : Type 0} ⦃d : Decimals D⦄ ⦃u : Unicode⦄ where
  Priced-cases :
      (p : Priced D)
      → ((r : PricingResponse D) × (p ≡ Priced.priced r))
        ⊎ (((m : String) × (p ≡ Priced.no_rate m)) ⊎ (p ≡ Priced.panicked))
  Priced-cases (Priced.priced r) = inl (r, refl)
  Priced-cases (Priced.no_rate m) = inr (inl (m, refl))
  Priced-cases Priced.panicked = inr (inr refl)

  unfoldable pub after_lock : Env D → D → Wallet D → Wallet D
  after_lock env amount w = record w {
    locked_balance = add w.locked_balance amount;
    updated_at = env.now;
  }

  -- The pricing of one hour of the request, with all of the VRAM that it asks for.
  unfoldable pub IsHourPrice : Config D → Env D → SessionStartRequest D → PricingResponse D → Type 0
  IsHourPrice config env req p =
      calculate_pricing env.now config.engine (record {
        gpu_model = req.gpu_model;
        requested_vram = req.requested_vram;
        total_vram = req.requested_vram;
        estimated_power_w = req.estimated_power_w;
        duration_hours = from_int (pos 1);
        provider_id = some req.provider_id;
        user_id = some req.user_id;
      })
      ≡ Priced.priced p

  first_hour-cases :
      (config : Config D) (env : Env D) (req : SessionStartRequest D) (w : World D)
      → let r = first_hour config env req w in
        (r.1 ≡ w)
        × ((is_ok r.0 ≡ false)
            ⊎ ((p : PricingResponse D) × ((r.0 ≡ ok p) × IsHourPrice config env req p)))
  unfolding first_hour first_hour_request IsHourPrice
  first_hour-cases config env req w =
      elim (Priced-cases (calculate_pricing env.now config.engine (first_hour_request req))) [
        | inl (p, e) ↦ rw (first_hour, e) (refl, inr (p, (refl, refl)))
        | inr (inl (m, e)) ↦ rw (first_hour, e) (refl, inl refl)
        | inr (inr e) ↦ rw (first_hour, e) (refl, inl refl)
      ]

  -- The price of an hour is locked in a wallet of the user that could spend it.
  unfoldable pub Locked : Env D → SessionStartRequest D → World D → Wallet D → D → World D → Type 0
  Locked env req w wallet price w' =
      (find_first (is_wallet_of req.user_id WalletType.user) w.wallets ≡ some wallet)
      × ((can_spend price wallet ≡ true) × IsLocked env wallet price w w')

  take_lock-cases :
      (env : Env D) (wallet : Wallet D) (p : PricingResponse D) (w : World D)
      → let r = take_lock env wallet p w in
        ((r.1.sessions ≡ w.sessions) × (r.1.transactions ≡ w.transactions))
        × (((is_ok r.0 ≡ false) × (r.1.wallets ≡ w.wallets))
            ⊎ ((r.0 ≡ ok (after_lock env p.total_hourly_rate wallet, p))
                × ((can_spend p.total_hourly_rate wallet ≡ true)
                    × IsLocked env wallet p.total_hourly_rate w r.1)))
  unfolding take_lock IsLocked lock_funds update_wallet_balance after_lock
  take_lock-cases env wallet p w = ground arith

  -- lock_hour fails, or a wallet and a pricing are there and take_lock ends it.
  lock_hour-cases :
      (config : Config D) (env : Env D) (req : SessionStartRequest D) (w : World D)
      → ((is_ok (lock_hour config env req w).0 ≡ false)
          × Untouched w (lock_hour config env req w).1)
        ⊎ ((wallet : Wallet D) × ((p : PricingResponse D) × ((w1 : World D) × ((find_first
                      (is_wallet_of req.user_id WalletType.user)
                      w.wallets
                    ≡ some wallet)
                  × (IsHourPrice config env req p
                      × (Untouched w w1
                          × (lock_hour config env req w ≡ take_lock env wallet p w1)))))))
  unfolding lock_hour
  lock_hour-cases config env req w =
      let w1 : World D = (get_wallet_by_user_id env req.user_id WalletType.user w).1 in
      let (u1, c1) = get_wallet_by_user_id-cases env req.user_id WalletType.user w in
      let (u2, c2) = first_hour-cases config env req w1 in
      elim c1 [
        | inl e ↦ inl (ground arith)
        | inr (wallet, (found, e)) ↦ elim c2 [
          | inl f ↦ inl (ground arith)
          | inr (p, (f, priced)) ↦
              elim (Bool-cases (less_than (available_balance wallet) config.minimum_balance)) [
                | inl g ↦ inl (ground arith)
                | inr g ↦
                    inr (wallet, (p, (w1, (found, (priced, (u1, ground (arith, e, g, f, u2)))))))
              ]
        ]
      ]

  -- The ways out of StartRentalSession.
  unfoldable pub StartOutcome :
      Config D
      → Env D
      → SessionStartRequest D
      → World D
      → Result (SessionResponse D) × World D
      → Type 0
  StartOutcome config env req w r =
      ((is_ok r.0 ≡ false) × Untouched w r.1)
      ⊎ ((wallet : Wallet D) × ((p : PricingResponse D) × ((id : String) × (IsHourPrice config env
                  req p
                × (Locked env req w wallet p.total_hourly_rate r.1
                    × Opened env req wallet.id p.total_hourly_rate id w.sessions w.transactions
                        r)))))

  -- A start that fails early leaves wallets, sessions and transactions as they were.
  -- Else it has locked the total hourly rate of the pricing of one hour, at most what was available, in the wallet of
  -- the user; after that the active session of the request is there with a pending transaction of that
  -- price from the wallet, or an error is answered and the lock stays, with the session or without it.
  pub start_rental_session_outcome :
      (config : Config D) (env : Env D) (req : SessionStartRequest D) (w : World D)
      → StartOutcome config env req w (start_rental_session config env req w)
  unfolding start_rental_session StartOutcome Locked IsLocked after_lock
  start_rental_session_outcome config env req w = elim (lock_hour-cases config env req w) [
    | inl e ↦ inl (ground arith)
    | inr (wallet, (p, (w1, (found, (priced, (u1, e)))))) ↦
        let (same, c) = take_lock-cases env wallet p w1 in
        let w2 : World D = (take_lock env wallet p w1).1 in
        elim c [
          | inl k ↦ inl (ground arith)
          | inr (k, (can, l)) ↦
              let locked : Wallet D = after_lock env p.total_hourly_rate wallet in
              let r : Result (SessionResponse D) × World D = open_session env req p locked w2 in
              let same_run : start_rental_session config env req w ≡ r =
                bind-ok (lock_hour config env req) (λ x. open_session env req x.1 x.0) w (locked, p)
                  (ap (λ x. x.0) e ∙ k)
                ∙ ap (λ x. open_session env req p locked x.1) e in
              let id : String = env.fresh w2.drawn in
              let opened : Opened env req wallet.id p.total_hourly_rate id w.sessions w.transactions
                  r =
                subst (λ ss. Opened env req wallet.id p.total_hourly_rate id ss w.transactions r)
                  (ground (arith, u1, same))
                  (subst (λ ts. Opened env req wallet.id p.total_hourly_rate id w2.sessions ts r)
                    (ground (arith, u1, same)) (open_session-Opened env req p locked w2)) in
              subst (StartOutcome config env req w) (sym same_run) (
                inr (
                  wallet,
                  (
                    p,
                    (
                      id,
                      (
                        priced,
                        (
                          (
                            found,
                            (
                              can,
                              open_session-wallets env req p locked w2
                                  ∙ l
                                  ∙ ap
                                      (update_where (λ (v : Wallet D). text_eq v.id wallet.id)
                                        (set_balance env wallet.balance
                                          (add wallet.locked_balance p.total_hourly_rate)))
                                      u1.0,
                            ),
                          ),
                          opened,
                        ),
                      ),
                    ),
                  ),
                ))
        ]
  ]
