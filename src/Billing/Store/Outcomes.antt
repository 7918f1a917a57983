-- ===== src/Billing/Store/Outcomes.antt =====
-- What a statement of services/billing-payment-service/internal/store/postgres.go answers and leaves in the tables.
use dantegpu_core.Prelude.{
  String, [], ◌∷◌, ◌++◌, some, false, ◌≡◌, ◌⊎◌, inl, inr, arith, find_first, text_eq, Option-cases,
  Bool-cases,
}
use dantegpu_core.Decimal.{Decimals}
use dantegpu_core.Billing.Models.{ok, Wallet, WalletType, RentalSession, TransactionCreateRequest}
use dantegpu_core.Billing.World.{is_ok, Untouched, World, Env}
use dantegpu_core.Billing.Store.{
  get_wallet_by_user_id, is_wallet_of, update_wallet_balance, set_balance, update_where,
  create_transaction, insert_transaction, transaction_columns, new_transaction,
}
use dantegpu_core.Billing.Store.Sessions.{
  get_rental_session, update_rental_session, update_sessions, set_session, create_rental_session,
  insert_session, session_columns,
}

module _ {D : Type 0} ⦃d : Decimals D⦄ where
  -- A session is added or nothing is.
  pub create_rental_session-cases :
      (env : Env D) (s : RentalSession D) (w : World D)
      → let r = create_rental_session env s w in
        (r.1.transactions ≡ w.transactions)
        × (((r.0 ≡ ok tt) × (r.1.sessions ≡ w.sessions ++ session_columns env s ∷ []))
            ⊎ ((is_ok r.0 ≡ false) × (r.1.sessions ≡ w.sessions)))
  unfolding create_rental_session insert_session
  create_rental_session-cases env s w = ground arith

  -- A transaction is added or nothing is.
  pub create_transaction-cases :
      (env : Env D) (request : TransactionCreateRequest D) (w : World D)
      → let t = new_transaction env request (env.fresh w.drawn) in
        let r = create_transaction env request w in
        (r.1.sessions ≡ w.sessions)
        × (((r.0 ≡ ok t) × (r.1.transactions ≡ w.transactions ++ transaction_columns env t ∷ []))
            ⊎ ((is_ok r.0 ≡ false) × (r.1.transactions ≡ w.transactions)))
  unfolding create_transaction insert_transaction
  create_transaction-cases env request w = ground arith

  pub get_wallet_by_user_id-cases :
      (env : Env D) (user : String) (wallet_type : WalletType) (w : World D)
      → let r = get_wallet_by_user_id env user wallet_type w in
        Untouched w r.1
        × ((is_ok r.0 ≡ false)
            ⊎ ((wallet : Wallet D) × ((find_first (is_wallet_of user wallet_type) w.wallets
                    ≡ some wallet)
                  × (r.0 ≡ ok wallet))))
  unfolding get_wallet_by_user_id
  get_wallet_by_user_id-cases env user wallet_type w =
      elim (Option-cases (find_first (is_wallet_of user wallet_type) w.wallets)) [
        | inl e ↦ (ground arith, inl (ground arith))
        | inr (wallet, e) ↦ (
          ground arith,
          elim (Bool-cases (env.faulty w.statements)) [
            | inl f ↦ inl (ground arith)
            | inr f ↦ inr (wallet, (e, ground arith))
          ],
        )
      ]

  -- The balances are set, or the wallets stay.
  pub update_wallet_balance-cases :
      (env : Env D) (id : String) (balance locked : D) (w : World D)
      → let r = update_wallet_balance env id balance locked w in
        ((r.1.sessions ≡ w.sessions) × (r.1.transactions ≡ w.transactions))
        × (((is_ok r.0 ≡ false) × (r.1.wallets ≡ w.wallets))
            ⊎ ((r.0 ≡ ok tt)
                × (r.1.wallets
                    ≡ update_where
                        (λ (r : Wallet D). text_eq r.id id)
                        (set_balance env balance locked)
                        w.wallets)))
  unfolding update_wallet_balance
  update_wallet_balance-cases env id balance locked w = ground arith

  pub get_rental_session-cases :
      (env : Env D) (id : String) (w : World D)
      → let r = get_rental_session env id w in
        Untouched w r.1
        × ((is_ok r.0 ≡ false)
            ⊎ ((s : RentalSession D) × ((find_first
                      (λ (r : RentalSession D). text_eq r.id id)
                      w.sessions
                    ≡ some s)
                  × (r.0 ≡ ok s))))
  unfolding get_rental_session
  get_rental_session-cases env id w =
      elim (Option-cases (find_first (λ (r : RentalSession D). text_eq r.id id) w.sessions)) [
        | inl e ↦ (ground arith, inl (ground arith))
        | inr (s, e) ↦ (
          ground arith,
          elim (Bool-cases (env.faulty w.statements)) [
            | inl f ↦ inl (ground arith)
            | inr f ↦ inr (s, (e, ground arith))
          ],
        )
      ]

  pub update_rental_session-cases :
      (env : Env D) (s : RentalSession D) (w : World D)
      → let r = update_rental_session env s w in
        (r.1.wallets ≡ w.wallets)
        × (((is_ok r.0 ≡ false) × (r.1.sessions ≡ w.sessions))
            ⊎ ((r.0 ≡ ok tt)
                × (r.1.sessions
                    ≡ update_where
                        (λ (r : RentalSession D). text_eq r.id s.id)
                        (set_session env s)
                        w.sessions)))
  unfolding update_rental_session update_sessions
  update_rental_session-cases env s w = ground arith
