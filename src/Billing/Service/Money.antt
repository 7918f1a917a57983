-- ===== src/Billing/Service/Money.antt =====
-- What ProcessDeposit and ProcessWithdrawal do with the money, on each of their ways out.
use dantegpu_core.Prelude.{
  Answer-cases, ℕ, suc, String, List, [], ◌∷◌, ◌++◌, some, true, false, ◌≡◌, ap, ◌∙◌, ◌⊎◌, inl, inr,
  arith, find_first, text_eq, eq_iff, Answer, Option-cases, Bool-cases,
}
use dantegpu_core.Decimal.{Decimals, add, sub, greater_than}
use dantegpu_core.Billing.Models.{
  Result, ok, Wallet, DepositRequest, WithdrawalRequest, Transaction, can_spend, add_funds,
  deduct_funds,
}
use dantegpu_core.Billing.World.{is_ok, bind-ok, World, Env, Effect}
use dantegpu_core.Billing.Store.{
  get_wallet, update_wallet_balance, set_balance, update_where, create_transaction,
  insert_transaction, any_row, update_transaction_status,
}
use dantegpu_core.Billing.Service.{Config}
use dantegpu_core.Billing.Service.Funds.{
  credit, process_deposit, process_withdrawal, transfer_tokens, withdraw,
}

module _ {D : Type 0} ⦃d : Decimals D⦄ where
  -- The wallet's balance becomes an amount; what is locked stays.
  unfoldable pub HasBalance : Env D → Wallet D → D → World D → World D → Type 0
  HasBalance env wallet balance w w' =
      w'.wallets
      ≡ update_where (λ (r : Wallet D). text_eq r.id wallet.id)
          (set_balance env balance wallet.locked_balance) w.wallets

  -- Nothing was sent and no wallet changed.
  unfoldable pub NothingMoved : World D → World D → Type 0
  NothingMoved w w' = (w'.wallets ≡ w.wallets) × (w'.effects ≡ w.effects)

  -- One transfer, and what became of the wallet.
  unfoldable pub Withdrawn :
      Env D → WithdrawalRequest D → Wallet D → World D → Result (Transaction D) × World D → Type 0
  Withdrawn env req wallet w r =
      (r.1.effects
        ≡ w.effects ++ Effect.transferred wallet.solana_address req.to_address req.amount ∷ [])
      × (((is_ok r.0 ≡ true) × HasBalance env wallet (sub wallet.balance req.amount) w r.1)
          ⊎ ((is_ok r.0 ≡ false) × (r.1.wallets ≡ w.wallets)))

  -- The ways out of ProcessWithdrawal.
  unfoldable pub WithdrawalOutcome :
      Config D → Env D → WithdrawalRequest D → World D → Result (Transaction D) × World D → Type 0
  WithdrawalOutcome config env req w r =
      ((is_ok r.0 ≡ false) × NothingMoved w r.1)
      ⊎ ((wallet : Wallet D) × ((find_first (λ (v : Wallet D). text_eq v.id req.wallet_id) w.wallets
              ≡ some wallet)
            × ((can_spend req.amount wallet ≡ true)
                × ((greater_than req.amount config.daily_withdrawal_limit ≡ false)
                    × Withdrawn env req wallet w r))))

  get_wallet-cases :
      (env : Env D) (id : String) (w : World D)
      → let r = get_wallet env id w in
        NothingMoved w r.1
        × ((is_ok r.0 ≡ false)
            ⊎ ((wallet : Wallet D) × ((find_first (λ (v : Wallet D). text_eq v.id id) w.wallets
                    ≡ some wallet)
                  × (r.0 ≡ ok wallet))))
  unfolding get_wallet NothingMoved
  get_wallet-cases env id w =
      elim (Option-cases (find_first (λ (v : Wallet D). text_eq v.id id) w.wallets)) [
        | inl e ↦ (ground arith, inl (ground arith))
        | inr (wallet, e) ↦ (
          ground arith,
          elim (Bool-cases (env.faulty w.statements)) [
            | inl f ↦ inl (ground arith)
            | inr f ↦ inr (wallet, (e, ground arith))
          ],
        )
      ]

  withdraw-cases :
      (config : Config D) (env : Env D) (req : WithdrawalRequest D) (wallet : Wallet D)
      (w : World D)
      → let r = withdraw config env req wallet w in
        ((is_ok r.0 ≡ false) × NothingMoved w r.1)
        ⊎ ((can_spend req.amount wallet ≡ true)
            × ((greater_than req.amount config.daily_withdrawal_limit ≡ false)
                × Withdrawn env req wallet w r))
  unfolding withdraw NothingMoved Withdrawn HasBalance transfer_tokens create_transaction
      insert_transaction deduct_funds update_wallet_balance update_transaction_status
  withdraw-cases config env req wallet w = ground arith

  Withdrawn-same :
      (env : Env D) (req : WithdrawalRequest D) (wallet : Wallet D) (w w1 : World D)
      (r : Result (Transaction D) × World D)
      → NothingMoved w w1
      → Withdrawn env req wallet w1 r
      → Withdrawn env req wallet w r
  unfolding Withdrawn NothingMoved HasBalance
  Withdrawn-same env req wallet w w1 r u k =
      let sent = Effect.transferred wallet.solana_address req.to_address req.amount in
      (
        k.0 ∙ ap (λ es. es ++ sent ∷ []) u.1,
        elim k.1 [
          | inl x ↦ inl (
            x.0,
            x.1
                ∙ ap
                    (update_where (λ (r : Wallet D). text_eq r.id wallet.id)
                      (set_balance env (sub wallet.balance req.amount) wallet.locked_balance))
                    u.0,
          )
          | inr x ↦ inr (x.0, x.1 ∙ u.0)
        ],
      )

  withdrawal_run :
      (config : Config D) (env : Env D) (req : WithdrawalRequest D) (w : World D)
      (wallet : Wallet D)
      → (get_wallet env req.wallet_id w).0 ≡ ok wallet
      → process_withdrawal config env req w
        ≡ withdraw config env req wallet (get_wallet env req.wallet_id w).1
  unfolding process_withdrawal
  withdrawal_run config env req w wallet e =
      bind-ok (get_wallet env req.wallet_id) (withdraw config env req) w wallet e

  withdrawal_err :
      (config : Config D) (env : Env D) (req : WithdrawalRequest D) (w : World D)
      → is_ok (get_wallet env req.wallet_id w).0 ≡ false
      → (is_ok (process_withdrawal config env req w).0 ≡ false)
        × ((process_withdrawal config env req w).1 ≡ (get_wallet env req.wallet_id w).1)
  unfolding process_withdrawal
  withdrawal_err config env req w e = ground arith

  -- Every run of ProcessWithdrawal fails with nothing sent and no wallet changed, or it sends
  -- the amount once, which the wallet had available and the limit allowed. After the transfer either the
  -- wallet is charged the amount, or an error is answered and no wallet changes.
  pub process_withdrawal_outcome :
      (config : Config D) (env : Env D) (req : WithdrawalRequest D) (w : World D)
      → WithdrawalOutcome config env req w (process_withdrawal config env req w)
  unfolding WithdrawalOutcome NothingMoved Withdrawn HasBalance
  process_withdrawal_outcome config env req w =
      let w1 : World D = (get_wallet env req.wallet_id w).1 in
      let (u, c) = get_wallet-cases env req.wallet_id w in
      elim c [
        | inl e ↦ inl (ground (arith, withdrawal_err config env req w e, u))
        | inr (wallet, (found, e)) ↦
            rw (withdrawal_run config env req w wallet e)
              (elim (withdraw-cases config env req wallet w1) [
                | inl k ↦ inl (k.0, (k.1.0 ∙ u.0, k.1.1 ∙ u.1))
                | inr (can, (limit, k)) ↦ inr (
                  wallet,
                  (
                    found,
                    (
                      can,
                      (
                        limit,
                        Withdrawn-same env req wallet w w1 (withdraw config env req wallet w1) u k,
                      ),
                    ),
                  ),
                )
              ])
      ]

  found_row :
      (id : String) (ws : List (Wallet D)) (wallet : Wallet D)
      → find_first (λ (v : Wallet D). text_eq v.id id) ws ≡ some wallet
      → any_row (λ (r : Wallet D). text_eq r.id wallet.id) ws ≡ true
  found_row id [] wallet e = cc
  found_row id (v ∷ ws) wallet e = elim (Bool-cases (text_eq v.id id)) [
    | inl h ↦ ground (arith, e, h, eq_iff v.id wallet.id)
    | inr h ↦ ground (arith, e, h, found_row id ws wallet)
  ]

  credit-cases :
      (env : Env D) (req : DepositRequest D) (wallet : Wallet D) (w : World D)
      → let r = credit env req wallet w in
        (r.1.wallets ≡ w.wallets) ⊎ HasBalance env wallet (add wallet.balance req.amount) w r.1
  unfolding credit HasBalance update_wallet_balance create_transaction insert_transaction
      update_transaction_status add_funds
  credit-cases env req wallet w = ground arith

  -- A deposit changes no wallet, or adds its amount to the balance of its wallet.
  pub process_deposit-cases :
      (env : Env D) (req : DepositRequest D) (w : World D)
      → ((process_deposit env req w).1.wallets ≡ w.wallets)
        ⊎ ((wallet : Wallet D) × ((find_first
                  (λ (v : Wallet D). text_eq v.id req.wallet_id)
                  w.wallets
                ≡ some wallet)
              × HasBalance env wallet
                  (add wallet.balance req.amount)
                  w
                  (process_deposit env req w).1))
  unfolding process_deposit HasBalance NothingMoved
  process_deposit-cases env req w =
      let w1 : World D = (get_wallet env req.wallet_id w).1 in
      let (u, c) = get_wallet-cases env req.wallet_id w in
      elim (Answer-cases (env.confirm req.solana_signature)) [
        | inr (m, a) ↦ inl (ground (arith, a))
        | inl (x, a) ↦ elim c [
          | inl e ↦ inl (ground (arith, a, e, u))
          | inr (wallet, (found, e)) ↦ elim (credit-cases env req wallet w1) [
            | inl k ↦ inl (ground (arith, a, e, u, k))
            | inr k ↦ inr (wallet, (found, ground (arith, a, e, u, k)))
          ]
        ]
      ]

  -- A deposit that the chain confirms credits its amount to the wallet, whatever transactions are
  -- stored, one with the same signature included, if the database answers and has the wallet.
  pub deposit_credits_whatever_history :
      (env : Env D) (req : DepositRequest D) (w : World D) (wallet : Wallet D)
      → env.confirm req.solana_signature ≡ Answer.ok tt
      → ((n : ℕ) → env.faulty n ≡ false)
      → find_first (λ (v : Wallet D). text_eq v.id req.wallet_id) w.wallets ≡ some wallet
      → HasBalance env wallet (add wallet.balance req.amount) w (process_deposit env req w).1
  unfolding process_deposit credit HasBalance get_wallet update_wallet_balance create_transaction
      insert_transaction update_transaction_status add_funds
  deposit_credits_whatever_history env req w wallet c healthy found = ground (
    arith,
    c,
    found,
    healthy w.statements,
    healthy (suc w.statements),
    found_row req.wallet_id w.wallets wallet found,
  )
