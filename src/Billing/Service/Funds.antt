-- ===== src/Billing/Service/Funds.antt =====
-- services/billing-payment-service/internal/service/billing.go: wallets, deposits and withdrawals, and the current
-- usage.
use dantegpu_core.Prelude.{
  ℕ, String, append, [], ◌∷◌, none, some, Bool, not, ◌&&◌, if◌then◌else◌, leb, pos, int64, Answer,
  Json,
}
use dantegpu_core.Decimal.{Decimals, add, sub, mul, div, from_int, less_than, greater_than}
use dantegpu_core.Billing.Models.{
  Error, ok, err, Wallet, WalletType, WalletCreateRequest, available_balance, total_balance,
  can_spend, deduct_funds, add_funds, RentalSession, SessionResponse, BalanceResponse,
  DepositRequest, WithdrawalRequest, Transaction, TransactionType, TransactionStatus,
  TransactionCreateRequest, calculate_current_cost, insufficient_funds, wallet_exists, validation,
  solana, failed,
}
use dantegpu_core.Billing.World.{
  Env, Effect, Billing, return, fail, ◌>>=◌, ◌>>◌, wrapped, logged, guard, lift, emit,
}
use dantegpu_core.Billing.Store.{
  get_wallet, get_wallet_by_user_id, create_wallet_row, update_wallet_balance, create_transaction,
  update_transaction_status,
}
use dantegpu_core.Billing.Store.Sessions.{get_rental_session}
use dantegpu_core.Billing.Service.{Config}

-- The length of a text in bytes is given, since `len` of a Go string counts bytes.
unfoldable pub is_valid_solana_address : (String → ℕ) → String → Bool
is_valid_solana_address byte_length address =
    leb 32 (byte_length address) && leb (byte_length address) 44

-- The result of a call to the outside, with the operation of `NewSolanaError`.
abbrev pub asked : {D A : Type 0} → String → Answer A → Billing D A
asked operation (Answer.ok a) w = (ok a, w)
asked operation (Answer.err m) w = (err (solana operation m), w)

module _ {D : Type 0} ⦃d : Decimals D⦄ where
  -- `GetWalletByUserID` in `CreateWallet`: a wallet is refused, and that there is none is no error.
  unfoldable pub check_no_wallet : Env D → WalletCreateRequest → Billing D (Unit {0})
  check_no_wallet env req w =
      let found = get_wallet_by_user_id env req.user_id req.wallet_type w in
      elim found.0 [
        | ok wallet ↦ (err wallet_exists, found.1)
        | err e ↦ elim e [
          | Error.wallet_not_found ↦ (ok tt, found.1)
          | other ↦ (err (failed "failed to check existing wallet" other), found.1)
        ]
      ]

  -- `CreateWallet`
  unfoldable pub create_wallet : (String → ℕ) → Env D → WalletCreateRequest → Billing D (Wallet D)
  unfolding is_valid_solana_address check_no_wallet
  create_wallet byte_length env req = do
    guard (is_valid_solana_address byte_length req.solana_address)
        (validation "solana_address" "invalid Solana address format")
    check_no_wallet env req
    asked "create_ata" (env.create_ata req.solana_address)
    wrapped "failed to create wallet" (create_wallet_row env req)

  -- The balance on Solana, the stored one where Solana does not answer.
  unfoldable pub chain_balance : Env D → Wallet D → D
  chain_balance env wallet = elim (env.token_balance wallet.solana_address) [
    | Answer.ok balance ↦ balance
    | Answer.err m ↦ wallet.balance
  ]

  -- `a.Sub(b).Abs().GreaterThan(decimal.NewFromFloat(0.001))`
  unfoldable pub differs : D → D → Bool
  differs a b =
      let difference = sub a b in
      let size = if less_than difference d.zero then sub d.zero difference else difference in
      greater_than size (d.literal (pos 1) 3)

  -- The stored balance follows Solana's; a failed update is logged.
  unfoldable pub synchronise : Env D → Wallet D → Billing D (Wallet D)
  unfolding chain_balance differs
  synchronise env wallet w =
      if differs (chain_balance env wallet) wallet.balance
      then (let updated =
            update_wallet_balance env wallet.id (chain_balance env wallet) wallet.locked_balance
              w in
          elim updated.0 [
            | ok _ ↦ (ok (record wallet { balance = chain_balance env wallet }), updated.1)
            | err _ ↦ (ok wallet, updated.1)
          ])
      else (ok wallet, w)

  -- `GetWalletBalance`
  unfoldable pub get_wallet_balance : Env D → String → Billing D (BalanceResponse D)
  unfolding synchronise
  get_wallet_balance env id = do
    stored ← get_wallet env id
    wallet ← synchronise env stored
    return record {
      wallet_id = wallet.id;
      balance = wallet.balance;
      locked_balance = wallet.locked_balance;
      pending_balance = wallet.pending_balance;
      available_balance = available_balance wallet;
      total_balance = total_balance wallet;
      last_updated = wallet.updated_at;
    }

  -- `GetUserBalance`
  unfoldable pub get_user_balance : Env D → String → Billing D (BalanceResponse D)
  unfolding get_wallet_balance
  get_user_balance env user = do
    wallet ← get_wallet_by_user_id env user WalletType.user
    get_wallet_balance env wallet.id

  -- The rate of a session, with the VRAM and the actual power.
  unfoldable pub current_rate : RentalSession D → D
  current_rate s =
      let vram_gb = div (from_int (int64 s.allocated_vram)) (from_int (pos 1024)) in
      let with_vram : D =
        if greater_than s.vram_rate d.zero
        then add s.hourly_rate (mul s.vram_rate vram_gb)
        else s.hourly_rate in
      elim s.actual_power_w [
        | none ↦ with_vram
        | some power ↦
            if greater_than s.power_rate d.zero
            then add with_vram (mul s.power_rate (div (from_int (pos power)) (from_int (pos 1000))))
            else with_vram
      ]

  -- `GetCurrentUsage`
  unfoldable pub get_current_usage : Env D → String → Billing D (SessionResponse D)
  unfolding current_rate
  get_current_usage env id = do
    s ← get_rental_session env id
    wallet ← get_wallet_by_user_id env s.user_id WalletType.user
    return record {
      session = s;
      current_cost = calculate_current_cost env.now s;
      estimated_hourly_cost = current_rate s;
      remaining_balance = available_balance wallet;
      estimated_runtime =
          if greater_than (current_rate s) d.zero
          then div (available_balance wallet) (current_rate s)
          else d.zero;
    }

  unfoldable pub deposit_transaction : DepositRequest D → Wallet D → TransactionCreateRequest D
  deposit_transaction req wallet = record {
    from_wallet_id = none;
    to_wallet_id = some wallet.id;
    type = TransactionType.deposit;
    amount = req.amount;
    description = "USDC deposit";
    session_id = none;
    job_id = none;
    metadata = ("solana_signature", Json.str req.solana_signature) ∷ [];
  }

  -- `ProcessDeposit`, into a wallet.
  unfoldable pub credit : Env D → DepositRequest D → Wallet D → Billing D (Transaction D)
  unfolding deposit_transaction
  credit env req stored = do
    let wallet : Wallet D = add_funds env.now req.amount stored
    wrapped "failed to update wallet balance"
        (update_wallet_balance env wallet.id wallet.balance wallet.locked_balance)
    t ←
        wrapped "failed to create transaction"
          (create_transaction env (deposit_transaction req wallet))
    logged
        (update_transaction_status env t.id TransactionStatus.confirmed (some req.solana_signature))
    return t

  -- `ProcessDeposit`
  unfoldable pub process_deposit : Env D → DepositRequest D → Billing D (Transaction D)
  unfolding credit
  process_deposit env req = do
    asked "confirm_deposit" (env.confirm req.solana_signature)
    stored ← get_wallet env req.wallet_id
    credit env req stored

  unfoldable pub withdrawal_transaction :
      WithdrawalRequest D → Wallet D → TransactionCreateRequest D
  withdrawal_transaction req wallet = record {
    from_wallet_id = some wallet.id;
    to_wallet_id = none;
    type = TransactionType.withdrawal;
    amount = req.amount;
    description = append "USDC withdrawal to " req.to_address;
    session_id = none;
    job_id = none;
    metadata = ("to_address", Json.str req.to_address) ∷ [];
  }

  -- The transfer of a withdrawal: a failure marks the transaction.
  unfoldable pub transfer_tokens :
      Env D → WithdrawalRequest D → Wallet D → String → Billing D String
  transfer_tokens env req wallet id =
      elim (env.transfer wallet.solana_address req.to_address req.amount) [
        | Answer.ok signature ↦ do
          emit (Effect.transferred wallet.solana_address req.to_address req.amount)
          return signature
        | Answer.err m ↦ do
          logged (update_transaction_status env id TransactionStatus.failed none)
          fail (solana "transfer_tokens" m)
      ]

  -- `ProcessWithdrawal`, from a wallet.
  unfoldable pub withdraw :
      Config D → Env D → WithdrawalRequest D → Wallet D → Billing D (Transaction D)
  unfolding withdrawal_transaction transfer_tokens
  withdraw config env req wallet = do
    guard (can_spend req.amount wallet) insufficient_funds
    guard (not (greater_than req.amount config.daily_withdrawal_limit))
        (validation "amount" "exceeds daily withdrawal limit")
    t ←
        wrapped "failed to create transaction"
          (create_transaction env (withdrawal_transaction req wallet))
    signature ← transfer_tokens env req wallet t.id
    paid ← lift (deduct_funds env.now req.amount wallet)
    update_wallet_balance env paid.id paid.balance paid.locked_balance
    logged (update_transaction_status env t.id TransactionStatus.confirmed (some signature))
    return t

  -- `ProcessWithdrawal`
  unfoldable pub process_withdrawal :
      Config D → Env D → WithdrawalRequest D → Billing D (Transaction D)
  unfolding withdraw
  process_withdrawal config env req = do
    wallet ← get_wallet env req.wallet_id
    withdraw config env req wallet
