-- ===== src/Billing/Store.antt =====
-- services/billing-payment-service/internal/store/postgres.go and the constraints of schema.go. A table is the
-- list of its rows in the order of insertion. An error carries the message of `fmt.Errorf` and the cause.

pub mod Sessions
pub mod Outcomes
use dantegpu_core.Prelude.{
  ℕ, suc, String, List, [], ◌∷◌, ◌++◌, map, Option, none, some, Bool, true, false, not, ◌&&◌, ◌||◌,
  if◌then◌else◌, ltb, leb, find_first, filter, text_eq, is_some,
}
use dantegpu_core.Decimal.{Decimals, less_than, greater_than}
use dantegpu_core.Billing.Models.{
  Error, Result, ok, err, Wallet, WalletType, WalletCreateRequest, Transaction, TransactionStatus,
  TransactionCreateRequest, RentalSession, SessionStatus, UsageRecord, wallet_not_found,
  session_not_found, transaction_not_found, database, failed,
}
use dantegpu_core.Billing.World.{
  World, Env, Billing, return, fail, ◌>>=◌, ◌>>◌, wrapped, guard, new_uuid, send,
}

abbrev pub same_type : WalletType → WalletType → Bool
same_type WalletType.user WalletType.user = true
same_type WalletType.provider WalletType.provider = true
same_type WalletType.platform WalletType.platform = true
same_type _ _ = false

-- Some row passes the test.
abbrev pub any_row {ℓ} : {R : Type ℓ} → (R → Bool) → List R → Bool
any_row test [] = false
any_row test (r ∷ rows) = test r || any_row test rows

-- The rows that a statement with `WHERE id = $1` changes.
abbrev pub update_where : {R : Type 0} → (R → Bool) → (R → R) → List R → List R
update_where test change rows = map (λ r. if test r then change r else r) rows

module _ {D : Type 0} ⦃d : Decimals D⦄ where
  unfoldable pub new_wallet : Env D → WalletCreateRequest → String → Wallet D
  new_wallet env req id = record {
    id = id;
    user_id = req.user_id;
    wallet_type = req.wallet_type;
    solana_address = req.solana_address;
    balance = d.zero;
    locked_balance = d.zero;
    pending_balance = d.zero;
    is_active = true;
    created_at = env.now;
    updated_at = env.now;
    last_activity_at = none;
  }

  -- The primary key and `UNIQUE(user_id, wallet_type)`, `UNIQUE(solana_address)`.
  unfoldable pub wallet_clashes : Wallet D → Wallet D → Bool
  wallet_clashes new w =
      text_eq w.id new.id
      || (text_eq w.user_id new.user_id && same_type w.wallet_type new.wallet_type)
      || text_eq w.solana_address new.solana_address

  unfoldable pub insert_wallet : Wallet D → Billing D (Unit {0})
  unfolding wallet_clashes
  insert_wallet wallet w =
      if any_row (wallet_clashes wallet) w.wallets
      then (err database, w)
      else (ok tt, record w { wallets = w.wallets ++ wallet ∷ [] })

  -- `CreateWallet`
  unfoldable pub create_wallet_row : Env D → WalletCreateRequest → Billing D (Wallet D)
  unfolding new_wallet insert_wallet
  create_wallet_row env req = do
    id ← new_uuid env
    wrapped "failed to create wallet" (do send env; insert_wallet (new_wallet env req id))
    return (new_wallet env req id)

  -- `GetWallet`
  unfoldable pub get_wallet : Env D → String → Billing D (Wallet D)
  get_wallet env id = do
    wrapped "failed to get wallet" (send env)
    λ w. elim (find_first (λ (r : Wallet D). text_eq r.id id) w.wallets) [
      | some wallet ↦ (ok wallet, w)
      | none ↦ (err wallet_not_found, w)
    ]

  -- `GetWalletByUserID`
  unfoldable pub is_wallet_of : String → WalletType → Wallet D → Bool
  is_wallet_of user wallet_type r = text_eq r.user_id user && same_type r.wallet_type wallet_type

  unfoldable pub get_wallet_by_user_id : Env D → String → WalletType → Billing D (Wallet D)
  unfolding is_wallet_of
  get_wallet_by_user_id env user wallet_type = do
    wrapped "failed to get wallet" (send env)
    λ w. elim (find_first (is_wallet_of user wallet_type) w.wallets) [
      | some wallet ↦ (ok wallet, w)
      | none ↦ (err wallet_not_found, w)
    ]

  -- The `SET` of `UpdateWalletBalance`.
  unfoldable pub set_balance : Env D → D → D → Wallet D → Wallet D
  set_balance env balance locked r = record r {
    balance = env.column balance;
    locked_balance = env.column locked;
    updated_at = env.now;
    last_activity_at = some env.now;
  }

  -- `UpdateWalletBalance`
  unfoldable pub update_wallet_balance : Env D → String → D → D → Billing D (Unit {0})
  unfolding set_balance
  update_wallet_balance env id balance locked = do
    wrapped "failed to update wallet balance" (send env)
    λ w.
        if any_row (λ (r : Wallet D). text_eq r.id id) w.wallets
        then (
          ok tt,
          record w {
            wallets =
                update_where (λ r. text_eq r.id id) (set_balance env balance locked) w.wallets;
          },
        )
        else (err wallet_not_found, w)

  -- The transaction that `CreateTransaction` builds.
  unfoldable pub new_transaction : Env D → TransactionCreateRequest D → String → Transaction D
  new_transaction env req id = record {
    id = id;
    from_wallet_id = req.from_wallet_id;
    to_wallet_id = req.to_wallet_id;
    type = req.type;
    status = TransactionStatus.pending;
    amount = req.amount;
    fee = d.zero;
    description = req.description;
    solana_signature = none;
    session_id = req.session_id;
    job_id = req.job_id;
    metadata = req.metadata;
    created_at = env.now;
    updated_at = env.now;
    confirmed_at = none;
  }

  -- `REFERENCES wallets(id)`, where NULL passes
  unfoldable pub is_wallet_or_null : World D → Option String → Bool
  is_wallet_or_null w none = true
  is_wallet_or_null w (some id) = any_row (λ (r : Wallet D). text_eq r.id id) w.wallets

  -- The constraints of the table on a new row: the key, the references and the CHECKs that a
  -- new transaction can fail.
  unfoldable pub accepts_transaction : World D → Transaction D → Bool
  unfolding is_wallet_or_null
  accepts_transaction w t =
      not (any_row (λ (r : Transaction D). text_eq r.id t.id) w.transactions)
      && is_wallet_or_null w t.from_wallet_id
      && is_wallet_or_null w t.to_wallet_id
      && greater_than t.amount d.zero
      && not (less_than t.fee d.zero)
      && (is_some t.from_wallet_id || is_some t.to_wallet_id)

  unfoldable pub transaction_columns : Env D → Transaction D → Transaction D
  transaction_columns env t = record t { amount = env.column t.amount; fee = env.column t.fee }

  unfoldable pub insert_transaction : Transaction D → Billing D (Unit {0})
  unfolding accepts_transaction
  insert_transaction t w =
      if accepts_transaction w t
      then (ok tt, record w { transactions = w.transactions ++ t ∷ [] })
      else (err database, w)

  -- `CreateTransaction`
  unfoldable pub create_transaction : Env D → TransactionCreateRequest D → Billing D (Transaction D)
  unfolding new_transaction transaction_columns insert_transaction
  create_transaction env req = do
    id ← new_uuid env
    wrapped "failed to create transaction"
        (do send env; insert_transaction (transaction_columns env (new_transaction env req id)))
    return (new_transaction env req id)

  -- The `SET` of `UpdateTransactionStatus`.
  unfoldable pub set_status :
      Env D → TransactionStatus → Option String → Transaction D → Transaction D
  set_status env status signature r = record r {
    status = status;
    solana_signature = signature;
    confirmed_at = elim status [ TransactionStatus.confirmed ↦ some env.now | _ ↦ none ];
    updated_at = env.now;
  }

  -- `UpdateTransactionStatus`
  unfoldable pub update_transaction_status :
      Env D → String → TransactionStatus → Option String → Billing D (Unit {0})
  unfolding set_status
  update_transaction_status env id status signature = do
    wrapped "failed to update transaction status" (send env)
    λ w.
        if any_row (λ (r : Transaction D). text_eq r.id id) w.transactions
        then (
          ok tt,
          record w {
            transactions =
                update_where (λ r. text_eq r.id id) (set_status env status signature)
                  w.transactions;
          },
        )
        else (err transaction_not_found, w)

  -- `GetTransaction`
  unfoldable pub get_transaction : Env D → String → Billing D (Transaction D)
  get_transaction env id = do
    wrapped "failed to get transaction" (send env)
    λ w. elim (find_first (λ (r : Transaction D). text_eq r.id id) w.transactions) [
      | some t ↦ (ok t, w)
      | none ↦ (err transaction_not_found, w)
    ]
