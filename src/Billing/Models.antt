-- ===== src/Billing/Models.antt =====
-- services/billing-payment-service/internal/models/{wallet,billing,errors}.go. The amounts are decimals, the
-- UUIDs are texts, and `now` is what `time.Now` answers.
use dantegpu_core.Prelude.{
  ℕ, String, Option, none, some, Bool, not, if◌then◌else◌, ℤ, pos, sub_ℕ, int64, Params,
}
use dantegpu_core.Decimal.{Decimals, add, sub, mul, div, from_int, less_than, greater_or_equal}

-- The errors that the operations answer with.
pub data Error : Type 0 where
  wallet_not_found session_not_found transaction_not_found : Error
  insufficient_funds wallet_exists session_not_active : Error
  -- `NewValidationError(field, message)`
  validation : String → String → Error
  -- `NewSolanaError(operation, cause)`
  solana : String → String → Error
  -- `fmt.Errorf("message: %w", cause)`
  failed : String → Error → Error
  -- another component's error, by its text
  message : String → Error
  -- the database refuses the statement, or does not answer
  database : Error
  -- a panic, which the HTTP server recovers from
  panic : Error

-- What an operation answers.
pub data Result (A : Type 0) : Type 0 where
  ok : A → Result A
  err : Error → Result A

-- `WalletType`
pub data WalletType : Type 0 where
  user provider platform : WalletType

-- `Wallet`
pub record Wallet (D : Type 0) : Type 0 where
  pub id : String
  pub user_id : String
  pub wallet_type : WalletType
  pub solana_address : String
  pub balance : D
  pub locked_balance : D
  pub pending_balance : D
  pub is_active : Bool
  pub created_at : ℕ
  pub updated_at : ℕ
  pub last_activity_at : Option ℕ

module _ {D : Type 0} ⦃d : Decimals D⦄ where
  -- `AvailableBalance`
  unfoldable pub available_balance : Wallet D → D
  available_balance w = sub w.balance w.locked_balance

  -- `TotalBalance`
  unfoldable pub total_balance : Wallet D → D
  total_balance w = add w.balance w.pending_balance

  -- `CanSpend`
  unfoldable pub can_spend : D → Wallet D → Bool
  unfolding available_balance
  can_spend amount w = greater_or_equal (available_balance w) amount

  -- `LockFunds`
  unfoldable pub lock_funds : ℕ → D → Wallet D → Result (Wallet D)
  unfolding can_spend
  lock_funds now amount w =
      if not (can_spend amount w)
      then err insufficient_funds
      else ok (record w { locked_balance = add w.locked_balance amount; updated_at = now })

  -- `UnlockFunds`
  unfoldable pub unlock_funds : ℕ → D → Wallet D → Wallet D
  unlock_funds now amount w =
      let left = sub w.locked_balance amount in
      record w { locked_balance = if less_than left d.zero then d.zero else left; updated_at = now }

  -- `DeductFunds`
  unfoldable pub deduct_funds : ℕ → D → Wallet D → Result (Wallet D)
  deduct_funds now amount w =
      if less_than w.balance amount
      then err insufficient_funds
      else ok (record w { balance = sub w.balance amount; updated_at = now })

  -- `AddFunds`
  unfoldable pub add_funds : ℕ → D → Wallet D → Wallet D
  add_funds now amount w = record w { balance = add w.balance amount; updated_at = now }

-- `SessionStatus`
pub data SessionStatus : Type 0 where
  active completed cancelled suspended terminated : SessionStatus

-- `RentalSession`
pub record RentalSession (D : Type 0) : Type 0 where
  pub id : String
  pub user_id : String
  pub provider_id : String
  pub job_id : Option String
  pub status : SessionStatus
  pub gpu_model : String
  pub allocated_vram : ℕ  -- uint64, in MB
  pub total_vram : ℕ  -- uint64, in MB
  pub vram_percentage : D
  pub hourly_rate : D
  pub vram_rate : D
  pub power_rate : D
  pub platform_fee_rate : D
  pub estimated_power_w : ℕ  -- uint32
  pub actual_power_w : Option ℕ  -- uint32
  pub started_at : ℕ
  pub ended_at : Option ℕ
  pub last_billed_at : ℕ
  pub total_cost : D
  pub platform_fee : D
  pub provider_earnings : D
  pub metadata : Params
  pub created_at : ℕ
  pub updated_at : ℕ

-- `Duration`, in microseconds
unfoldable pub duration : {D : Type 0} → ℕ → RentalSession D → ℤ
duration now s = elim s.ended_at [
  | none ↦ sub_ℕ now s.started_at
  | some ended ↦ sub_ℕ ended s.started_at
]

module _ {D : Type 0} ⦃d : Decimals D⦄ where
  -- `DurationHours`
  unfoldable pub duration_hours : ℕ → RentalSession D → D
  unfolding duration
  duration_hours now s = d.from_hours (duration now s)

  -- `CalculateCurrentCost`
  unfoldable pub calculate_current_cost : ℕ → RentalSession D → D
  unfolding duration_hours
  calculate_current_cost now s =
      let hours = duration_hours now s in
      let base_cost = mul s.hourly_rate hours in
      let vram_gb = div (from_int (int64 s.allocated_vram)) (from_int (pos 1024)) in
      let vram_cost = mul (mul s.vram_rate vram_gb) hours in
      let power_w : ℕ = elim s.actual_power_w [ some w ↦ w | none ↦ s.estimated_power_w ] in
      let power_kw = div (from_int (pos power_w)) (from_int (pos 1000)) in
      let power_cost = mul (mul s.power_rate power_kw) hours in
      add (add base_cost vram_cost) power_cost

-- `TransactionType`, as far as the service writes them
pub data TransactionType : Type 0 where
  deposit withdrawal payment payout refund platform_fee session_start session_end : TransactionType
  session_billing : TransactionType

-- `TransactionStatus`
pub data TransactionStatus : Type 0 where
  pending confirmed failed cancelled : TransactionStatus

-- `Transaction`
pub record Transaction (D : Type 0) : Type 0 where
  pub id : String
  pub from_wallet_id : Option String
  pub to_wallet_id : Option String
  pub type : TransactionType
  pub status : TransactionStatus
  pub amount : D
  pub fee : D
  pub description : String
  pub solana_signature : Option String
  pub session_id : Option String
  pub job_id : Option String
  pub metadata : Params
  pub created_at : ℕ
  pub updated_at : ℕ
  pub confirmed_at : Option ℕ

-- `TransactionCreateRequest`
pub record TransactionCreateRequest (D : Type 0) : Type 0 where
  pub from_wallet_id : Option String
  pub to_wallet_id : Option String
  pub type : TransactionType
  pub amount : D
  pub description : String
  pub session_id : Option String
  pub job_id : Option String
  pub metadata : Params

-- `WalletCreateRequest`
pub record WalletCreateRequest : Type 0 where
  pub user_id : String
  pub wallet_type : WalletType
  pub solana_address : String

-- `UsageRecord`
pub record UsageRecord (D : Type 0) : Type 0 where
  pub id : String
  pub session_id : String
  pub recorded_at : ℕ
  pub gpu_utilization : ℕ  -- uint8
  pub vram_utilization : ℕ  -- uint8
  pub power_draw : ℕ  -- uint32
  pub temperature : ℕ  -- uint8
  pub period_minutes : ℤ
  pub period_cost : D
  pub created_at : ℕ

-- `SessionStartRequest`; the service does not read `MaxHourlyRate`
pub record SessionStartRequest (D : Type 0) : Type 0 where
  pub user_id : String
  pub provider_id : String
  pub job_id : Option String
  pub gpu_model : String
  pub requested_vram : ℕ  -- uint64
  pub estimated_power_w : ℕ  -- uint32
  pub max_hourly_rate : Option D
  pub max_duration_hours : Option ℤ

-- `SessionEndRequest`
pub record SessionEndRequest : Type 0 where
  pub session_id : String
  pub reason : String

-- `UsageUpdateRequest`
pub record UsageUpdateRequest : Type 0 where
  pub session_id : String
  pub gpu_utilization : ℕ
  pub vram_utilization : ℕ
  pub power_draw : ℕ
  pub temperature : ℕ
  pub timestamp : ℕ

-- `SessionResponse`
pub record SessionResponse (D : Type 0) : Type 0 where
  pub session : RentalSession D
  pub current_cost : D
  pub estimated_hourly_cost : D
  pub remaining_balance : D
  pub estimated_runtime : D

-- `DepositRequest`
pub record DepositRequest (D : Type 0) : Type 0 where
  pub wallet_id : String
  pub amount : D
  pub solana_signature : String

-- `WithdrawalRequest`
pub record WithdrawalRequest (D : Type 0) : Type 0 where
  pub wallet_id : String
  pub amount : D
  pub to_address : String

-- `BalanceResponse`
pub record BalanceResponse (D : Type 0) : Type 0 where
  pub wallet_id : String
  pub balance : D
  pub locked_balance : D
  pub pending_balance : D
  pub available_balance : D
  pub total_balance : D
  pub last_updated : ℕ
