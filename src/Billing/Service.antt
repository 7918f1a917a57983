-- ===== src/Billing/Service.antt =====
-- services/billing-payment-service/internal/service/billing.go: the start of a session.

pub mod Usage
pub mod Ending
pub mod Funds
pub mod Starts
pub mod Ends
pub mod Money
pub mod Reports
pub mod Sound
pub mod Runs
use dantegpu_core.Prelude.{
  ℕ, String, append, List, [], ◌∷◌, Option, none, some, Bool, true, false, not, ◌&&◌, ◌||◌,
  if◌then◌else◌, ◌==◌, ℤ, pos, int64, ltb_ℤ, Unicode, Answer, Json, get_param, put_param, Params,
  text_eq,
}
use dantegpu_core.Decimal.{Decimals, add, sub, mul, div, from_int, less_than, greater_than}
use dantegpu_core.Billing.Models.{
  Error, Result, ok, err, Wallet, WalletType, available_balance, lock_funds, unlock_funds,
  deduct_funds, RentalSession, SessionStatus, SessionStartRequest, SessionEndRequest,
  SessionResponse, UsageUpdateRequest, UsageRecord, TransactionType, TransactionCreateRequest,
  calculate_current_cost, session_not_active, insufficient_funds, message, failed, panic,
}
use dantegpu_core.Billing.Pricing.{
  Engine, PricingRequest, PricingResponse, Priced, calculate_pricing,
}
use dantegpu_core.Billing.World.{
  World, Env, Effect, RentalJob, Opening, Billing, return, fail, ◌>>=◌, ◌>>◌, wrapped, logged,
  guard, lift, emit, new_uuid,
}
use dantegpu_core.Billing.Store.{get_wallet_by_user_id, update_wallet_balance, create_transaction}
use dantegpu_core.Billing.Store.Sessions.{
  create_rental_session, get_rental_session, update_rental_session, create_usage_record,
}

-- `Config` and the pricing engine
pub record Config (D : Type 0) : Type 0 where
  pub minimum_balance : D
  pub daily_withdrawal_limit : D
  pub engine : Engine D

module _ {D : Type 0} ⦃d : Decimals D⦄ where
  unfoldable pub first_hour_request : SessionStartRequest D → PricingRequest D
  first_hour_request req = record {
    gpu_model = req.gpu_model;
    requested_vram = req.requested_vram;
    total_vram = req.requested_vram;
    estimated_power_w = req.estimated_power_w;
    duration_hours = from_int (pos 1);
    provider_id = some req.provider_id;
    user_id = some req.user_id;
  }

  unfoldable pub new_session :
      Env D → SessionStartRequest D → PricingResponse D → String → RentalSession D
  new_session env req p id = record {
    id = id;
    user_id = req.user_id;
    provider_id = req.provider_id;
    job_id = req.job_id;
    status = SessionStatus.active;
    gpu_model = req.gpu_model;
    allocated_vram = req.requested_vram;
    total_vram = req.requested_vram;
    vram_percentage = from_int (pos 100);
    hourly_rate = p.base_hourly_rate;
    vram_rate = p.vram_hourly_rate;
    power_rate = p.power_hourly_rate;
    platform_fee_rate = from_int (pos 5);
    estimated_power_w = req.estimated_power_w;
    actual_power_w = none;
    started_at = env.now;
    ended_at = none;
    last_billed_at = env.now;
    total_cost = d.zero;
    platform_fee = d.zero;
    provider_earnings = d.zero;
    metadata = [];
    created_at = env.now;
    updated_at = env.now;
  }

  -- The booked hours: one, unless the request has a positive number.
  unfoldable pub booked_hours : SessionStartRequest D → ℤ
  booked_hours req = elim req.max_duration_hours [
    | none ↦ pos 1
    | some hours ↦ if ltb_ℤ (pos 0) hours then hours else pos 1
  ]

  unfoldable pub escrow_metadata : Env D → D → RentalJob → RentalSession D → RentalSession D
  escrow_metadata env amount job s = record s {
    metadata = put_param "covenant_escrow_amount" (Json.str (env.show amount)) (
        put_param "covenant_poster" (Json.str job.poster) (
          put_param "covenant_spec_hash" (Json.str job.spec_hash)
            (put_param "covenant_job_pda" (Json.str job.job_pda) s.metadata)));
  }

  -- The escrow of a new session, where the Covenant manager is configured.
  unfoldable pub open_escrow :
      Env D
      → SessionStartRequest D
      → PricingResponse D
      → RentalSession D
      → Billing D (RentalSession D)
  unfolding booked_hours escrow_metadata
  open_escrow env req p s =
      if not env.covenant_enabled
      then return s
      else let amount = mul p.total_hourly_rate (from_int (booked_hours req)) in
        elim (env.open_job amount req.gpu_model s.id (booked_hours req)) [
          | Opening.opened job ↦ do
            emit (Effect.escrow_opened amount s.id)
            return (escrow_metadata env amount job s)
          | Opening.unindexed job m ↦ do
            emit (Effect.escrow_opened amount s.id)
            fail (failed "failed to open covenant escrow" (message m))
          | Opening.unopened m ↦ fail (failed "failed to open covenant escrow" (message m))
        ]

  unfoldable pub start_transaction :
      Wallet D → SessionStartRequest D → PricingResponse D → String → TransactionCreateRequest D
  start_transaction wallet req p session_id = record {
    from_wallet_id = some wallet.id;
    to_wallet_id = none;
    type = TransactionType.session_start;
    amount = p.total_hourly_rate;
    description = append "Session start - locked funds for " req.gpu_model;
    session_id = some session_id;
    job_id = req.job_id;
    metadata = [];
  }

  -- The response. The rate is not zero here: the database refuses a transaction of zero.
  unfoldable pub start_response : Wallet D → PricingResponse D → RentalSession D → SessionResponse D
  start_response wallet p s = record {
    session = s;
    current_cost = d.zero;
    estimated_hourly_cost = p.total_hourly_rate;
    remaining_balance = available_balance wallet;
    estimated_runtime = div (available_balance wallet) p.total_hourly_rate;
  }

  -- `StartRentalSession`, after the funds are locked.
  unfoldable pub open_session :
      Env D → SessionStartRequest D → PricingResponse D → Wallet D → Billing D (SessionResponse D)
  unfolding new_session open_escrow start_transaction start_response
  open_session env req p wallet = do
    id ← new_uuid env
    session ← open_escrow env req p (new_session env req p id)
    wrapped "failed to create rental session" (create_rental_session env session)
    wrapped "failed to create transaction"
        (create_transaction env (start_transaction wallet req p id))
    return (start_response wallet p session)

  -- The price of the hour is checked and locked.
  unfoldable pub take_lock :
      Env D → Wallet D → PricingResponse D → Billing D (Wallet D × PricingResponse D)
  take_lock env wallet p = do
    guard (not (less_than (available_balance wallet) p.total_hourly_rate)) insufficient_funds
    locked ← lift (lock_funds env.now p.total_hourly_rate wallet)
    wrapped "failed to lock funds"
        (update_wallet_balance env locked.id locked.balance locked.locked_balance)
    return (locked, p)

module _ {D : Type 0} ⦃d : Decimals D⦄ ⦃u : Unicode⦄ where
  -- The pricing of the first hour, with its errors.
  unfoldable pub first_hour :
      Config D → Env D → SessionStartRequest D → Billing D (PricingResponse D)
  unfolding first_hour_request
  first_hour config env req =
      elim (calculate_pricing env.now config.engine (first_hour_request req)) [
        | Priced.priced p ↦ return p
        | Priced.no_rate m ↦ fail (failed "failed to calculate pricing" (message m))
        | Priced.panicked ↦ fail panic
      ]

  -- `StartRentalSession` up to the lock: the wallet with the hour's price locked, and the pricing.
  unfoldable pub lock_hour :
      Config D → Env D → SessionStartRequest D → Billing D (Wallet D × PricingResponse D)
  unfolding first_hour take_lock
  lock_hour config env req = do
    wallet ← get_wallet_by_user_id env req.user_id WalletType.user
    guard (not (less_than (available_balance wallet) config.minimum_balance)) insufficient_funds
    p ← first_hour config env req
    take_lock env wallet p

  -- `StartRentalSession`; the maximum hourly rate of the request is not read
  unfoldable pub start_rental_session :
      Config D → Env D → SessionStartRequest D → Billing D (SessionResponse D)
  unfolding lock_hour open_session
  start_rental_session config env req = do
    locked ← lock_hour config env req
    open_session env req locked.1 locked.0
