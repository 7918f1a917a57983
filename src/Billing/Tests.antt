-- ===== src/Billing/Tests.antt =====
-- The billing service on concrete wallets, sessions and requests, with integers for the decimals.
use mathlib.Core.Bool.{false≢true}
use dantegpu_core.Prelude.{
  ℕ, List, [], ◌∷◌, none, some, true, false, ◌≡◌, ◌↔◌, refl, arith, ℤ, pos, Unicode, ascii, Answer,
  codes, ◌+ℤ◌, ◌-ℤ◌,
}
use dantegpu_core.Decimal.{Decimals}
use dantegpu_core.Decimal.Integers.{integers, integers-IsExact, cmp_ℤ, div_ℤ, mul_ℤ}
use dantegpu_core.Billing.Models.{
  Wallet, WalletType, RentalSession, SessionStatus, SessionStartRequest, SessionEndRequest,
  DepositRequest, WithdrawalRequest, UsageUpdateRequest, lock_funds, unlock_funds, add_funds,
  deduct_funds, can_spend, available_balance, calculate_current_cost,
}
use dantegpu_core.Billing.Wallets.{WalletStep, WalletSteps, IsSound, WalletSteps-IsSound}
use dantegpu_core.Billing.Pricing.{
  new_engine, PricingRequest, Priced, price, get_base_rate, calculate_pricing,
  validate_pricing_request,
}
use dantegpu_core.Billing.Pricing.Rates.{
  normalized, IsPartial, IsMissing, NoneMatches, partial_match_by_order,
}
use dantegpu_core.Billing.Pricing.Totals.{AddsUp, price-AddsUp}
use dantegpu_core.Billing.Pricing.Requests.{
  IsValid, validate_pricing_request-IsValid, calculate_pricing-panic,
}
use dantegpu_core.Billing.World.{Opening, World, Env, is_ok}
use dantegpu_core.Billing.Store.{
  create_transaction, get_wallet, get_wallet_by_user_id, update_transaction_status,
  update_wallet_balance,
}
use dantegpu_core.Billing.Service.{Config, start_rental_session}
use dantegpu_core.Billing.Service.Starts.{StartOutcome, start_rental_session_outcome}
use dantegpu_core.Billing.Service.Ending.{end_rental_session, text_param}
use dantegpu_core.Billing.Service.Ends.{EndOutcome, end_rental_session_outcome}
use dantegpu_core.Billing.Service.Funds.{process_deposit, process_withdrawal}
use dantegpu_core.Billing.Service.Usage.{process_usage_update}
use dantegpu_core.Billing.Service.Sound.{Rounds, AllSound}
use dantegpu_core.Billing.Service.Runs.{Request, serve_all, IsProper, serve_all-AllSound}
use dantegpu_core.Billing.Service.Reports.{same_power_adds_no_cost}
use dantegpu_core.Billing.Service.Money.{
  HasBalance, WithdrawalOutcome, process_withdrawal_outcome, deposit_credits_whatever_history,
}
use dantegpu_core.Billing.Store.Sessions.{
  create_rental_session, get_rental_session, update_rental_session,
}

instance abbrev tables : Unicode
tables = ascii

instance abbrev whole : Decimals ℤ
whole = integers

abbrev purse : Wallet ℤ
purse = record {
  id = "w1";
  user_id = "ann";
  wallet_type = WalletType.user;
  solana_address = "sol-ann";
  balance = pos 100;
  locked_balance = pos 10;
  pending_balance = pos 0;
  is_active = true;
  created_at = 1;
  updated_at = 1;
  last_activity_at = none;
}

abbrev env : Env ℤ
env = record {
  now = 50;
  fresh = λ n. "id";
  faulty = λ n. false;
  column = λ x. x;
  show = λ x. "?";
  create_ata = λ a. Answer.ok tt;
  token_balance = λ a. Answer.err "down";
  confirm = λ s. Answer.ok tt;
  transfer = λ a b x. Answer.ok "signature";
  covenant_enabled = true;
  open_job = λ a m s h. Opening.unopened "no RPC";
  close_job = λ j p. Answer.err "no RPC";
}

abbrev config : Config ℤ
config = record {
  minimum_balance = pos 1;
  daily_withdrawal_limit = pos 80;
  engine = record {
    config = record {
      vram_rate_per_gb = pos 1;
      power_multiplier = pos 1;
      platform_fee_percent = pos 5;
      minimum_session_minutes = pos 0;
      maximum_session_hours = pos 24;
    };
    base_rates = (codes "h100", pos 7) ∷ (codes "default", pos 2) ∷ [];
  };
}

abbrev world : World ℤ
world = record {
  wallets = purse ∷ [];
  transactions = [];
  sessions = [];
  usage = [];
  effects = [];
  statements = 0;
  drawn = 0;
}

abbrev start : SessionStartRequest ℤ
start = record {
  user_id = "ann";
  provider_id = "p1";
  job_id = none;
  gpu_model = "H100";
  requested_vram = 2048;
  estimated_power_w = 300;
  max_hourly_rate = some (pos 1);
  max_duration_hours = none;
}

abbrev running : RentalSession ℤ
running = record {
  id = "s1";
  user_id = "ann";
  provider_id = "p1";
  job_id = none;
  status = SessionStatus.active;
  gpu_model = "H100";
  allocated_vram = 2048;
  total_vram = 2048;
  vram_percentage = pos 100;
  hourly_rate = pos 7;
  vram_rate = pos 2;
  power_rate = pos 0;
  platform_fee_rate = pos 5;
  estimated_power_w = 300;
  actual_power_w = some 300;
  started_at = 0;
  ended_at = none;
  last_billed_at = 0;
  total_cost = pos 0;
  platform_fee = pos 0;
  provider_earnings = pos 0;
  metadata = [];
  created_at = 0;
  updated_at = 0;
}

abbrev busy : World ℤ
busy = record world { sessions = running ∷ [] }

abbrev payout : WithdrawalRequest ℤ
payout = record { wallet_id = "w1"; amount = pos 30; to_address = "sol-bob" }

abbrev top_up : DepositRequest ℤ
top_up = record { wallet_id = "w1"; amount = pos 5; solana_signature = "sig" }

abbrev report : UsageUpdateRequest
report = record {
  session_id = "s1";
  gpu_utilization = 90;
  vram_utilization = 50;
  power_draw = 300;
  temperature = 60;
  timestamp = 49;
}

abbrev quote : PricingRequest ℤ
quote = record {
  gpu_model = " H100 ";
  requested_vram = 2048;
  total_vram = 4096;
  estimated_power_w = 2000;
  duration_hours = pos 3;
  provider_id = none;
  user_id = none;
}

abbrev rich : Env ℤ
rich = record env { covenant_enabled = false }

-- The escrow fails: the hour's price of 9 stays locked, and there is no session.
failed_start_keeps_lock :
    ((start_rental_session config env start world).1.wallets
      ≡ record purse { locked_balance = pos 19; updated_at = 50; last_activity_at = some 50 } ∷ [])
    × ((start_rental_session config env start world).1.sessions ≡ [])
unfolding start_rental_session get_wallet_by_user_id cmp_ℤ available_balance ◌-ℤ◌ calculate_pricing
    ◌+ℤ◌ mul_ℤ div_ℤ lock_funds update_wallet_balance
failed_start_keeps_lock = (refl, refl)

start_opens_session : is_ok (start_rental_session config rich start world).0 ≡ true
unfolding start_rental_session get_wallet_by_user_id cmp_ℤ available_balance ◌-ℤ◌ calculate_pricing
    ◌+ℤ◌ mul_ℤ div_ℤ lock_funds update_wallet_balance create_rental_session create_transaction
start_opens_session = refl

exact_rate : get_base_rate " H100 " config.engine.base_rates ≡ Answer.ok (pos 7)
unfolding get_base_rate
exact_rate = refl

end_example_pays :
    is_ok (end_rental_session env (record { session_id = "s1"; reason = "" }) busy).0 ≡ true
unfolding end_rental_session get_rental_session update_rental_session cmp_ℤ calculate_current_cost
    ◌+ℤ◌ mul_ℤ div_ℤ ◌-ℤ◌ text_param get_wallet_by_user_id deduct_funds unlock_funds
    update_wallet_balance
end_example_pays = refl

repeated_deposit :
    (process_deposit env top_up (process_deposit env top_up world).1).1.wallets
    ≡ record purse { balance = pos 110; updated_at = 50; last_activity_at = some 50 } ∷ []
unfolding process_deposit get_wallet update_wallet_balance add_funds create_transaction cmp_ℤ
    update_transaction_status ◌+ℤ◌
repeated_deposit = refl

WalletSteps-IsSound_example :
    IsSound (record purse { balance = pos 75; locked_balance = pos 20; updated_at = 4 })
unfolding IsSound lock_funds can_spend deduct_funds available_balance ◌-ℤ◌ ◌+ℤ◌ cmp_ℤ
WalletSteps-IsSound_example =
    let locked : Wallet ℤ = record purse { locked_balance = pos 20; updated_at = 2 } in
    WalletSteps-IsSound integers-IsExact
      (WalletSteps.step {w = purse} {w' = locked}
        (WalletStep.lock 2 (pos 10) (λ h. ground arith) refl)
        (WalletSteps.step (WalletStep.spend 4 (pos 25) refl refl) WalletSteps.done))
      ((λ h. ground arith), (λ h. ground arith))

price-AddsUp_example :
    AddsUp integers-IsExact quote (pos 7) (price 50 config.engine.config quote (pos 7))
price-AddsUp_example = price-AddsUp integers-IsExact 50 config.engine.config quote (pos 7)

validate_pricing_request-IsValid_example :
    (validate_pricing_request config.engine.config quote ≡ none)
    ↔ IsValid config.engine.config quote
validate_pricing_request-IsValid_example =
    validate_pricing_request-IsValid config.engine.config quote

calculate_pricing-panic_example :
    (calculate_pricing 50 config.engine (record quote { total_vram = 0 }) ≡ Priced.panicked) ↔ (
      (rate : ℤ) × ((get_base_rate " H100 " config.engine.base_rates ≡ Answer.ok rate)
        × (◌≡◌ {A = ℕ} 0 0)))
calculate_pricing-panic_example =
    calculate_pricing-panic integers-IsExact 50 config.engine (record quote { total_vram = 0 })
      (omega arith)

partial_match_by_order_example :
    (get_base_rate "rtx 4090 laptop"
        ((codes "h100", pos 9) ∷ (codes "rtx 4090", pos 5) ∷ (codes "4090 laptop", pos 3) ∷ [])
      ≡ Answer.ok (pos 5))
    × (get_base_rate "rtx 4090 laptop"
          ((codes "h100", pos 9) ∷ (codes "4090 laptop", pos 3) ∷ (codes "rtx 4090", pos 5) ∷ [])
        ≡ Answer.ok (pos 3))
unfolding normalized IsPartial IsMissing NoneMatches
partial_match_by_order_example =
    partial_match_by_order "rtx 4090 laptop" (codes "rtx 4090") (codes "4090 laptop") (pos 5)
      (pos 3) ((codes "h100", pos 9) ∷ []) [] [] (refl, (refl, (refl, tt))) (false≢true, tt) refl
      refl

start_rental_session_outcome_example :
    StartOutcome config env start world (start_rental_session config env start world)
start_rental_session_outcome_example = start_rental_session_outcome config env start world

abbrev end_request : SessionEndRequest
end_request = record { session_id = "s1"; reason = "done" }

end_rental_session_outcome_example :
    EndOutcome env end_request busy (end_rental_session env end_request busy)
end_rental_session_outcome_example =
    end_rental_session_outcome integers-IsExact env end_request busy

process_withdrawal_outcome_example :
    WithdrawalOutcome config env payout world (process_withdrawal config env payout world)
process_withdrawal_outcome_example = process_withdrawal_outcome config env payout world

deposit_credits_whatever_history_example :
    HasBalance env purse (pos 105) world (process_deposit env top_up world).1
unfolding ◌+ℤ◌
deposit_credits_whatever_history_example =
    deposit_credits_whatever_history env top_up world purse refl (λ n. refl) refl

same_power_adds_no_cost_example : (process_usage_update env report busy).1.sessions ≡ running ∷ []
same_power_adds_no_cost_example = same_power_adds_no_cost env report busy running refl refl

env-Rounds : Rounds env
env-Rounds = record { column-zero = refl; column-AtMost = λ a b h. h }

engine_lowers_names :
    (new_engine config.engine.config (("H100", pos 7) ∷ ("h100", pos 9) ∷ [])).base_rates
    ≡ (codes "h100", pos 9) ∷ []
unfolding new_engine
engine_lowers_names = refl

-- A deposit, a withdrawal and the end of a session.
abbrev requests : List (Env ℤ × Request ℤ)
requests =
    (env, Request.deposits top_up)
    ∷ (env, Request.withdraws payout)
    ∷ (env, Request.ends end_request)
    ∷ []

serve_all-AllSound_example : AllSound (serve_all config requests busy)
unfolding AllSound IsSound cmp_ℤ IsProper
serve_all-AllSound_example =
    serve_all-AllSound integers-IsExact config requests busy
      ((env-Rounds, (λ h. ground arith)), (env-Rounds, (env-Rounds, tt)))
      (((λ h. ground arith), (λ h. ground arith)), tt)
