-- ===== src/Billing/Service/Ending.antt =====
-- services/billing-payment-service/internal/service/billing.go: the end of a session.
use dantegpu_core.Prelude.{
  String, append, [], none, some, Bool, true, false, not, ◌&&◌, if◌then◌else◌, pos, Answer, Json,
  get_param, put_param, Params, text_eq,
}
use dantegpu_core.Decimal.{Decimals, sub, mul, div, from_int}
use dantegpu_core.Billing.Models.{
  Wallet, WalletType, available_balance, unlock_funds, deduct_funds, RentalSession, SessionStatus,
  SessionEndRequest, SessionResponse, TransactionType, TransactionCreateRequest,
  calculate_current_cost, session_not_active,
}
use dantegpu_core.Billing.World.{
  Env, Effect, Billing, return, ◌>>=◌, ◌>>◌, wrapped, logged, guard, lift, emit,
}
use dantegpu_core.Billing.Store.{get_wallet_by_user_id, update_wallet_balance, create_transaction}
use dantegpu_core.Billing.Store.Sessions.{get_rental_session, update_rental_session}

-- `session.Metadata[name].(string)`, "" where it is no string
unfoldable pub text_param : Params → String → String
text_param params name = elim (get_param params name) [
  | none ↦ ""
  | some v ↦ elim v [ Json.str s ↦ s | _ ↦ "" ]
]

unfoldable pub is_active : SessionStatus → Bool
is_active SessionStatus.active = true
is_active _ = false

module _ {D : Type 0} ⦃d : Decimals D⦄ where
  -- The session with its final costs.
  unfoldable pub finished : Env D → RentalSession D → RentalSession D
  finished env s =
      let ended = record s { ended_at = some env.now; status = SessionStatus.completed } in
      let total_cost = calculate_current_cost env.now ended in
      let fee = div (mul total_cost s.platform_fee_rate) (from_int (pos 100)) in
      record ended {
        total_cost = total_cost;
        platform_fee = fee;
        provider_earnings = sub total_cost fee;
        updated_at = env.now;
      }

  -- The receipt is submitted to the escrow; a failure is logged. The signature goes into the
  -- metadata of the answer only.
  unfoldable pub submit_work : Env D → RentalSession D → Billing D (RentalSession D)
  submit_work env s =
      let job = text_param s.metadata "covenant_job_pda" in
      let poster = text_param s.metadata "covenant_poster" in
      if env.covenant_enabled && not (text_eq job "")
      then elim (env.close_job job poster) [
        | Answer.err m ↦ return s
        | Answer.ok signature ↦ do
          emit (Effect.work_submitted job poster)
          return (record s {
            metadata = put_param "covenant_submit_tx" (Json.str signature) s.metadata;
          })
      ]
      else return s

  unfoldable pub end_transaction : Wallet D → RentalSession D → TransactionCreateRequest D
  end_transaction wallet s = record {
    from_wallet_id = some wallet.id;
    to_wallet_id = none;
    type = TransactionType.session_end;
    amount = s.total_cost;
    description = append "Session end - final payment for " s.gpu_model;
    session_id = some s.id;
    job_id = none;
    metadata = [];
  }

  -- All locked funds of the wallet are unlocked and the cost is deducted.
  unfoldable pub pay : Env D → RentalSession D → Wallet D → Billing D (SessionResponse D)
  unfolding end_transaction
  pay env s wallet = do
    paid ←
        lift (deduct_funds env.now s.total_cost (unlock_funds env.now wallet.locked_balance wallet))
    wrapped "failed to update wallet balance"
        (update_wallet_balance env paid.id paid.balance paid.locked_balance)
    logged (create_transaction env (end_transaction paid s))
    return record {
      session = s;
      current_cost = s.total_cost;
      estimated_hourly_cost = d.zero;
      remaining_balance = available_balance paid;
      estimated_runtime = d.zero;
    }

  -- `EndRentalSession`, the payment.
  unfoldable pub settle : Env D → RentalSession D → Billing D (SessionResponse D)
  unfolding pay
  settle env s = do wallet ← get_wallet_by_user_id env s.user_id WalletType.user; pay env s wallet

  -- `EndRentalSession`
  unfoldable pub end_rental_session : Env D → SessionEndRequest → Billing D (SessionResponse D)
  unfolding finished submit_work settle is_active
  end_rental_session env req = do
    s ← get_rental_session env req.session_id
    guard (is_active s.status) session_not_active
    wrapped "failed to update session" (update_rental_session env (finished env s))
    submitted ← submit_work env (finished env s)
    settle env submitted
