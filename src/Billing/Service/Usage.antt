-- ===== src/Billing/Service/Usage.antt =====
-- services/billing-payment-service/internal/service/billing.go: the usage reports of the provider daemon.
use dantegpu_core.Prelude.{ℕ, String, none, some, Bool, true, not, if◌then◌else◌, ◌==◌, pos, int64}
use dantegpu_core.Decimal.{Decimals, add, mul, div, from_int}
use dantegpu_core.Billing.Models.{RentalSession, UsageUpdateRequest, UsageRecord}
use dantegpu_core.Billing.World.{Env, Billing, return, ◌>>=◌, ◌>>◌, wrapped, logged, new_uuid}
use dantegpu_core.Billing.Store.Sessions.{
  get_rental_session, update_rental_session, create_usage_record,
}

module _ {D : Type 0} ⦃d : Decimals D⦄ where
  -- The cost of one minute at a power draw.
  unfoldable pub period_cost : RentalSession D → ℕ → D
  period_cost s power_draw =
      let hours = div (from_int (pos 1)) (from_int (pos 60)) in
      let base_cost = mul s.hourly_rate hours in
      let vram_gb = div (from_int (int64 s.allocated_vram)) (from_int (pos 1024)) in
      let vram_cost = mul (mul s.vram_rate vram_gb) hours in
      let power_cost =
        mul (div (mul s.power_rate (from_int (pos power_draw))) (from_int (pos 1000))) hours in
      add (add base_cost vram_cost) power_cost

  unfoldable pub new_usage : Env D → UsageUpdateRequest → D → String → UsageRecord D
  new_usage env req cost id = record {
    id = id;
    session_id = req.session_id;
    recorded_at = req.timestamp;
    gpu_utilization = req.gpu_utilization;
    vram_utilization = req.vram_utilization;
    power_draw = req.power_draw;
    temperature = req.temperature;
    period_minutes = pos 1;
    period_cost = cost;
    created_at = env.now;
  }

  -- Has the session another power reading, or none?
  unfoldable pub power_changed : RentalSession D → ℕ → Bool
  power_changed s power_draw = elim s.actual_power_w [
    | none ↦ true
    | some w ↦ not (w == power_draw)
  ]

  -- The session after a new power reading; an error is logged.
  unfoldable pub update_power : Env D → UsageUpdateRequest → RentalSession D → Billing D (Unit {0})
  unfolding power_changed period_cost
  update_power env req s =
      if power_changed s req.power_draw
      then logged (
          update_rental_session env (record s {
            actual_power_w = some req.power_draw;
            total_cost = add s.total_cost (period_cost s req.power_draw);
            updated_at = env.now;
          }))
      else return tt

  -- `ProcessUsageUpdate`
  unfoldable pub process_usage_update : Env D → UsageUpdateRequest → Billing D (Unit {0})
  unfolding period_cost new_usage update_power
  process_usage_update env req = do
    s ← get_rental_session env req.session_id
    id ← new_uuid env
    wrapped "failed to create usage record"
        (create_usage_record env (new_usage env req (period_cost s req.power_draw) id))
    update_power env req s
