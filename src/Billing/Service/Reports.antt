-- ===== src/Billing/Service/Reports.antt =====
-- What ProcessUsageUpdate does to the stored sessions.
use dantegpu_core.Prelude.{some, ◌≡◌, arith, find_first, text_eq}
use dantegpu_core.Decimal.{Decimals}
use dantegpu_core.Billing.Models.{RentalSession, UsageUpdateRequest}
use dantegpu_core.Billing.World.{World, Env}
use dantegpu_core.Billing.Store.Sessions.{get_rental_session, create_usage_record, insert_usage}
use dantegpu_core.Billing.Service.Usage.{process_usage_update, power_changed, update_power}

module _ {D : Type 0} ⦃d : Decimals D⦄ where
  -- A usage report with the power draw that the session has already leaves every session as it is, so the
  -- cost of its minute is not added to the session's total cost.
  pub same_power_adds_no_cost :
      (env : Env D) (req : UsageUpdateRequest) (w : World D) (s : RentalSession D)
      → find_first (λ (r : RentalSession D). text_eq r.id req.session_id) w.sessions ≡ some s
      → s.actual_power_w ≡ some req.power_draw
      → (process_usage_update env req w).1.sessions ≡ w.sessions
  unfolding process_usage_update update_power power_changed get_rental_session create_usage_record
      insert_usage
  same_power_adds_no_cost env req w s found same = ground (arith, found, same)
