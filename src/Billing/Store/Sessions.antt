-- ===== src/Billing/Store/Sessions.antt =====
-- The statements of services/billing-payment-service/internal/store/postgres.go on rental sessions and usage
-- records, with the constraints of schema.go.
use dantegpu_core.Prelude.{
  String, List, [], ◌∷◌, ◌++◌, none, some, Bool, true, false, not, ◌&&◌, if◌then◌else◌, ltb, leb,
  find_first, filter, text_eq, pos, ltb_ℤ, sort,
}
use dantegpu_core.Decimal.{Decimals, less_than, greater_than, from_int}
use dantegpu_core.Billing.Models.{
  ok, err, RentalSession, SessionStatus, UsageRecord, session_not_found, database, failed,
}
use dantegpu_core.Billing.World.{World, Env, Billing, ◌>>◌, wrapped, send}
use dantegpu_core.Billing.Store.{any_row, update_where}

module _ {D : Type 0} ⦃d : Decimals D⦄ where
  -- The CHECKs on what the session costs, which an UPDATE has to meet too.
  unfoldable pub accepts_costs : RentalSession D → Bool
  accepts_costs s =
      not (less_than s.total_cost d.zero)
      && not (less_than s.platform_fee d.zero)
      && not (less_than s.provider_earnings d.zero)

  -- The constraints of the table on a new row.
  unfoldable pub accepts_session : World D → RentalSession D → Bool
  unfolding accepts_costs
  accepts_session w s =
      not (any_row (λ (r : RentalSession D). text_eq r.id s.id) w.sessions)
      && ltb 0 s.allocated_vram
      && ltb 0 s.total_vram
      && leb s.allocated_vram s.total_vram
      && not (less_than s.vram_percentage d.zero)
      && not (greater_than s.vram_percentage (from_int (pos 100)))
      && not (less_than s.hourly_rate d.zero)
      && not (less_than s.vram_rate d.zero)
      && not (less_than s.power_rate d.zero)
      && not (less_than s.platform_fee_rate d.zero)
      && not (greater_than s.platform_fee_rate (from_int (pos 100)))
      && ltb 0 s.estimated_power_w
      && accepts_costs s

  -- What the columns keep of a session; the percentages are whole numbers.
  unfoldable pub session_columns : Env D → RentalSession D → RentalSession D
  session_columns env s = record s {
    hourly_rate = env.column s.hourly_rate;
    vram_rate = env.column s.vram_rate;
    power_rate = env.column s.power_rate;
    total_cost = env.column s.total_cost;
    platform_fee = env.column s.platform_fee;
    provider_earnings = env.column s.provider_earnings;
  }

  unfoldable pub insert_session : RentalSession D → Billing D (Unit {0})
  unfolding accepts_session
  insert_session s w =
      if accepts_session w s
      then (ok tt, record w { sessions = w.sessions ++ s ∷ [] })
      else (err database, w)

  -- `CreateRentalSession`
  unfoldable pub create_rental_session : Env D → RentalSession D → Billing D (Unit {0})
  unfolding session_columns insert_session
  create_rental_session env s =
      wrapped "failed to create rental session"
        (do send env; insert_session (session_columns env s))

  -- `GetRentalSession`
  unfoldable pub get_rental_session : Env D → String → Billing D (RentalSession D)
  get_rental_session env id = do
    wrapped "failed to get rental session" (send env)
    λ w. elim (find_first (λ (r : RentalSession D). text_eq r.id id) w.sessions) [
      | some s ↦ (ok s, w)
      | none ↦ (err session_not_found, w)
    ]

  -- The `SET` of `UpdateRentalSession`.
  unfoldable pub set_session : Env D → RentalSession D → RentalSession D → RentalSession D
  unfolding session_columns
  set_session env s r = record r {
    status = s.status;
    actual_power_w = s.actual_power_w;
    ended_at = s.ended_at;
    last_billed_at = s.last_billed_at;
    total_cost = env.column s.total_cost;
    platform_fee = env.column s.platform_fee;
    provider_earnings = env.column s.provider_earnings;
    metadata = s.metadata;
    updated_at = env.now;
  }

  unfoldable pub update_sessions : Env D → RentalSession D → Billing D (Unit {0})
  unfolding set_session accepts_costs session_columns
  update_sessions env s w =
      if any_row (λ (r : RentalSession D). text_eq r.id s.id) w.sessions
      then if accepts_costs (session_columns env s)
        then (
          ok tt,
          record w {
            sessions =
                update_where (λ (r : RentalSession D). text_eq r.id s.id) (set_session env s)
                  w.sessions;
          },
        )
        else (err (failed "failed to update rental session" database), w)
      else (err session_not_found, w)

  -- `UpdateRentalSession`
  unfoldable pub update_rental_session : Env D → RentalSession D → Billing D (Unit {0})
  unfolding update_sessions
  update_rental_session env s = do
    wrapped "failed to update rental session" (send env)
    update_sessions env s

  -- `ORDER BY started_at DESC`
  unfoldable pub started_later : RentalSession D → RentalSession D → Bool
  started_later a b = leb b.started_at a.started_at

  unfoldable pub is_active_of : String → RentalSession D → Bool
  is_active_of user r =
      text_eq r.user_id user && (elim r.status [ SessionStatus.active ↦ true | _ ↦ false ])

  -- `GetActiveSessionsByUser`
  unfoldable pub get_active_sessions_by_user : Env D → String → Billing D (List (RentalSession D))
  unfolding started_later is_active_of
  get_active_sessions_by_user env user = do
    wrapped "failed to query active sessions" (send env)
    λ w. (ok (sort started_later (filter (is_active_of user) w.sessions)), w)

  -- The constraints of the table on a new usage record.
  unfoldable pub accepts_usage : World D → UsageRecord D → Bool
  accepts_usage w u =
      not (any_row (λ (r : UsageRecord D). text_eq r.id u.id) w.usage)
      && any_row (λ (r : RentalSession D). text_eq r.id u.session_id) w.sessions
      && leb u.gpu_utilization 100
      && leb u.vram_utilization 100
      && ltb_ℤ (pos 0) u.period_minutes
      && not (less_than u.period_cost d.zero)

  unfoldable pub insert_usage : UsageRecord D → Billing D (Unit {0})
  unfolding accepts_usage
  insert_usage u w =
      if accepts_usage w u
      then (ok tt, record w { usage = w.usage ++ u ∷ [] })
      else (err database, w)

  -- `CreateUsageRecord`
  unfoldable pub create_usage_record : Env D → UsageRecord D → Billing D (Unit {0})
  unfolding insert_usage
  create_usage_record env u =
      wrapped "failed to create usage record"
        (do send env; insert_usage (record u { period_cost = env.column u.period_cost }))
