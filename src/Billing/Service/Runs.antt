-- ===== src/Billing/Service/Runs.antt =====
-- Requests of services/billing-payment-service one after the other, each with what the outside answers during it.
use dantegpu_core.Prelude.{List, [], ◌∷◌, All}
use dantegpu_core.Decimal.{Decimals, IsExact, AtMost}
use dantegpu_core.Billing.Models.{DepositRequest, WithdrawalRequest, SessionEndRequest}
use dantegpu_core.Billing.World.{World, Env}
use dantegpu_core.Billing.Service.{Config}
use dantegpu_core.Billing.Service.Ending.{end_rental_session}
use dantegpu_core.Billing.Service.Funds.{process_deposit, process_withdrawal}
use dantegpu_core.Billing.Service.Sound.{
  Rounds, AllSound, process_deposit-AllSound, process_withdrawal-AllSound,
  end_rental_session-AllSound,
}

pub data Request (D : Type 0) : Type 0 where
  deposits : DepositRequest D → Request D
  withdraws : WithdrawalRequest D → Request D
  ends : SessionEndRequest → Request D

module _ {D : Type 0} ⦃d : Decimals D⦄ where
  -- The state after a request, whatever is answered.
  unfoldable pub serve : Config D → Env D → Request D → World D → World D
  serve config env (Request.deposits req) w = (process_deposit env req w).1
  serve config env (Request.withdraws req) w = (process_withdrawal config env req w).1
  serve config env (Request.ends req) w = (end_rental_session env req w).1

  unfoldable pub serve_all : Config D → List (Env D × Request D) → World D → World D
  unfolding serve
  serve_all config [] w = w
  serve_all config ((env, req) ∷ rest) w = serve_all config rest (serve config env req w)

  -- The columns round, and a deposit is not negative.
  unfoldable pub IsProper : Env D × Request D → Type 0
  IsProper (env, Request.deposits req) = Rounds env × AtMost d.zero req.amount
  IsProper (env, Request.withdraws req) = Rounds env
  IsProper (env, Request.ends req) = Rounds env

module _ {D : Type 0} ⦃d : Decimals D⦄ (exact : IsExact D) (config : Config D) where
  serve-AllSound :
      (env : Env D) (req : Request D) (w : World D)
      → IsProper (env, req)
      → AllSound w
      → AllSound (serve config env req w)
  unfolding serve IsProper
  serve-AllSound env (Request.deposits req) w p a =
      process_deposit-AllSound exact env p.0 req w p.1 a
  serve-AllSound env (Request.withdraws req) w p a =
      process_withdrawal-AllSound exact env p config req w a
  serve-AllSound env (Request.ends req) w p a = end_rental_session-AllSound exact env p req w a

  -- Deposits that are not negative, withdrawals and ends of sessions, in any order and whatever each comes to, keep the
  -- locked funds of every stored wallet between zero and the balance; the decimals are exact and the columns round.
  pub serve_all-AllSound :
      (requests : List (Env D × Request D)) (w : World D)
      → All IsProper requests
      → AllSound w
      → AllSound (serve_all config requests w)
  unfolding serve_all
  serve_all-AllSound [] w p a = a
  serve_all-AllSound ((env, req) ∷ rest) w p a =
      serve_all-AllSound rest (serve config env req w) p.1 (serve-AllSound env req w p.0 a)
