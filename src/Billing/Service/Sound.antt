-- ===== src/Billing/Service/Sound.antt =====
-- The locked funds of the stored wallets under the ends of sessions, deposits and withdrawals of
-- services/billing-payment-service/internal/service/billing.go.
use dantegpu_core.Prelude.{
  List, [], ◌∷◌, some, Bool, true, false, ◌≡◌, sym, inl, inr, arith, All, find_first, text_eq,
  Bool-cases,
}
use mathlib.Core.Path.{subst}
use dantegpu_core.Decimal.{add, Decimals, IsExact, sub, less_than, AtMost}
use dantegpu_core.Decimal.Laws.{
  AtMost-add_right, AtMost-refl, add_of_AtMost-sub, AtMost-sub_of_add, greater_or_equal-AtMost,
  not_less-AtMost,
}
use dantegpu_core.Billing.Models.{
  DepositRequest, Result, Transaction, SessionResponse, Wallet, SessionEndRequest,
  WithdrawalRequest, can_spend, available_balance,
}
use dantegpu_core.Billing.Wallets.{IsSound}
use dantegpu_core.Billing.World.{World, Env}
use dantegpu_core.Billing.Store.{set_balance, update_where}
use dantegpu_core.Billing.Service.{Config}
use dantegpu_core.Billing.Service.Ending.{end_rental_session}
use dantegpu_core.Billing.Service.Funds.{process_deposit, process_withdrawal}
use dantegpu_core.Billing.Service.Ends.{EndOutcome, HasPaid, end_rental_session_outcome}
use dantegpu_core.Billing.Service.Money.{
  process_deposit-cases, WithdrawalOutcome, Withdrawn, NothingMoved, HasBalance,
  process_withdrawal_outcome,
}

-- A column rounds: zero stays, and the order is kept.
pub record Rounds {D : Type 0} ⦃d : Decimals D⦄ (env : Env D) : Type 0 where
  pub column-zero : env.column d.zero ≡ d.zero
  pub column-AtMost : (a b : D) → AtMost a b → AtMost (env.column a) (env.column b)

module _ {D : Type 0} ⦃d : Decimals D⦄ where
  -- Every stored wallet is sound.
  unfoldable pub AllSound : World D → Type 0
  AllSound w = All IsSound w.wallets

  found-IsSound :
      (test : Wallet D → Bool) (ws : List (Wallet D)) (wallet : Wallet D)
      → find_first test ws ≡ some wallet
      → All IsSound ws
      → IsSound wallet
  found-IsSound test [] wallet e h = cc
  found-IsSound test (v ∷ ws) wallet e h = elim (Bool-cases (test v)) [
    | inl t ↦ subst IsSound (ground (arith, e, t)) h.0
    | inr t ↦ found-IsSound test ws wallet (ground (arith, e, t)) h.1
  ]

  locked_nonneg : (wallet : Wallet D) → IsSound wallet → AtMost d.zero wallet.locked_balance
  unfolding IsSound
  locked_nonneg wallet h = h.0

  locked_covered :
      (wallet : Wallet D) → IsSound wallet → AtMost wallet.locked_balance wallet.balance
  unfolding IsSound
  locked_covered wallet h = h.1

module _ {D : Type 0} ⦃d : Decimals D⦄ (exact : IsExact D) (env : Env D) (rounds : Rounds env) where
  set_balance-IsSound :
      (balance locked : D) (wallet : Wallet D)
      → AtMost d.zero locked
      → AtMost locked balance
      → IsSound (set_balance env balance locked wallet)
  unfolding IsSound set_balance
  set_balance-IsSound balance locked wallet h k = (
    subst (λ x. AtMost x (env.column locked)) rounds.column-zero
        (rounds.column-AtMost d.zero locked h),
    rounds.column-AtMost locked balance k,
  )

  updated-AllSound :
      (test : Wallet D → Bool) (balance locked : D) (ws : List (Wallet D))
      → AtMost d.zero locked
      → AtMost locked balance
      → All IsSound ws
      → All IsSound (update_where test (set_balance env balance locked) ws)
  updated-AllSound test balance locked [] h k a = tt
  updated-AllSound test balance locked (v ∷ ws) h k a = elim (Bool-cases (test v)) [
    | inl t ↦
        rw t (
          set_balance-IsSound balance locked v h k,
          updated-AllSound test balance locked ws h k a.1,
        )
    | inr t ↦ rw t (a.0, updated-AllSound test balance locked ws h k a.1)
  ]

  -- What a sound wallet can spend leaves its locked funds covered.
  spent-AtMost :
      (amount : D) (wallet : Wallet D)
      → can_spend amount wallet ≡ true
      → AtMost wallet.locked_balance (sub wallet.balance amount)
  unfolding can_spend available_balance
  spent-AtMost amount wallet c =
      AtMost-sub_of_add exact wallet.locked_balance wallet.balance amount (
        subst (λ x. AtMost x wallet.balance) (exact.add_comm wallet.locked_balance amount)
          (add_of_AtMost-sub exact amount wallet.balance wallet.locked_balance
            (greater_or_equal-AtMost exact (sub wallet.balance wallet.locked_balance) amount c)))

  paid-AtMost :
      (cost balance : D) → less_than balance cost ≡ false → AtMost d.zero (sub balance cost)
  paid-AtMost cost balance h = AtMost-sub_of_add exact d.zero balance cost (
      subst (λ x. AtMost x balance) (sym (exact.add-zero cost))
        (not_less-AtMost exact balance cost h))

  outcome-AllSound :
      (config : Config D) (req : WithdrawalRequest D) (w : World D)
      → AllSound w
      → (r : Result (Transaction D) × World D) → WithdrawalOutcome config env req w r
      → AllSound r.1
  unfolding AllSound WithdrawalOutcome NothingMoved Withdrawn HasBalance
  outcome-AllSound config req w a r o = elim o [
    | inl k ↦ subst (All IsSound) (sym k.1.0) a
    | inr (wallet, (found, (can, (limit, (sent, k))))) ↦ elim k [
      | inr x ↦ subst (All IsSound) (sym x.1) a
      | inl x ↦ subst (All IsSound) (sym x.1) (
          updated-AllSound (λ v. text_eq v.id wallet.id) (sub wallet.balance req.amount)
            wallet.locked_balance w.wallets
            (locked_nonneg wallet
              (found-IsSound (λ v. text_eq v.id req.wallet_id) w.wallets wallet found a))
            (spent-AtMost req.amount wallet can) a)
    ]
  ]

  EndOutcome-AllSound :
      (req : SessionEndRequest) (w : World D)
      → AllSound w
      → (r : Result (SessionResponse D) × World D) → EndOutcome env req w r
      → AllSound r.1
  unfolding AllSound EndOutcome HasPaid
  EndOutcome-AllSound req w a r o = elim o [
    | inl k ↦ subst (All IsSound) (sym k.1.0) a
    | inr (s, (found, (active, (completed, k)))) ↦ elim k [
      | inr x ↦ subst (All IsSound) (sym x.1) a
      | inl (ok, (wallet, (owner, (enough, x)))) ↦ subst (All IsSound) (sym x) (
          updated-AllSound (λ v. text_eq v.id wallet.id) _ d.zero w.wallets
            (AtMost-refl exact d.zero) (paid-AtMost _ wallet.balance enough) a)
    ]
  ]

  -- A withdrawal, whatever it comes to, keeps the locked funds of every stored wallet between zero and the
  -- balance; the decimals are exact and the columns round.
  pub process_withdrawal-AllSound :
      (config : Config D) (req : WithdrawalRequest D) (w : World D)
      → AllSound w
      → AllSound (process_withdrawal config env req w).1
  unfolding AllSound
  process_withdrawal-AllSound config req w a =
      outcome-AllSound config req w a (process_withdrawal config env req w)
        (process_withdrawal_outcome config env req w)

  -- A deposit of an amount that is not negative, whatever it comes to, keeps the locked funds of every stored
  -- wallet between zero and the balance; the decimals are exact and the columns round.
  pub process_deposit-AllSound :
      (req : DepositRequest D) (w : World D)
      → AtMost d.zero req.amount
      → AllSound w
      → AllSound (process_deposit env req w).1
  unfolding AllSound HasBalance
  process_deposit-AllSound req w n a = elim (process_deposit-cases env req w) [
    | inl k ↦ subst (All IsSound) (sym k) a
    | inr (wallet, (found, k)) ↦
        let sound : IsSound wallet =
          found-IsSound (λ v. text_eq v.id req.wallet_id) w.wallets wallet found a in
        subst (All IsSound) (sym k) (
          updated-AllSound (λ v. text_eq v.id wallet.id) (add wallet.balance req.amount)
            wallet.locked_balance w.wallets (locked_nonneg wallet sound)
            (exact.at_most_trans wallet.locked_balance wallet.balance
              (add wallet.balance req.amount) (locked_covered wallet sound)
              (AtMost-add_right exact wallet.balance req.amount n))
            a)
  ]

  -- The end of a session, whatever it comes to, keeps the locked funds of every stored wallet between
  -- zero and the balance; the decimals are exact and the columns round.
  pub end_rental_session-AllSound :
      (req : SessionEndRequest) (w : World D)
      → AllSound w
      → AllSound (end_rental_session env req w).1
  unfolding AllSound
  end_rental_session-AllSound req w a =
      EndOutcome-AllSound req w a (end_rental_session env req w)
        (end_rental_session_outcome exact env req w)
