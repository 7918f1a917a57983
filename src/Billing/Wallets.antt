-- ===== src/Billing/Wallets.antt =====
-- The wallet operations of services/billing-payment-service/internal/models/wallet.go as the steps of a wallet.
use dantegpu_core.Prelude.{ℕ, true, ◌≡◌, inl, inr, arith, Bool-cases}
use mathlib.Core.Path.{subst}
use dantegpu_core.Decimal.{Decimals, IsExact, add, sub, less_than, AtMost}
use dantegpu_core.Decimal.Laws.{
  add_nonneg, add_of_AtMost-sub, AtMost-sub_of_add, greater_or_equal-AtMost, AtMost-refl,
  not_less-AtMost, sub-AtMost, AtMost-add_right,
}
use dantegpu_core.Billing.Models.{
  Wallet, ok, available_balance, can_spend, lock_funds, unlock_funds, deduct_funds, add_funds,
}

module _ {D : Type 0} ⦃d : Decimals D⦄ where
  -- Locked funds are not negative and within the balance.
  unfoldable pub IsSound : Wallet D → Type 0
  IsSound w = AtMost d.zero w.locked_balance × AtMost w.locked_balance w.balance

  -- What the service does to a wallet: the amounts are not negative, and a deduction
  -- follows CanSpend.
  pub data WalletStep : Wallet D → Wallet D → Type 0 where
    lock :
        {w w' : Wallet D} (now : ℕ) (amount : D)
        → AtMost d.zero amount
        → lock_funds now amount w ≡ ok w'
        → WalletStep w w'
    unlock :
        {w : Wallet D} (now : ℕ) (amount : D)
        → AtMost d.zero amount
        → WalletStep w (unlock_funds now amount w)
    deposit :
        {w : Wallet D} (now : ℕ) (amount : D)
        → AtMost d.zero amount
        → WalletStep w (add_funds now amount w)
    spend :
        {w w' : Wallet D} (now : ℕ) (amount : D)
        → can_spend amount w ≡ true
        → deduct_funds now amount w ≡ ok w'
        → WalletStep w w'

  pub data WalletSteps : Wallet D → Wallet D → Type 0 where
    done : {w : Wallet D} → WalletSteps w w
    step : {w w' w'' : Wallet D} → WalletStep w w' → WalletSteps w' w'' → WalletSteps w w''

module _ {D : Type 0} ⦃d : Decimals D⦄ (exact : IsExact D) where
  lock_funds-ok :
      (now : ℕ) (amount : D) (w w' : Wallet D)
      → lock_funds now amount w ≡ ok w'
      → (can_spend amount w ≡ true)
        × (w' ≡ record w { locked_balance = add w.locked_balance amount; updated_at = now })
  unfolding lock_funds
  lock_funds-ok now amount w w' e = ground arith

  deduct_funds-ok :
      (now : ℕ) (amount : D) (w w' : Wallet D)
      → deduct_funds now amount w ≡ ok w'
      → w' ≡ record w { balance = sub w.balance amount; updated_at = now }
  unfolding deduct_funds
  deduct_funds-ok now amount w w' e = ground arith

  lock_funds-IsSound :
      (now : ℕ) (amount : D) (w w' : Wallet D)
      → AtMost d.zero amount
      → lock_funds now amount w ≡ ok w'
      → IsSound w
      → IsSound w'
  unfolding can_spend available_balance IsSound
  lock_funds-IsSound now amount w w' n e s =
      let (c, eq) = lock_funds-ok now amount w w' e in
      rw eq (
        add_nonneg exact w.locked_balance amount s.0 n,
        add_of_AtMost-sub exact amount w.balance w.locked_balance
            (greater_or_equal-AtMost exact (sub w.balance w.locked_balance) amount c),
      )

  unlock_funds-IsSound :
      (now : ℕ) (amount : D) (w : Wallet D)
      → AtMost d.zero amount
      → IsSound w
      → IsSound (unlock_funds now amount w)
  unfolding unlock_funds IsSound
  unlock_funds-IsSound now amount w n s =
      let left = sub w.locked_balance amount in
      elim (Bool-cases (less_than left d.zero)) [
        | inl e ↦ rw e (
          AtMost-refl exact d.zero,
          exact.at_most_trans d.zero w.locked_balance w.balance s.0 s.1,
        )
        | inr e ↦ rw e (
          not_less-AtMost exact left d.zero e,
          exact.at_most_trans left w.locked_balance w.balance
              (sub-AtMost exact w.locked_balance amount n) s.1,
        )
      ]

  deduct_funds-IsSound :
      (now : ℕ) (amount : D) (w w' : Wallet D)
      → can_spend amount w ≡ true
      → deduct_funds now amount w ≡ ok w'
      → IsSound w
      → IsSound w'
  unfolding can_spend available_balance IsSound
  deduct_funds-IsSound now amount w w' c e s = rw (deduct_funds-ok now amount w w' e) (
    s.0,
    AtMost-sub_of_add exact w.locked_balance w.balance amount (
        subst (λ x. AtMost x w.balance) (exact.add_comm w.locked_balance amount)
          (add_of_AtMost-sub exact amount w.balance w.locked_balance
            (greater_or_equal-AtMost exact (sub w.balance w.locked_balance) amount c))),
  )

  add_funds-IsSound :
      (now : ℕ) (amount : D) (w : Wallet D)
      → AtMost d.zero amount
      → IsSound w
      → IsSound (add_funds now amount w)
  unfolding add_funds IsSound
  add_funds-IsSound now amount w n s = (
    s.0,
    exact.at_most_trans w.locked_balance w.balance (add w.balance amount) s.1
        (AtMost-add_right exact w.balance amount n),
  )

  WalletStep-IsSound : (w w' : Wallet D) → WalletStep w w' → IsSound w → IsSound w'
  WalletStep-IsSound w w' (WalletStep.lock now a n e) s = lock_funds-IsSound now a w w' n e s
  WalletStep-IsSound w _ (WalletStep.unlock now a n) s = unlock_funds-IsSound now a w n s
  WalletStep-IsSound w _ (WalletStep.deposit now a n) s = add_funds-IsSound now a w n s
  WalletStep-IsSound w w' (WalletStep.spend now a c e) s = deduct_funds-IsSound now a w w' c e s

  -- With exact decimals, locking, unlocking and adding amounts that are not negative, and deducting what
  -- CanSpend allows, keep the locked funds of a wallet between zero and its balance.
  pub WalletSteps-IsSound : {w w' : Wallet D} → WalletSteps w w' → IsSound w → IsSound w'
  WalletSteps-IsSound WalletSteps.done s = s
  WalletSteps-IsSound (WalletSteps.step {w = w} {w' = v} r rs) s =
      WalletSteps-IsSound rs (WalletStep-IsSound w v r s)
