-- ===== src/Billing/Service/Ends.antt =====
-- What EndRentalSession leaves behind on each of its ways out.
use dantegpu_core.Prelude.{
  String, List, some, pos, true, false, ◌≡◌, refl, ap, ◌∙◌, ◌⊎◌, inl, inr, arith, find_first,
  text_eq, Answer-cases, Bool-cases,
}
use mathlib.Core.Path.{subst}
use dantegpu_core.Decimal.{Decimals, IsExact, sub, mul, div, from_int, less_than}
use dantegpu_core.Decimal.Laws.{sub_self}
use dantegpu_core.Billing.Models.{
  Result, ok, err, Wallet, WalletType, RentalSession, SessionEndRequest, SessionResponse,
  SessionStatus, calculate_current_cost, deduct_funds, unlock_funds, session_not_active,
}
use dantegpu_core.Billing.World.{is_ok, Untouched, bind-ok, World, Env}
use dantegpu_core.Billing.Store.{
  get_wallet_by_user_id, is_wallet_of, update_wallet_balance, set_balance, update_where,
  create_transaction, insert_transaction,
}
use dantegpu_core.Billing.Store.Sessions.{get_rental_session, update_rental_session, set_session}
use dantegpu_core.Billing.Store.Outcomes.{
  get_wallet_by_user_id-cases, get_rental_session-cases, update_rental_session-cases,
}
use dantegpu_core.Billing.Service.Ending.{
  finished, submit_work, pay, settle, end_rental_session, is_active, text_param,
}

is_active_lem : (s : SessionStatus) → is_active s ≡ true → s ≡ SessionStatus.active
unfolding is_active
is_active_lem s h = ground arith

module _ {D : Type 0} ⦃d : Decimals D⦄ where
  -- The cost of a session that ends now.
  abbrev pub final_cost : Env D → RentalSession D → D
  final_cost env s =
      calculate_current_cost env.now
        (record s { ended_at = some env.now; status = SessionStatus.completed })

  abbrev pub final_fee : Env D → RentalSession D → D
  final_fee env s = div (mul (final_cost env s) s.platform_fee_rate) (from_int (pos 100))

  -- The row of a session that ended now: completed, with its end and its costs.
  abbrev pub completed_row : Env D → RentalSession D → RentalSession D → RentalSession D
  completed_row env s r = record r {
    status = SessionStatus.completed;
    actual_power_w = s.actual_power_w;
    ended_at = some env.now;
    last_billed_at = s.last_billed_at;
    total_cost = env.column (final_cost env s);
    platform_fee = env.column (final_fee env s);
    provider_earnings = env.column (sub (final_cost env s) (final_fee env s));
    metadata = s.metadata;
    updated_at = env.now;
  }

  -- The session of the request is stored as completed, with its costs.
  unfoldable pub IsCompleted : Env D → RentalSession D → World D → World D → Type 0
  IsCompleted env s w w' =
      w'.sessions
      ≡ update_where (λ (r : RentalSession D). text_eq r.id s.id) (completed_row env s) w.sessions

  -- The user's wallet pays a cost, and nothing in it stays locked.
  unfoldable pub HasPaid : Env D → String → D → List (Wallet D) → World D → Type 0
  HasPaid env user cost wallets w' =
      (wallet : Wallet D) × ((find_first (is_wallet_of user WalletType.user) wallets ≡ some wallet)
        × ((less_than wallet.balance cost ≡ false)
            × (w'.wallets
                ≡ update_where (λ (r : Wallet D). text_eq r.id wallet.id)
                    (set_balance env (sub wallet.balance cost) d.zero) wallets)))

  -- The ways out of EndRentalSession.
  unfoldable pub EndOutcome :
      Env D → SessionEndRequest → World D → Result (SessionResponse D) × World D → Type 0
  EndOutcome env req w r =
      ((is_ok r.0 ≡ false) × ((r.1.wallets ≡ w.wallets) × (r.1.sessions ≡ w.sessions)))
      ⊎ ((s : RentalSession D) × ((find_first (λ (r : RentalSession D). text_eq r.id req.session_id)
                w.sessions
              ≡ some s)
            × ((s.status ≡ SessionStatus.active)
                × (IsCompleted env s w r.1
                    × (((is_ok r.0 ≡ true) × HasPaid env s.user_id (final_cost env s) w.wallets r.1)
                        ⊎ ((is_ok r.0 ≡ false) × (r.1.wallets ≡ w.wallets)))))))

  -- The receipt is submitted or not; the session keeps its user and its cost.
  submit_work-ok :
      (env : Env D) (s : RentalSession D) (w : World D)
      → let r = submit_work env s w in
        Untouched w r.1
        × ((s' : RentalSession D) × ((r.0 ≡ ok s')
              × ((s'.user_id ≡ s.user_id) × (s'.total_cost ≡ s.total_cost))))
  unfolding submit_work
  submit_work-ok env s w =
      let job = text_param s.metadata "covenant_job_pda" in
      let poster = text_param s.metadata "covenant_poster" in
      elim (Bool-cases env.covenant_enabled) [
        | inr e ↦ rw e ((refl, (refl, refl)), (s, (refl, (refl, refl))))
        | inl e ↦ elim (Bool-cases (text_eq job "")) [
          | inl f ↦ rw (e, f) ((refl, (refl, refl)), (s, (refl, (refl, refl))))
          | inr f ↦ elim (Answer-cases (env.close_job job poster)) [
            | inl (a, g) ↦ rw (e, f, g) ((refl, (refl, refl)), (_, (refl, (refl, refl))))
            | inr (m, g) ↦ rw (e, f, g) ((refl, (refl, refl)), (s, (refl, (refl, refl))))
          ]
        ]
      ]

  finished-total_cost :
      (env : Env D) (s : RentalSession D) → (finished env s).total_cost ≡ final_cost env s
  unfolding finished
  finished-total_cost env s = refl

  finished-user_id : (env : Env D) (s : RentalSession D) → (finished env s).user_id ≡ s.user_id
  unfolding finished
  finished-user_id env s = refl

  IsCompleted-through :
      (env : Env D) (s : RentalSession D) (w w1 w' : World D)
      → w1.sessions ≡ w.sessions
      → w'.sessions
        ≡ update_where
            (λ (r : RentalSession D). text_eq r.id (finished env s).id)
            (set_session env (finished env s))
            w1.sessions
      → IsCompleted env s w w'
  unfolding IsCompleted finished set_session
  IsCompleted-through env s w w1 w' u e =
      e
      ∙ ap
          (update_where (λ (r : RentalSession D). text_eq r.id s.id)
            (set_session env (finished env s)))
          u

module _ {D : Type 0} ⦃d : Decimals D⦄ (exact : IsExact D) where
  unlock_all :
      (env : Env D) (wallet : Wallet D)
      → (unlock_funds env.now wallet.locked_balance wallet).locked_balance ≡ d.zero
  unfolding unlock_funds
  unlock_all env wallet = rw (sub_self exact wallet.locked_balance) (ground (arith))

  pay-cases :
      (env : Env D) (s : RentalSession D) (wallet : Wallet D) (w : World D)
      → let r = pay env s wallet w in
        (r.1.sessions ≡ w.sessions)
        × (((is_ok r.0 ≡ false) × (r.1.wallets ≡ w.wallets))
            ⊎ ((is_ok r.0 ≡ true)
                × ((less_than wallet.balance s.total_cost ≡ false)
                    × (r.1.wallets
                        ≡ update_where
                            (λ (r : Wallet D). text_eq r.id wallet.id)
                            (set_balance env
                              (sub wallet.balance s.total_cost)
                              (unlock_funds env.now wallet.locked_balance wallet).locked_balance)
                            w.wallets))))
  unfolding pay deduct_funds update_wallet_balance create_transaction insert_transaction
      unlock_funds
  pay-cases env s wallet w = ground arith

  settle_run :
      (env : Env D) (s : RentalSession D) (w : World D) (wallet : Wallet D)
      → (get_wallet_by_user_id env s.user_id WalletType.user w).0 ≡ ok wallet
      → settle env s w ≡ pay env s wallet (get_wallet_by_user_id env s.user_id WalletType.user w).1
  unfolding settle
  settle_run env s w wallet e =
      bind-ok (get_wallet_by_user_id env s.user_id WalletType.user) (pay env s) w wallet e

  settle_err :
      (env : Env D) (s : RentalSession D) (w : World D)
      → is_ok (get_wallet_by_user_id env s.user_id WalletType.user w).0 ≡ false
      → (is_ok (settle env s w).0 ≡ false)
        × ((settle env s w).1 ≡ (get_wallet_by_user_id env s.user_id WalletType.user w).1)
  unfolding settle
  settle_err env s w e = ground arith

  settle-cases :
      (env : Env D) (s : RentalSession D) (w : World D)
      → let r = settle env s w in
        (r.1.sessions ≡ w.sessions)
        × (((is_ok r.0 ≡ false) × (r.1.wallets ≡ w.wallets))
            ⊎ ((is_ok r.0 ≡ true) × HasPaid env s.user_id s.total_cost w.wallets r.1))
  unfolding HasPaid
  settle-cases env s w =
      let w1 : World D = (get_wallet_by_user_id env s.user_id WalletType.user w).1 in
      let (u, c) = get_wallet_by_user_id-cases env s.user_id WalletType.user w in
      elim c [
        | inl e ↦
            (ground (arith, settle_err env s w e, u), inl (ground (arith, settle_err env s w e, u)))
        | inr (wallet, (found, e)) ↦
            let (hs, k) = pay-cases env s wallet w1 in
            rw (settle_run env s w wallet e) (
              ground (arith, hs, u),
              elim k [
                | inl h ↦ inl (ground (arith, u, h))
                | inr (o, (le, ws)) ↦ inr (
                  o,
                  (
                    wallet,
                    (
                      found,
                      (
                        le,
                        ws
                            ∙ ap
                                (λ x.
                                  update_where (λ (v : Wallet D). text_eq v.id wallet.id)
                                    (set_balance env (sub wallet.balance s.total_cost) x)
                                    w1.wallets)
                                (unlock_all env wallet)
                            ∙ ap
                                (update_where (λ (v : Wallet D). text_eq v.id wallet.id)
                                  (set_balance env (sub wallet.balance s.total_cost) d.zero))
                                u.0,
                      ),
                    ),
                  ),
                )
              ],
            )
      ]

  end_run :
      (env : Env D) (req : SessionEndRequest) (w : World D) (s s' : RentalSession D)
      → let w1 = (get_rental_session env req.session_id w).1 in
        let w2 = (update_rental_session env (finished env s) w1).1 in
        (get_rental_session env req.session_id w).0 ≡ ok s
        → is_active s.status ≡ true
        → (update_rental_session env (finished env s) w1).0 ≡ ok tt
        → (submit_work env (finished env s) w2).0 ≡ ok s'
        → end_rental_session env req w ≡ settle env s' (submit_work env (finished env s) w2).1
  unfolding end_rental_session
  end_run env req w s s' e f g h = ground arith

  end_err :
      (env : Env D) (req : SessionEndRequest) (w : World D)
      → is_ok (get_rental_session env req.session_id w).0 ≡ false
      → (is_ok (end_rental_session env req w).0 ≡ false)
        × ((end_rental_session env req w).1 ≡ (get_rental_session env req.session_id w).1)
  unfolding end_rental_session
  end_err env req w e = ground arith

  end_inactive :
      (env : Env D) (req : SessionEndRequest) (w : World D) (s : RentalSession D)
      → (get_rental_session env req.session_id w).0 ≡ ok s
      → is_active s.status ≡ false
      → end_rental_session env req w
        ≡ (err session_not_active, (get_rental_session env req.session_id w).1)
  unfolding end_rental_session
  end_inactive env req w s e f = ground arith

  end_not_updated :
      (env : Env D) (req : SessionEndRequest) (w : World D) (s : RentalSession D)
      → let w1 = (get_rental_session env req.session_id w).1 in
        (get_rental_session env req.session_id w).0 ≡ ok s
        → is_active s.status ≡ true
        → is_ok (update_rental_session env (finished env s) w1).0 ≡ false
        → (is_ok (end_rental_session env req w).0 ≡ false)
          × ((end_rental_session env req w).1 ≡ (update_rental_session env (finished env s) w1).1)
  unfolding end_rental_session
  end_not_updated env req w s e f g = ground arith

  -- Every run of EndRentalSession leaves wallets and sessions as they were and fails, or the session of the
  -- request was active and it has stored it as completed, with its end and its costs. Then either it answers, the user's wallet
  -- has paid the whole cost, and nothing in the wallet stays locked; or it fails and no
  -- wallet changes. The decimals are exact.
  pub end_rental_session_outcome :
      (env : Env D) (req : SessionEndRequest) (w : World D)
      → EndOutcome env req w (end_rental_session env req w)
  unfolding EndOutcome IsCompleted
  end_rental_session_outcome env req w =
      let w1 : World D = (get_rental_session env req.session_id w).1 in
      let (u1, c1) = get_rental_session-cases env req.session_id w in
      elim c1 [
        | inl e ↦ inl (ground (arith, end_err env req w e, u1))
        | inr (s, (found, e)) ↦ elim (Bool-cases (is_active s.status)) [
          | inr f ↦ inl (ground (arith, end_inactive env req w s e f, u1))
          | inl f ↦
              let w2 : World D = (update_rental_session env (finished env s) w1).1 in
              let (same, c2) = update_rental_session-cases env (finished env s) w1 in
              elim c2 [
                | inl g ↦ inl (ground (arith, end_not_updated env req w s e f g.0, u1, same, g))
                | inr g ↦
                    let (u3, (s', (h, (user, cost)))) = submit_work-ok env (finished env s) w2 in
                    let w3 : World D = (submit_work env (finished env s) w2).1 in
                    let (hs, k) = settle-cases env s' w3 in
                    let as_before : w3.wallets ≡ w.wallets = u3.0 ∙ same ∙ u1.0 in
                    let completed : IsCompleted env s w (settle env s' w3).1 =
                      IsCompleted-through env s w w1 (settle env s' w3).1 u1.1.0
                        (hs ∙ u3.1.0 ∙ g.1) in
                    rw (end_run env req w s s' e f g.0 h) (
                      inr (
                        s,
                        (
                          found,
                          (
                            is_active_lem s.status f,
                            (
                              completed,
                              elim k [
                                | inl x ↦ inr (x.0, x.1 ∙ as_before)
                                | inr (o, x) ↦ inl (
                                  o,
                                  subst
                                      (λ ws.
                                        HasPaid env s.user_id (final_cost env s) ws
                                          (settle env s' w3).1)
                                      as_before
                                      (subst
                                        (λ n.
                                          HasPaid env n (final_cost env s) w3.wallets
                                            (settle env s' w3).1)
                                        (user ∙ finished-user_id env s)
                                        (subst
                                          (λ c.
                                            HasPaid env s'.user_id c w3.wallets
                                              (settle env s' w3).1)
                                          (cost ∙ finished-total_cost env s) x)),
                                )
                              ],
                            ),
                          ),
                        ),
                      ))
              ]
        ]
      ]
