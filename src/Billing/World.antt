-- ===== src/Billing/World.antt =====
-- The state that services/billing-payment-service works on: the tables of its database, and what it
-- asked of Solana and of the Covenant escrow. An operation is a function of that state; `err` leaves it
-- with what the statements before the error did, since the service opens no database transaction.
use dantegpu_core.Prelude.{
  ℤ, ℕ, suc, String, List, [], ◌∷◌, ◌++◌, Bool, true, false, if◌then◌else◌, Answer, ◌≡◌, refl,
}
use dantegpu_core.Billing.Models.{
  Error, Result, ok, err, Wallet, Transaction, RentalSession, UsageRecord, database, failed,
}

abbrev pub is_ok : {A : Type 0} → Result A → Bool
is_ok (ok a) = true
is_ok (err e) = false

-- A request to the outside.
pub data Effect (D : Type 0) : Type 0 where
  -- `TransferTokens(from, to, amount)` that was carried out
  transferred : String → String → D → Effect D
  -- `OpenRentalJob` that was carried out, for a session
  escrow_opened : D → String → Effect D
  -- `CloseRentalJob(job, poster)`
  work_submitted : String → String → Effect D

pub record World (D : Type 0) : Type 0 where
  pub wallets : List (Wallet D)
  pub transactions : List (Transaction D)
  pub sessions : List (RentalSession D)
  pub usage : List (UsageRecord D)
  pub effects : List (Effect D)
  -- statements sent to the database so far
  pub statements : ℕ
  -- UUIDs drawn so far
  pub drawn : ℕ

-- `RentalJob` of internal/covenant/manager.go
pub record RentalJob : Type 0 where
  pub job_pda : String
  pub spec_hash : String
  pub poster : String
  pub tx_signature : String

-- The wallets, the sessions and the transactions are as before.
abbrev pub Untouched : {D : Type 0} → World D → World D → Type 0
Untouched w w' =
    (w'.wallets ≡ w.wallets) × ((w'.sessions ≡ w.sessions) × (w'.transactions ≡ w.transactions))

-- What `OpenRentalJob` comes to: the escrow is locked and indexed, or it is locked and an error is
-- answered since the index failed, or it is not locked.
pub data Opening : Type 0 where
  opened : RentalJob → Opening
  unindexed : RentalJob → String → Opening
  unopened : String → Opening

-- What the service stands on. Time stands still during a request.
pub record Env (D : Type 0) : Type 0 where
  pub now : ℕ
  -- `uuid.New`
  pub fresh : ℕ → String
  -- Does the database fail on its n-th statement?
  pub faulty : ℕ → Bool
  -- A decimal after a column of type DECIMAL(20,9)
  pub column : D → D
  -- `decimal.String`
  pub show : D → String
  -- The Solana client: its answers.
  pub create_ata : String → Answer (Unit {0})
  pub token_balance : String → Answer D
  pub confirm : String → Answer (Unit {0})
  pub transfer : String → String → D → Answer String
  -- The Covenant manager: is it configured, and its answers.
  pub covenant_enabled : Bool
  pub open_job : D → String → String → ℤ → Opening
  pub close_job : String → String → Answer String

-- An operation of the service.
abbrev pub Billing : Type 0 → Type 0 → Type 0
Billing D A = World D → Result A × World D

module _ {D : Type 0} where
  abbrev pub return : {A : Type 0} → A → Billing D A
  return a w = (ok a, w)

  abbrev pub fail : {A : Type 0} → Error → Billing D A
  fail e w = (err e, w)

  infixl 5 ◌>>=◌ ◌>>◌
  abbrev pub ◌>>=◌ : {A B : Type 0} → Billing D A → (A → Billing D B) → Billing D B
  ◌>>=◌ m f w = elim (m w).0 [ ok a ↦ f a (m w).1 | err e ↦ (err e, (m w).1) ]

  abbrev pub ◌>>◌ : {A B : Type 0} → Billing D A → Billing D B → Billing D B
  m >> k = m >>= λ _. k

  -- `if err != nil { return fmt.Errorf("message: %w", err) }`
  abbrev pub wrapped : {A : Type 0} → String → Billing D A → Billing D A
  wrapped message m w = elim (m w).0 [
    | ok a ↦ (ok a, (m w).1)
    | err e ↦ (err (failed message e), (m w).1)
  ]

  -- An error that is only logged.
  abbrev pub logged : {A : Type 0} → Billing D A → Billing D (Unit {0})
  logged m w = (ok tt, (m w).1)

  abbrev pub guard : Bool → Error → Billing D (Unit {0})
  guard test e w = if test then (ok tt, w) else (err e, w)

  abbrev pub lift : {A : Type 0} → Result A → Billing D A
  lift r w = (r, w)

  abbrev pub emit : Effect D → Billing D (Unit {0})
  emit e w = (ok tt, record w { effects = w.effects ++ e ∷ [] })

  -- `uuid.New()`
  abbrev pub new_uuid : Env D → Billing D String
  new_uuid env w = (ok (env.fresh w.drawn), record w { drawn = suc w.drawn })

  -- A statement is sent; a fault of the database stops it.
  abbrev pub send : Env D → Billing D (Unit {0})
  send env w =
      if env.faulty w.statements
      then (err database, record w { statements = suc w.statements })
      else (ok tt, record w { statements = suc w.statements })

module _ {D A B : Type 0} where
  -- What follows an operation that answers.
  pub bind-ok :
      (m : Billing D A) (f : A → Billing D B) (w : World D) (a : A)
      → (m w).0 ≡ ok a
      → (m >>= f) w ≡ f a (m w).1
  bind-ok m f w a e = rw (◌>>=◌, e) refl

  pub bind-err :
      (m : Billing D A) (f : A → Billing D B) (w : World D) (e : Error)
      → (m w).0 ≡ err e
      → (m >>= f) w ≡ (err e, (m w).1)
  bind-err m f w e h = rw (◌>>=◌, h) refl
