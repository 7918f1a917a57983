-- ===== src/Rental/Store.antt =====
-- services/rental-service/main.go: the tables and the statements of the handlers. Go's floating point is a parameter;
-- instants are in microseconds. A table is a list of rows, the newest first.
use dantegpu_core.Prelude.{
  ℕ, String, List, [], ◌∷◌, Option, none, some, Bool, true, false, ◌&&◌, if◌then◌else◌, leb, filter,
  find_first, sort, text_eq,
}

pub record Floats (F : Type 0) : Type 0 where
  pub times : F → F → F
  pub minus : F → F → F
  pub below : F → F → Bool
  -- `now.Sub(start).Hours()`
  pub hours : ℕ → ℕ → F

-- The `status` of a row of `gpu_instances`.
pub data GpuStatus : Type 0 where
  available busy : GpuStatus
  other : String → GpuStatus

pub record GpuInstance (F : Type 0) : Type 0 where
  pub id : String
  pub status : GpuStatus
  pub price_per_hour : F

pub record User (F : Type 0) : Type 0 where
  pub id : String
  pub balance : F

pub data RentalStatus : Type 0 where
  pending running completed : RentalStatus

-- `ConnectionInfo` is the fixed text that startRental writes, or nothing.
pub record Rental (F : Type 0) : Type 0 where
  pub id : String
  pub user_id : String
  pub gpu_instance_id : String
  pub status : RentalStatus
  pub start_time : Option ℕ
  pub end_time : Option ℕ
  pub duration_hours : Option F
  pub price_per_hour : F
  pub total_cost : Option F
  pub is_paid : Bool
  pub has_connection_info : Bool
  pub created_at : ℕ

pub record Tables (F : Type 0) : Type 0 where
  pub gpus : List (GpuInstance F)
  pub users : List (User F)
  pub rentals : List (Rental F)

abbrev pub is_available_status : GpuStatus → Bool
is_available_status GpuStatus.available = true
is_available_status _ = false

abbrev pub is_pending : RentalStatus → Bool
is_pending RentalStatus.pending = true
is_pending _ = false

abbrev pub is_running : RentalStatus → Bool
is_running RentalStatus.running = true
is_running _ = false

-- `UPDATE … WHERE test`
abbrev pub update_rows : {A : Type 0} → (A → Bool) → (A → A) → List A → List A
update_rows test change [] = []
update_rows test change (x ∷ xs) = (if test x then change x else x) ∷ update_rows test change xs

module _ {F : Type 0} where
  -- `SELECT … FROM gpu_instances WHERE id = $1`
  unfoldable pub find_gpu : String → Tables F → Option (GpuInstance F)
  find_gpu id t = find_first (λ g. text_eq g.id id) t.gpus

  -- `SELECT balance FROM users WHERE id = $1`
  unfoldable pub find_user : String → Tables F → Option (User F)
  find_user id t = find_first (λ u. text_eq u.id id) t.users

  -- `INSERT INTO gpu_rentals`: the id and the creation time are the database's defaults.
  unfoldable pub insert_rental : String → ℕ → String → String → F → Tables F → Tables F
  insert_rental id now user gpu price t = record t {
    rentals =
        record {
          id = id;
          user_id = user;
          gpu_instance_id = gpu;
          status = RentalStatus.pending;
          start_time = none;
          end_time = none;
          duration_hours = none;
          price_per_hour = price;
          total_cost = none;
          is_paid = false;
          has_connection_info = false;
          created_at = now;
        }
        ∷ t.rentals;
  }

  -- `UPDATE gpu_instances SET status = … WHERE id = $1`
  unfoldable pub set_gpu_status : String → GpuStatus → Tables F → Tables F
  set_gpu_status id status t = record t {
    gpus = update_rows (λ g. text_eq g.id id) (λ g. record g { status = status }) t.gpus;
  }

  -- `UPDATE gpu_rentals SET status = 'running', … WHERE id = $2 AND user_id = $3 AND status = 'pending'`
  unfoldable pub mark_running : ℕ → String → String → Tables F → Tables F
  mark_running now id user t = record t {
    rentals =
        update_rows (λ r. text_eq r.id id && (text_eq r.user_id user && is_pending r.status))
          (λ r. record r { status = RentalStatus.running; start_time = some now; is_paid = true })
          t.rentals;
  }

  -- `UPDATE gpu_rentals SET connection_info = $1 WHERE id = $2`
  unfoldable pub set_connection_info : String → Tables F → Tables F
  set_connection_info id t = record t {
    rentals =
        update_rows (λ r. text_eq r.id id) (λ r. record r { has_connection_info = true }) t.rentals;
  }

  -- `SELECT … FROM gpu_rentals WHERE id = $1 AND user_id = $2 AND status = 'running'`
  unfoldable pub find_running : String → String → Tables F → Option (Rental F)
  find_running id user t =
      find_first (λ r. text_eq r.id id && (text_eq r.user_id user && is_running r.status)) t.rentals

  -- `UPDATE gpu_rentals SET status = 'completed', … WHERE id = $4`
  unfoldable pub mark_completed : ℕ → F → F → String → Tables F → Tables F
  mark_completed now duration cost id t = record t {
    rentals =
        update_rows (λ r. text_eq r.id id)
          (λ r. record r {
            status = RentalStatus.completed;
            end_time = some now;
            duration_hours = some duration;
            total_cost = some cost;
          })
          t.rentals;
  }

  -- `UPDATE users SET balance = balance - $1 WHERE id = $2`
  unfoldable pub deduct : ⦃f : Floats F⦄ → F → String → Tables F → Tables F
  deduct ⦃f⦄ cost user t = record t {
    users =
        update_rows (λ u. text_eq u.id user) (λ u. record u { balance = f.minus u.balance cost })
          t.users;
  }

  -- `SELECT … WHERE user_id = $1 ORDER BY created_at DESC`
  unfoldable pub rentals_of : String → Tables F → List (Rental F)
  rentals_of user t =
      sort (λ a b. leb b.created_at a.created_at) (filter (λ r. text_eq r.user_id user) t.rentals)
