-- ===== src/Rental/Handlers.antt =====
-- services/rental-service/main.go: the handlers. A request without `X-User-ID` has no user. A statement fails where the
-- database does; the deferred rollback then leaves the tables as they were.
use dantegpu_core.Prelude.{
  ℕ, String, List, [], ◌∷◌, Option, none, some, Bool, not, if◌then◌else◌, text_eq,
}
use dantegpu_core.Rental.Store.{
  Floats, GpuStatus, Rental, Tables, is_available_status, find_gpu, find_user, insert_rental,
  set_gpu_status, mark_running, set_connection_info, find_running, mark_completed, deduct,
  rentals_of,
}

pub record RentalRequest (F : Type 0) : Type 0 where
  pub gpu_instance_id : String
  pub duration_hours : F

-- The status codes and the bodies.
pub data Response (F : Type 0) : Type 0 where
  unauthorized bad_request gpu_not_found gpu_not_available user_not_found insufficient_balance
        rental_not_found database_error started :
      Response F
  created : Option (Rental F) → Response F
  stopped : F → F → ℕ → Response F
  listed : List (Rental F) → Response F

-- What the database does during one request: which of its statements fail, in their order, and the id it draws.
pub record Database : Type 0 where
  pub now : ℕ
  pub fresh_id : String
  pub fails : ℕ → Bool

abbrev pub first_rental : {F : Type 0} → List (Rental F) → Option (Rental F)
first_rental [] = none
first_rental (r ∷ rs) = some r

-- What the checks of `createRental` before its transaction come to: the price, or the refusal.
pub data Checked (F : Type 0) : Type 0 where
  passed : F → Checked F
  turned_down : Response F → Checked F

module _ {F : Type 0} ⦃f : Floats F⦄ where
  unfoldable pub check_balance : Database → String → RentalRequest F → F → Tables F → Checked F
  unfolding find_user
  check_balance db user req price t = elim (find_user user t) [
    | none ↦ turned_down Response.user_not_found
    | some u ↦
        if db.fails 1
        then turned_down Response.user_not_found
        else if f.below u.balance (f.times req.duration_hours price)
        then turned_down Response.insufficient_balance
        else passed price
  ]

  unfoldable pub check_rental : Database → String → RentalRequest F → Tables F → Checked F
  unfolding find_gpu check_balance
  check_rental db user req t = elim (find_gpu req.gpu_instance_id t) [
    | none ↦ turned_down Response.gpu_not_found
    | some g ↦
        if db.fails 0
        then turned_down Response.gpu_not_found
        else if not (is_available_status g.status)
        then turned_down Response.gpu_not_available
        else check_balance db user req g.price_per_hour t
  ]

  -- The transaction of `createRental`: Begin, INSERT, UPDATE and Commit.
  unfoldable pub create_in_transaction :
      Database → String → RentalRequest F → F → Tables F → Tables F × Response F
  unfolding insert_rental set_gpu_status
  create_in_transaction db user req price t =
      let t1 = insert_rental db.fresh_id db.now user req.gpu_instance_id price t in
      if db.fails 2
      then (t, Response.database_error)
      else if db.fails 3
      then (t, Response.database_error)
      else if db.fails 4
      then (t, Response.database_error)
      else if db.fails 5
      then (t, Response.database_error)
      else (
        set_gpu_status req.gpu_instance_id GpuStatus.busy t1,
        Response.created (first_rental t1.rentals),
      )

  -- `createRental`; a body that does not decode is none.
  unfoldable pub create_rental :
      Database → String → Option (RentalRequest F) → Tables F → Tables F × Response F
  unfolding check_rental create_in_transaction
  create_rental db user body t = if text_eq user "" then (t, Response.unauthorized) else elim body [
    | none ↦ (t, Response.bad_request)
    | some req ↦ elim (check_rental db user req t) [
      | turned_down r ↦ (t, r)
      | passed price ↦ create_in_transaction db user req price t
    ]
  ]

  -- `startRental`: the number of rows that the first UPDATE changed is not looked at.
  unfoldable pub start_rental : Database → String → String → Tables F → Tables F × Response F
  unfolding mark_running set_connection_info
  start_rental db user id t =
      if text_eq user ""
      then (t, Response.unauthorized)
      else if db.fails 0
      then (t, Response.database_error)
      else if db.fails 1
      then (t, Response.database_error)
      else if db.fails 2
      then (t, Response.database_error)
      else if db.fails 3
      then (t, Response.database_error)
      else (set_connection_info id (mark_running db.now id user t), Response.started)

  -- The statements of `stopRental` after the rental has been read.
  unfoldable pub stop_running :
      Database → String → String → Rental F → ℕ → Tables F → Tables F × Response F
  unfolding mark_completed set_gpu_status deduct
  stop_running db user id r start t =
      let duration = f.hours start db.now in
      let cost = f.times duration r.price_per_hour in
      if db.fails 2
      then (t, Response.database_error)
      else if db.fails 3
      then (t, Response.database_error)
      else if db.fails 4
      then (t, Response.database_error)
      else if db.fails 5
      then (t, Response.database_error)
      else (
        deduct cost user (
            set_gpu_status r.gpu_instance_id GpuStatus.available
              (mark_completed db.now duration cost id t)),
        Response.stopped duration cost db.now,
      )

  -- `stopRental`; a start time that is NULL does not scan.
  unfoldable pub stop_rental : Database → String → String → Tables F → Tables F × Response F
  unfolding find_running stop_running
  stop_rental db user id t =
      if text_eq user ""
      then (t, Response.unauthorized)
      else if db.fails 0
      then (t, Response.database_error)
      else if db.fails 1
      then (t, Response.rental_not_found)
      else elim (find_running id user t) [
        | none ↦ (t, Response.rental_not_found)
        | some r ↦ elim r.start_time [
          | none ↦ (t, Response.rental_not_found)
          | some start ↦ stop_running db user id r start t
        ]
      ]

  -- `getUserRentals`
  unfoldable pub get_user_rentals : Database → String → Tables F → Response F
  unfolding rentals_of
  get_user_rentals db user t =
      if text_eq user ""
      then Response.unauthorized
      else if db.fails 0
      then Response.database_error
      else Response.listed (rentals_of user t)
