-- ===== src/Rental/Serving.antt =====
-- The handlers of the rental service one request at a time.
use dantegpu_core.Prelude.{
  ℕ, ◌+◌, ◌≤◌, String, List, [], ◌∷◌, Option, none, some, true, false, ◌||◌, text_eq, eq_iff,
  Bool-cases, Option-cases, ◌≡◌, refl, sym, ◌∙◌, ◌⊎◌, inl, inr, arith,
}
use mathlib.Core.Path.{subst}
use dantegpu_core.Rental.Store.{
  Floats, GpuStatus, Rental, Tables, is_available_status, find_gpu, insert_rental, set_gpu_status,
  mark_running, set_connection_info, find_running, mark_completed, deduct,
}
use dantegpu_core.Rental.Handlers.{
  RentalRequest, Response, Database, Checked, passed, turned_down, check_rental,
  create_in_transaction, create_rental, start_rental, stop_running, stop_rental,
}
use dantegpu_core.Rental.Exclusive.{
  holds, count_holding, is_free, IsExclusive, set_status-other, set_busy-same, found-free,
  start-count, info-count, done, done-count, done-frees,
}

checked_cases :
    {F : Type 0} (c : Checked F)
    → ((r : Response F) × (c ≡ turned_down r)) ⊎ ((price : F) × (c ≡ passed price))
checked_cases (turned_down r) = inl (r, refl)
checked_cases (passed price) = inr (price, refl)

module _ {F : Type 0} ⦃f : Floats F⦄ where
  inserted-IsExclusive :
      (db : Database) (user : String) (gpu : String) (price : F) (t : Tables F)
      → is_free gpu t.gpus ≡ true
      → IsExclusive t
      → IsExclusive
          (set_gpu_status gpu GpuStatus.busy (insert_rental db.fresh_id db.now user gpu price t))
  unfolding IsExclusive set_gpu_status insert_rental count_holding holds
  inserted-IsExclusive db user gpu price t free e other = elim (Bool-cases (text_eq gpu other)) [
    | inl same ↦
        let path : gpu ≡ other = (eq_iff gpu other).0 same in
        let none_yet = (e other).1 (subst (λ o. is_free o t.gpus ≡ true) path free) in
        let taken =
          subst (λ o. is_free o (set_gpu_status gpu GpuStatus.busy t).gpus ≡ false) path
            (set_busy-same gpu t.gpus) in
        (ground (arith, same, none_yet), (λ h. ground (arith, h, taken)))
    | inr apart ↦
        let kept = set_status-other gpu other GpuStatus.busy t.gpus apart in
        (
          ground (arith, apart, (e other).0),
          (λ h. ground (arith, apart, (e other).1 (sym kept ∙ h))),
        )
  ]

  started-IsExclusive :
      (now : ℕ) (user id : String) (t : Tables F)
      → IsExclusive t
      → IsExclusive (set_connection_info id (mark_running now id user t))
  unfolding IsExclusive set_connection_info mark_running
  started-IsExclusive now user id t e gpu =
      rw
        (
          info-count gpu id (mark_running now id user t).rentals,
          start-count gpu now id user t.rentals,
        )
        (e gpu)

  stopped-IsExclusive :
      (now : ℕ) (duration cost : F) (user id : String) (r : Rental F) (t : Tables F)
      → find_running id user t ≡ some r
      → IsExclusive t
      → IsExclusive (
          deduct cost user (
            set_gpu_status r.gpu_instance_id GpuStatus.available
              (mark_completed now duration cost id t)))
  unfolding IsExclusive set_gpu_status mark_completed deduct find_running done
  stopped-IsExclusive now duration cost user id r t found e gpu =
      elim (Bool-cases (text_eq r.gpu_instance_id gpu)) [
        | inl same ↦
            let freed =
              subst
                (λ o.
                  count_holding o (done now duration cost id t.rentals) + 1
                  ≤ count_holding o t.rentals)
                ((eq_iff r.gpu_instance_id gpu).0 same)
                (done-frees now duration cost id user t.rentals r found) in
            (omega (arith, freed, (e gpu).0), (λ h. omega (arith, freed, (e gpu).0)))
        | inr apart ↦
            let kept = set_status-other r.gpu_instance_id gpu GpuStatus.available t.gpus apart in
            let less = done-count now duration cost gpu id t.rentals in
            (omega (arith, less, (e gpu).0), (λ h. omega (arith, less, (e gpu).1 (sym kept ∙ h))))
      ]

  check_rental-free :
      (db : Database) (user : String) (req : RentalRequest F) (t : Tables F) (price : F)
      → check_rental db user req t ≡ passed price
      → is_free req.gpu_instance_id t.gpus ≡ true
  unfolding check_rental find_gpu
  check_rental-free db user req t price h = elim (Option-cases (find_gpu req.gpu_instance_id t)) [
    | inl e ↦ ground (arith, e, h)
    | inr (g, e) ↦ elim (Bool-cases (is_available_status g.status)) [
      | inl a ↦ found-free req.gpu_instance_id t.gpus g e a
      | inr n ↦ ground (arith, e, n, h)
    ]
  ]

  -- A transaction is rolled back or commits.
  create_in_transaction-cases :
      (db : Database) (user : String) (req : RentalRequest F) (price : F) (t : Tables F)
      → ((create_in_transaction db user req price t).0 ≡ t)
        ⊎ ((create_in_transaction db user req price t).0
            ≡ set_gpu_status req.gpu_instance_id GpuStatus.busy
                (insert_rental db.fresh_id db.now user req.gpu_instance_id price t))
  unfolding create_in_transaction
  create_in_transaction-cases db user req price t = ground arith

  start_rental-cases :
      (db : Database) (user id : String) (t : Tables F)
      → ((start_rental db user id t).0 ≡ t)
        ⊎ ((start_rental db user id t).0 ≡ set_connection_info id (mark_running db.now id user t))
  unfolding start_rental
  start_rental-cases db user id t = ground arith

  stop_running-cases :
      (db : Database) (user id : String) (r : Rental F) (start : ℕ) (t : Tables F)
      → ((stop_running db user id r start t).0 ≡ t)
        ⊎ ((stop_running db user id r start t).0
            ≡ deduct (f.times (f.hours start db.now) r.price_per_hour) user (
                set_gpu_status r.gpu_instance_id GpuStatus.available (
                  mark_completed db.now
                    (f.hours start db.now)
                    (f.times (f.hours start db.now) r.price_per_hour)
                    id
                    t)))
  unfolding stop_running
  stop_running-cases db user id r start t = ground arith

  create_rental-cases :
      (db : Database) (user : String) (body : Option (RentalRequest F)) (t : Tables F)
      → ((create_rental db user body t).0 ≡ t)
        ⊎ ((req : RentalRequest F) × ((price : F) × ((check_rental db user req t ≡ passed price)
                × ((create_rental db user body t).0
                    ≡ (create_in_transaction db user req price t).0))))
  unfolding create_rental
  create_rental-cases db user none t = ground arith
  create_rental-cases db user (some req) t = elim (Bool-cases (text_eq user "")) [
    | inl u ↦ inl (rw (create_rental, u) refl)
    | inr u ↦ elim (checked_cases (check_rental db user req t)) [
      | inl (r, c) ↦ inl (rw (create_rental, u, c) refl)
      | inr (price, c) ↦ inr (req, (price, (c, rw (create_rental, u, c) refl)))
    ]
  ]

  stop_rental-cases :
      (db : Database) (user id : String) (t : Tables F)
      → ((stop_rental db user id t).0 ≡ t)
        ⊎ ((r : Rental F) × ((start : ℕ) × ((find_running id user t ≡ some r)
                × ((stop_rental db user id t).0 ≡ (stop_running db user id r start t).0))))
  unfolding stop_rental
  stop_rental-cases db user id t = elim (Option-cases (find_running id user t)) [
    | inl n ↦ inl (ground (arith, n))
    | inr (r, n) ↦ elim (Option-cases r.start_time) [
      | inl m ↦ inl (ground (arith, n, m))
      | inr (start, m) ↦ elim (Bool-cases (text_eq user "" || (db.fails 0 || db.fails 1))) [
        | inl b ↦ inl (ground (arith, b))
        | inr b ↦ inr (r, (start, (n, ground (arith, b, n, m))))
      ]
    ]
  ]

  create_rental-IsExclusive :
      (db : Database) (user : String) (body : Option (RentalRequest F)) (t : Tables F)
      → IsExclusive t
      → IsExclusive (create_rental db user body t).0
  create_rental-IsExclusive db user body t e = elim (create_rental-cases db user body t) [
    | inl same ↦ subst IsExclusive (sym same) e
    | inr (req, (price, (c, same))) ↦
        subst IsExclusive (sym same) (elim (create_in_transaction-cases db user req price t) [
          | inl k ↦ subst IsExclusive (sym k) e
          | inr k ↦ subst IsExclusive (sym k) (
              inserted-IsExclusive db user req.gpu_instance_id price t
                (check_rental-free db user req t price c) e)
        ])
  ]

  start_rental-IsExclusive :
      (db : Database) (user id : String) (t : Tables F)
      → IsExclusive t
      → IsExclusive (start_rental db user id t).0
  start_rental-IsExclusive db user id t e = elim (start_rental-cases db user id t) [
    | inl same ↦ subst IsExclusive (sym same) e
    | inr new ↦ subst IsExclusive (sym new) (started-IsExclusive db.now user id t e)
  ]

  stop_rental-IsExclusive :
      (db : Database) (user id : String) (t : Tables F)
      → IsExclusive t
      → IsExclusive (stop_rental db user id t).0
  stop_rental-IsExclusive db user id t e = elim (stop_rental-cases db user id t) [
    | inl same ↦ subst IsExclusive (sym same) e
    | inr (r, (start, (found, same))) ↦
        subst IsExclusive (sym same) (elim (stop_running-cases db user id r start t) [
          | inl k ↦ subst IsExclusive (sym k) e
          | inr k ↦ subst IsExclusive (sym k) (
              stopped-IsExclusive db.now (f.hours start db.now)
                (f.times (f.hours start db.now) r.price_per_hour) user id r t found e)
        ])
  ]

pub data Call (F : Type 0) : Type 0 where
  creates : String → Option (RentalRequest F) → Call F
  starts stops : String → String → Call F

module _ {F : Type 0} ⦃f : Floats F⦄ where
  -- The tables after a request.
  unfoldable pub serve : Database → Call F → Tables F → Tables F
  serve db (Call.creates user body) t = (create_rental db user body t).0
  serve db (Call.starts user id) t = (start_rental db user id t).0
  serve db (Call.stops user id) t = (stop_rental db user id t).0

  unfoldable pub serve_all : List (Database × Call F) → Tables F → Tables F
  unfolding serve
  serve_all [] t = t
  serve_all ((db, call) ∷ rest) t = serve_all rest (serve db call t)

  serve-IsExclusive :
      (db : Database) (call : Call F) (t : Tables F) → IsExclusive t → IsExclusive (serve db call t)
  unfolding serve
  serve-IsExclusive db (Call.creates user body) t e = create_rental-IsExclusive db user body t e
  serve-IsExclusive db (Call.starts user id) t e = start_rental-IsExclusive db user id t e
  serve-IsExclusive db (Call.stops user id) t e = stop_rental-IsExclusive db user id t e

  -- Requests that are served one after the other, by whomever and whatever the database fails, keep that one pending
  -- or running rental at most holds a GPU, and none a GPU that is available.
  pub serve_all-IsExclusive :
      (calls : List (Database × Call F)) (t : Tables F)
      → IsExclusive t
      → IsExclusive (serve_all calls t)
  unfolding serve_all
  serve_all-IsExclusive [] t e = e
  serve_all-IsExclusive ((db, call) ∷ rest) t e =
      serve_all-IsExclusive rest (serve db call t) (serve-IsExclusive db call t e)
