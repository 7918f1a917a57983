-- ===== src/Rental/Exclusive.antt =====
-- How many rentals a GPU has that are pending or running.
use dantegpu_core.Prelude.{
  ℕ, ◌+◌, ◌≤◌, String, List, [], ◌∷◌, some, Bool, true, false, ◌&&◌, ◌||◌, if◌then◌else◌,
  find_first, text_eq, eq_iff, ◌≡◌, refl, ◌∙◌, ◌⊎◌, inl, inr, arith,
}
use mathlib.Core.Path.{ap, subst}
use dantegpu_core.Rental.Store.{
  GpuStatus, GpuInstance, RentalStatus, Rental, Tables, is_available_status, is_pending, is_running,
  update_rows,
}

find_first-cases :
    {A : Type 0} (test : A → Bool) (x y : A) (xs : List A)
    → find_first test (x ∷ xs) ≡ some y
    → ((test x ≡ true) × (x ≡ y)) ⊎ ((test x ≡ false) × (find_first test xs ≡ some y))
find_first-cases test x y xs h = ground (arith, h)

module _ {F : Type 0} where
  -- The rental holds the GPU.
  unfoldable pub holds : String → Rental F → Bool
  holds gpu r = text_eq r.gpu_instance_id gpu && (is_pending r.status || is_running r.status)

  unfoldable pub count_holding : String → List (Rental F) → ℕ
  unfolding holds
  count_holding gpu [] = 0
  count_holding gpu (r ∷ rs) = (if holds gpu r then 1 else 0) + count_holding gpu rs

  -- The first row with the id is available.
  unfoldable pub is_free : String → List (GpuInstance F) → Bool
  is_free gpu [] = false
  is_free gpu (g ∷ gs) = if text_eq g.id gpu then is_available_status g.status else is_free gpu gs

  -- One rental at most holds a GPU, and none one that is available.
  unfoldable pub IsExclusive : Tables F → Type 0
  IsExclusive t =
      (gpu : String)
      → (count_holding gpu t.rentals ≤ 1)
        × (is_free gpu t.gpus ≡ true → count_holding gpu t.rentals ≡ 0)

  pub set_status-other :
      (id gpu : String) (status : GpuStatus) (gs : List (GpuInstance F))
      → text_eq id gpu ≡ false
      → is_free gpu (update_rows (λ g. text_eq g.id id) (λ g. record g { status = status }) gs)
        ≡ is_free gpu gs
  unfolding is_free
  set_status-other id gpu status [] n = refl
  set_status-other id gpu status (g ∷ gs) n =
      ground (arith, set_status-other id gpu status gs n, eq_iff g.id id, n)

  pub set_busy-same :
      (id : String) (gs : List (GpuInstance F))
      → is_free id
          (update_rows (λ g. text_eq g.id id) (λ g. record g { status = GpuStatus.busy }) gs)
        ≡ false
  unfolding is_free
  set_busy-same id [] = refl
  set_busy-same id (g ∷ gs) = ground (arith, set_busy-same id gs)

  pub found-free :
      (id : String) (gs : List (GpuInstance F)) (g : GpuInstance F)
      → find_first (λ x. text_eq x.id id) gs ≡ some g
      → is_available_status g.status ≡ true
      → is_free id gs ≡ true
  unfolding is_free
  found-free id [] g h a = ground (arith, h)
  found-free id (x ∷ xs) g h a = elim (find_first-cases (λ y. text_eq y.id id) x g xs h) [
    | inl (e, same) ↦ rw e (ap (λ y. is_available_status y.status) same ∙ a)
    | inr (e, k) ↦ rw e (found-free id xs g k a)
  ]

  -- The statements that start a rental leave who holds what.
  pub start-count :
      (gpu : String) (now : ℕ) (id user : String) (rs : List (Rental F))
      → count_holding gpu (
          update_rows
            (λ r. text_eq r.id id && (text_eq r.user_id user && is_pending r.status))
            (λ r. record r { status = RentalStatus.running; start_time = some now; is_paid = true })
            rs)
        ≡ count_holding gpu rs
  unfolding count_holding holds
  start-count gpu now id user [] = refl
  start-count gpu now id user (r ∷ rs) = ground (arith, start-count gpu now id user rs)

  pub info-count :
      (gpu id : String) (rs : List (Rental F))
      → count_holding gpu
          (update_rows (λ r. text_eq r.id id) (λ r. record r { has_connection_info = true }) rs)
        ≡ count_holding gpu rs
  unfolding count_holding holds
  info-count gpu id [] = refl
  info-count gpu id (r ∷ rs) = ground (arith, info-count gpu id rs)

  module _ (now : ℕ) (duration cost : F) where
    unfoldable pub done : String → List (Rental F) → List (Rental F)
    done id rs =
        update_rows (λ r. text_eq r.id id)
          (λ r. record r {
            status = RentalStatus.completed;
            end_time = some now;
            duration_hours = some duration;
            total_cost = some cost;
          })
          rs

    pub done-count :
        (gpu id : String) (rs : List (Rental F))
        → count_holding gpu (done id rs) ≤ count_holding gpu rs
    unfolding count_holding holds done
    done-count gpu id [] = omega arith
    done-count gpu id (r ∷ rs) = ground (arith, done-count gpu id rs)

    done-first :
        (id user : String) (x : Rental F) (xs : List (Rental F))
        → (text_eq x.id id && (text_eq x.user_id user && is_running x.status)) ≡ true
        → count_holding x.gpu_instance_id (done id (x ∷ xs)) + 1
          ≤ count_holding x.gpu_instance_id (x ∷ xs)
    unfolding count_holding holds done
    done-first id user x xs e =
        ground
          (arith, e, done-count x.gpu_instance_id id xs, eq_iff x.gpu_instance_id x.gpu_instance_id)

    done-more :
        (gpu id : String) (x : Rental F) (xs : List (Rental F))
        → count_holding gpu (done id xs) + 1 ≤ count_holding gpu xs
        → count_holding gpu (done id (x ∷ xs)) + 1 ≤ count_holding gpu (x ∷ xs)
    unfolding count_holding holds done
    done-more gpu id x xs h = ground (arith, h)

    -- The GPU of the rental that is completed has one rental less at least.
    pub done-frees :
        (id user : String) (rs : List (Rental F)) (r : Rental F)
        → find_first (λ x. text_eq x.id id && (text_eq x.user_id user && is_running x.status)) rs
          ≡ some r
        → count_holding r.gpu_instance_id (done id rs) + 1 ≤ count_holding r.gpu_instance_id rs
    unfolding count_holding holds done
    done-frees id user [] r h = ground (arith, h)
    done-frees id user (x ∷ xs) r h =
        let test : Rental F → Bool =
          λ y. text_eq y.id id && (text_eq y.user_id user && is_running y.status) in
        elim (find_first-cases test x r xs h) [
          | inl (e, same) ↦
              subst
                (λ y.
                  count_holding y.gpu_instance_id (done id (x ∷ xs)) + 1
                  ≤ count_holding y.gpu_instance_id (x ∷ xs))
                same (done-first id user x xs e)
          | inr (e, k) ↦ done-more r.gpu_instance_id id x xs (done-frees id user xs r k)
        ]
