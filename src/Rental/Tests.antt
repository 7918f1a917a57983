-- ===== src/Rental/Tests.antt =====
-- The rental service on two users and one GPU, with naturals for the floating point.
use dantegpu_core.Prelude.{ℕ, ◌-◌, ◌*◌, String, List, [], ◌∷◌, some, false, ltb, ◌≡◌, refl, arith}
use dantegpu_core.Rental.Store.{Floats, GpuStatus, Tables}
use dantegpu_core.Rental.Handlers.{
  RentalRequest, Response, Database, create_in_transaction, start_rental,
}
use dantegpu_core.Rental.Exclusive.{IsExclusive, count_holding}
use dantegpu_core.Rental.Serving.{Call, serve_all, serve_all-IsExclusive}

instance abbrev naturals : Floats ℕ
naturals = record {
  times = λ a b. a * b;
  minus = λ a b. a - b;
  below = λ a b. ltb a b;
  hours = λ start now. now - start;
}

abbrev database : String → ℕ → Database
database id now = record { now = now; fresh_id = id; fails = λ n. false }

abbrev request : RentalRequest ℕ
request = record { gpu_instance_id = "gpu"; duration_hours = 2 }

abbrev tables : Tables ℕ
tables = record {
  gpus = record { id = "gpu"; status = GpuStatus.available; price_per_hour = 3 } ∷ [];
  users = record { id = "ann"; balance = 100 } ∷ record { id = "bob"; balance = 100 } ∷ [];
  rentals = [];
}

abbrev served : List (Database × Call ℕ)
served =
    (database "r1" 1, Call.creates "ann" (some request))
    ∷ (database "r2" 2, Call.creates "bob" (some request))
    ∷ (database "r3" 3, Call.starts "ann" "r1")
    ∷ (database "r4" 9, Call.stops "ann" "r1")
    ∷ (database "r5" 10, Call.creates "bob" (some request))
    ∷ []

tables-IsExclusive : IsExclusive tables
unfolding IsExclusive count_holding
tables-IsExclusive gpu = (omega arith, (λ h. refl))

serve_all-IsExclusive_example : IsExclusive (serve_all served tables)
serve_all-IsExclusive_example = serve_all-IsExclusive served tables tables-IsExclusive

-- Two requests that have both passed the checks before either transaction: both hold the GPU.
abbrev raced : Tables ℕ
raced =
    (create_in_transaction (database "r2" 2) "bob" request 3
      (create_in_transaction (database "r1" 1) "ann" request 3 tables).0).0

both_hold : count_holding "gpu" raced.rentals ≡ 2
unfolding count_holding create_in_transaction
both_hold = refl

-- A rental of another user that is over is answered as started.
starts_any :
    (start_rental (database "r6" 11) "bob" "r1" (serve_all (served) tables)).1 ≡ Response.started
unfolding start_rental
starts_any = refl
