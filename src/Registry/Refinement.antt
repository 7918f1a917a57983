-- ===== src/Registry/Refinement.antt =====
-- services/provider-registry-service/internal/store/memory.go against a partial map from UUIDs to providers.
use dantegpu_core.Prelude.{
  ℕ, String, List, [], ◌∷◌, Option, none, some, ◌≡◌, ◌≢◌, refl, ◌∙◌, inl, inr, arith, text_eq,
  eq_iff, Bool-cases, Option-cases,
}
use dantegpu_core.Registry.Models.{
  ProviderStatus, GpuDetail, Provider, StoreError, update_status, provider_not_found,
  provider_already_exists,
}
use dantegpu_core.Registry.Store.{
  Providers, lookup, assign, remove, Stored, stored, refused, add_provider, update_provider,
  delete_provider, update_provider_status, update_provider_heartbeat, beat,
}

-- The abstract view: a partial map.
abbrev pub View : Type 0
View = String → Option Provider

-- The requests that change the store.
pub data Request : Type 0 where
  add : Provider → Request
  update : String → Provider → Request
  delete : String → Request
  set_status : ℕ → String → ProviderStatus → Request
  report : ℕ → String → List GpuDetail → Request

unfoldable pub run : Request → Providers → Stored
unfolding add_provider update_provider delete_provider update_provider_status
    update_provider_heartbeat
run (Request.add p) s = add_provider p s
run (Request.update id p) s = update_provider id p s
run (Request.delete id) s = delete_provider id s
run (Request.set_status now id status) s = update_provider_status now id status s
run (Request.report now id metrics) s = update_provider_heartbeat now id metrics s

-- The key that a request is about.
unfoldable pub key : Request → String
key (Request.add p) = p.id
key (Request.update id p) = id
key (Request.delete id) = id
key (Request.set_status now id status) = id
key (Request.report now id metrics) = id

-- What a request makes of the provider under its key; an error where it is refused.
pub data Outcome : Type 0 where
  becomes : Option Provider → Outcome
  fails : StoreError → Outcome

unfoldable pub specified : Request → Option Provider → Outcome
specified (Request.add p) none = becomes (some p)
specified (Request.add p) (some old) = fails provider_already_exists
specified (Request.update id p) (some old) = becomes (some (record p { id = id }))
specified (Request.delete id) (some old) = becomes none
specified (Request.set_status now id status) (some old) =
    becomes (some (update_status now status old))
specified (Request.report now id metrics) (some old) = becomes (some (beat now metrics old))
specified request none = fails provider_not_found

-- A store after a request is what the specification says: under the key, and elsewhere.
unfoldable pub Refines : Request → Providers → Stored → Outcome → Type 0
Refines request s (stored s') (becomes o) =
    (lookup (key request) s' ≡ o) × ((id : String) → id ≢ key request → lookup id s' ≡ lookup id s)
Refines request s (refused e) (fails e') = e ≡ e'
Refines request s _ _ = ⊥

-- No two entries have one key.
unfoldable pub IsMap : Providers → Type 0
IsMap [] = Unit
IsMap (entry ∷ rest) = (lookup entry.0 rest ≡ none) × IsMap rest

lookup-assign : (id : String) (p : Provider) (s : Providers) → lookup id (assign id p s) ≡ some p
unfolding lookup assign
lookup-assign id p [] = ground (arith, eq_iff id id)
lookup-assign id p (entry ∷ rest) = elim (Bool-cases (text_eq entry.0 id)) [
  | inl e ↦ rw (e, e) refl
  | inr e ↦ rw (e, e) (lookup-assign id p rest)
]

lookup-assign_other :
    (id other : String) (p : Provider) (s : Providers)
    → other ≢ id
    → lookup other (assign id p s) ≡ lookup other s
unfolding lookup assign
lookup-assign_other id other p [] n = ground (arith, eq_iff id other)
lookup-assign_other id other p (entry ∷ rest) n =
    ground (arith, eq_iff entry.0 id, eq_iff entry.0 other, lookup-assign_other id other p rest n)

lookup-remove : (id : String) (s : Providers) → IsMap s → lookup id (remove id s) ≡ none
unfolding lookup remove IsMap
lookup-remove id [] m = refl
lookup-remove id (entry ∷ rest) m =
    ground (arith, eq_iff entry.0 id, lookup-remove id rest m.1, m.0)

lookup-remove_other :
    (id other : String) (s : Providers) → other ≢ id → lookup other (remove id s) ≡ lookup other s
unfolding lookup remove
lookup-remove_other id other [] n = refl
lookup-remove_other id other (entry ∷ rest) n =
    ground (arith, eq_iff entry.0 id, eq_iff entry.0 other, lookup-remove_other id other rest n)

assign-IsMap : (id : String) (p : Provider) (s : Providers) → IsMap s → IsMap (assign id p s)
unfolding IsMap lookup assign
assign-IsMap id p [] m = (refl, tt)
assign-IsMap id p (entry ∷ rest) m = elim (Bool-cases (text_eq entry.0 id)) [
  | inl e ↦ rw e m
  | inr e ↦ rw e (
    lookup-assign_other id entry.0 p rest (λ q. ground (arith, eq_iff entry.0 id, e, q)) ∙ m.0,
    assign-IsMap id p rest m.1,
  )
]

remove-IsMap : (id : String) (s : Providers) → IsMap s → IsMap (remove id s)
unfolding IsMap lookup remove
remove-IsMap id [] m = m
remove-IsMap id (entry ∷ rest) m = elim (Bool-cases (text_eq entry.0 id)) [
  | inl e ↦ rw e m.1
  | inr e ↦ rw e (
    lookup-remove_other id entry.0 rest (λ q. ground (arith, eq_iff entry.0 id, e, q)) ∙ m.0,
    remove-IsMap id rest m.1,
  )
]

assigned-Refines :
    (request : Request) (p : Provider) (s : Providers)
    → Refines request s (stored (assign (key request) p s)) (becomes (some p))
unfolding Refines
assigned-Refines request p s =
    (lookup-assign (key request) p s, λ id n. lookup-assign_other (key request) id p s n)

-- Each operation of the store changes the provider under its key as the specification says, leaves what
-- every other key has, and is refused with the specified error; the store has one entry for a key.
pub run-Refines :
    (request : Request) (s : Providers)
    → IsMap s
    → Refines request s (run request s) (specified request (lookup (key request) s))
unfolding run specified key add_provider update_provider delete_provider update_provider_status
    update_provider_heartbeat Refines
run-Refines (Request.add p) s m = elim (Option-cases (lookup p.id s)) [
  | inl e ↦ rw e (assigned-Refines (Request.add p) p s)
  | inr (old, e) ↦ rw e refl
]
run-Refines (Request.update id p) s m = elim (Option-cases (lookup id s)) [
  | inl e ↦ rw e refl
  | inr (old, e) ↦ rw e (assigned-Refines (Request.update id p) (record p { id = id }) s)
]
run-Refines (Request.delete id) s m = elim (Option-cases (lookup id s)) [
  | inl e ↦ rw e refl
  | inr (old, e) ↦ rw e (lookup-remove id s m, λ other n. lookup-remove_other id other s n)
]
run-Refines (Request.set_status now id status) s m = elim (Option-cases (lookup id s)) [
  | inl e ↦ rw (update_provider_status, e) refl
  | inr (old, e) ↦
      rw (update_provider_status, e)
        (assigned-Refines (Request.set_status now id status) (update_status now status old) s)
]
run-Refines (Request.report now id metrics) s m = elim (Option-cases (lookup id s)) [
  | inl e ↦ rw (update_provider_heartbeat, e) refl
  | inr (old, e) ↦
      rw (update_provider_heartbeat, e)
        (assigned-Refines (Request.report now id metrics) (beat now metrics old) s)
]

-- No operation of the store gives a key a second entry.
pub run-IsMap :
    (request : Request) (s s' : Providers) → IsMap s → run request s ≡ stored s' → IsMap s'
unfolding run add_provider update_provider delete_provider update_provider_status
    update_provider_heartbeat
run-IsMap (Request.add p) s s' m e = ground (arith, assign-IsMap p.id p s m)
run-IsMap (Request.update id p) s s' m e =
    ground (arith, assign-IsMap id (record p { id = id }) s m)
run-IsMap (Request.delete id) s s' m e = ground (arith, remove-IsMap id s m)
run-IsMap (Request.set_status now id status) s s' m e = elim (Option-cases (lookup id s)) [
  | inl n ↦ ground (arith, e, n)
  | inr (old, n) ↦ ground (arith, e, n, assign-IsMap id (update_status now status old) s m)
]
run-IsMap (Request.report now id metrics) s s' m e = elim (Option-cases (lookup id s)) [
  | inl n ↦ ground (arith, e, n)
  | inr (old, n) ↦ ground (arith, e, n, assign-IsMap id (beat now metrics old) s m)
]
