-- ===== src/Registry/Histories.antt =====
-- services/provider-registry-service/internal/store/memory.go: sequences of operations on an empty store, against the
-- same sequence on a partial map.
use dantegpu_core.Prelude.{
  String, List, [], ◌∷◌, Option, none, some, if◌then◌else◌, text_eq, eq_iff, Bool-cases, ◌≡◌, refl,
  ◌∙◌, inl, inr, arith,
}
use mathlib.Core.Path.{ap, ap₂, subst}
use dantegpu_core.Registry.Models.{StoreError}
use dantegpu_core.Registry.Store.{Providers, lookup, Stored, stored, refused}
use dantegpu_core.Registry.Refinement.{
  View, Request, run, key, Outcome, becomes, fails, specified, Refines, IsMap, run-Refines,
  run-IsMap,
}

-- The store after an operation, and the error it answers.
unfoldable pub settled : Providers → Stored → Providers × Option StoreError
settled s (stored s') = (s', none)
settled s (refused e) = (s, some e)

unfoldable pub changed : Request → View → Outcome → View × Option StoreError
changed request v (becomes o) = ((λ id. if text_eq id (key request) then o else v id), none)
changed request v (fails e) = (v, some e)

-- A history of operations, with what each answers.
unfoldable pub store_history : List Request → Providers → Providers × List (Option StoreError)
unfolding run settled
store_history [] s = (s, [])
store_history (request ∷ rest) s =
    let next = settled s (run request s) in
    let later = store_history rest next.0 in (later.0, next.1 ∷ later.1)

unfoldable pub map_history : List Request → View → View × List (Option StoreError)
unfolding specified changed
map_history [] v = (v, [])
map_history (request ∷ rest) v =
    let next = changed request v (specified request (v (key request))) in
    let later = map_history rest next.0 in (later.0, next.1 ∷ later.1)

-- The store holds what the map holds.
unfoldable pub Agree : Providers → View → Type 0
Agree s v = (id : String) → lookup id s ≡ v id

settled-Agree :
    (request : Request) (s : Providers) (v : View) (r : Stored) (o : Outcome)
    → Agree s v
    → Refines request s r o
    → ((settled s r).1 ≡ (changed request v o).1) × Agree (settled s r).0 (changed request v o).0
unfolding settled changed Agree Refines
settled-Agree request s v (stored s') (becomes o) a (here, elsewhere) = (
  refl,
  (λ id. elim (Bool-cases (text_eq id (key request))) [
    | inl e ↦ rw e (ap (λ k. lookup k s') ((eq_iff id (key request)).0 e) ∙ here)
    | inr e ↦ rw e (elsewhere id (λ p. ground (arith, eq_iff id (key request), e, p)) ∙ a id)
  ]),
)
settled-Agree request s v (refused e) (fails e') a h = (ap some h, a)
settled-Agree request s v (stored s') (fails e) a h = absurd h
settled-Agree request s v (refused e) (becomes o) a h = absurd h

settled-IsMap :
    (request : Request) (s : Providers) (r : Stored)
    → run request s ≡ r
    → IsMap s
    → IsMap (settled s r).0
unfolding settled
settled-IsMap request s (stored s') e m = run-IsMap request s s' m e
settled-IsMap request s (refused x) e m = m

history-Agree :
    (requests : List Request) (s : Providers) (v : View)
    → IsMap s
    → Agree s v
    → ((store_history requests s).1 ≡ (map_history requests v).1)
      × Agree (store_history requests s).0 (map_history requests v).0
unfolding store_history map_history Agree
history-Agree [] s v m a = (refl, a)
history-Agree (request ∷ rest) s v m a =
    let refines =
      subst (λ o. Refines request s (run request s) (specified request o)) (a (key request))
        (run-Refines request s m) in
    let next =
      settled-Agree request s v (run request s) (specified request (v (key request))) a refines in
    let later =
      history-Agree rest (settled s (run request s)).0
        (changed request v (specified request (v (key request)))).0
        (settled-IsMap request s (run request s) refl m) next.1 in
    (ap₂ (λ x xs. x ∷ xs) next.0 later.0, later.1)

-- Whatever operations are done on an empty store, each answers what it answers on a partial map, and afterwards the store
-- holds under every key what the map holds.
pub store_history-Agree :
    (requests : List Request)
    → ((store_history requests []).1 ≡ (map_history requests (λ id. none)).1)
      × Agree (store_history requests []).0 (map_history requests (λ id. none)).0
unfolding IsMap Agree lookup
store_history-Agree requests = history-Agree requests [] (λ id. none) tt (λ id. refl)
