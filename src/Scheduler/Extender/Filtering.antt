-- ===== src/Scheduler/Extender/Filtering.antt =====
-- Which nodes the extender keeps for a pod.
use dantegpu_core.Prelude.{
  ℤ, ltb_ℤ, ◌≤ℤ◌, String, List, [], ◌∷◌, ◌++◌, none, some, Bool, true, false, not, if◌then◌else◌,
  is_some, ◌&&◌, ◌||◌, filter, text_eq, eq_iff, Bool-cases, Option-cases, ◌≡◌, ◌↔◌, ◌⊎◌, refl, sym,
  ◌∙◌, inl, inr, arith,
}
use mathlib.Core.List.{append_assoc, append-nil}
use dantegpu_core.Scheduler.Extender.{
  Fractions, Node, GpuRequest, get_label, put_label, get_available_gpu_count, get_gpu_memory,
  supports_fractional_gpu, node_has_available_gpu, filter_each, filter_nodes_by_gpu,
}

tests : ℤ → ℤ → ℤ → ℤ → Bool → Bool → Bool
tests available count memory need below shares =
    if ltb_ℤ available count
    then false
    else if ltb_ℤ memory need
    then false
    else if below
    then (if not shares then false else true)
    else true

of_tests :
    (available count memory need : ℤ) (below shares : Bool)
    → tests available count memory need below shares ≡ true
    → (count ≤ℤ available) × ((need ≤ℤ memory) × ((below ≡ false) ⊎ (shares ≡ true)))
unfolding tests
of_tests available count memory need below shares h = ground (arith, h)

to_tests :
    (available count memory need : ℤ) (below shares : Bool)
    → count ≤ℤ available
    → need ≤ℤ memory
    → (below ≡ false) ⊎ (shares ≡ true)
    → tests available count memory need below shares ≡ true
unfolding tests
to_tests available count memory need below shares c m (inl s) = ground (arith, c, m, s)
to_tests available count memory need below shares c m (inr s) = ground (arith, c, m, s)

labels_put :
    (name key value : String) (labels : List (String × String))
    → is_some (get_label name (put_label key value labels))
      ≡ (text_eq key name || is_some (get_label name labels))
unfolding get_label put_label
labels_put name key value [] = ground arith
labels_put name key value (entry ∷ rest) = ground (
  arith,
  labels_put name key value rest,
  eq_iff entry.0 key,
  eq_iff entry.0 name,
  eq_iff key name,
)

module _ {F : Type 0} ⦃f : Fractions F⦄ where
  -- A node with a GPU model, enough GPUs and memory, that shares its GPUs where a share is asked for.
  unfoldable pub Fits : GpuRequest F → Node → Type 0
  Fits req n =
      (model : String) × ((get_label "dante.ai/gpu-model" n.labels ≡ some model)
        × ((req.count ≤ℤ get_available_gpu_count n)
            × ((req.memory ≤ℤ get_gpu_memory model)
                × ((f.below_one req.fraction ≡ false) ⊎ (supports_fractional_gpu n ≡ true)))))

  has_tests :
      (req : GpuRequest F) (n : Node) (model : String)
      → get_label "dante.ai/gpu-model" n.labels ≡ some model
      → node_has_available_gpu req n
        ≡ tests
            (get_available_gpu_count n)
            req.count
            (get_gpu_memory model)
            req.memory
            (f.below_one req.fraction)
            (supports_fractional_gpu n)
  unfolding node_has_available_gpu tests
  has_tests req n model e = rw (node_has_available_gpu, e) refl

  no_model :
      (req : GpuRequest F) (n : Node)
      → get_label "dante.ai/gpu-model" n.labels ≡ none
      → node_has_available_gpu req n ≡ false
  unfolding node_has_available_gpu tests
  no_model req n e = rw (node_has_available_gpu, e) refl

  has-Fits : (req : GpuRequest F) (n : Node) → node_has_available_gpu req n ≡ true → Fits req n
  unfolding Fits
  has-Fits req n h = elim (Option-cases (get_label "dante.ai/gpu-model" n.labels)) [
    | inl e ↦ ground (arith, h, no_model req n e)
    | inr (model, e) ↦ (
      model,
      (
        e,
        of_tests (get_available_gpu_count n) req.count (get_gpu_memory model) req.memory
            (f.below_one req.fraction) (supports_fractional_gpu n)
            (sym (has_tests req n model e) ∙ h),
      ),
    )
  ]

  Fits-has : (req : GpuRequest F) (n : Node) → Fits req n → node_has_available_gpu req n ≡ true
  unfolding Fits
  Fits-has req n (model, (e, (c, (m, s)))) =
      has_tests req n model e
      ∙ to_tests (get_available_gpu_count n) req.count (get_gpu_memory model) req.memory
          (f.below_one req.fraction) (supports_fractional_gpu n) c m s

  -- A node of the name does not fit.
  unfoldable pub is_refused : GpuRequest F → String → List Node → Bool
  is_refused req name [] = false
  is_refused req name (n ∷ ns) =
      (text_eq n.name name && not (node_has_available_gpu req n)) || is_refused req name ns

  filter_each-kept :
      (req : GpuRequest F) (ns kept : List Node) (failed : List (String × String))
      → (filter_each req ns kept failed).0 ≡ kept ++ filter (λ n. node_has_available_gpu req n) ns
  unfolding filter_each
  filter_each-kept req [] kept failed = sym (append-nil kept)
  filter_each-kept req (n ∷ ns) kept failed = elim (Bool-cases (node_has_available_gpu req n)) [
    | inl e ↦
        rw (filter_each, e)
          (filter_each-kept req ns (kept ++ n ∷ []) failed
            ∙ append_assoc kept (n ∷ []) (filter (λ x. node_has_available_gpu req x) ns))
    | inr e ↦
        rw (filter_each, e)
          (filter_each-kept req ns kept (put_label n.name "Insufficient GPU resources" failed))
  ]

  filter_each-failed :
      (req : GpuRequest F) (name : String) (ns kept : List Node) (failed : List (String × String))
      → is_some (get_label name (filter_each req ns kept failed).1)
        ≡ (is_some (get_label name failed) || is_refused req name ns)
  unfolding filter_each is_refused
  filter_each-failed req name [] kept failed = ground arith
  filter_each-failed req name (n ∷ ns) kept failed =
      elim (Bool-cases (node_has_available_gpu req n)) [
        | inl e ↦
            rw (filter_each, e)
              (filter_each-failed req name ns (kept ++ n ∷ []) failed ∙ ground arith)
        | inr e ↦
            rw (filter_each, e)
              (filter_each-failed req name ns kept
                  (put_label n.name "Insufficient GPU resources" failed)
                ∙ ground (arith, labels_put name n.name "Insufficient GPU resources" failed))
      ]

  -- The filter keeps, in their order, exactly the nodes with a GPU model, enough GPUs and memory, that share their GPUs
  -- where a share is asked for; and a name is among the failed ones exactly if a node of that name does not fit.
  pub filter_nodes-Sorts :
      (req : GpuRequest F) (nodes : List Node) (name : String)
      → ((filter_nodes_by_gpu (some nodes) req).0
          ≡ filter (λ n. node_has_available_gpu req n) nodes)
        × ((is_some (get_label name (filter_nodes_by_gpu (some nodes) req).1)
              ≡ is_refused req name nodes)
            × ((n : Node) → (node_has_available_gpu req n ≡ true) ↔ Fits req n))
  unfolding filter_nodes_by_gpu get_label
  filter_nodes-Sorts req nodes name = (
    filter_each-kept req nodes [] [],
    (filter_each-failed req name nodes [] [], (λ n. (has-Fits req n, Fits-has req n))),
  )
