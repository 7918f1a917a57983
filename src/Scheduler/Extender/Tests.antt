-- ===== src/Scheduler/Extender/Tests.antt =====
-- Three nodes at the extender; a fraction is in thousandths.
use dantegpu_core.Prelude.{
  ℕ, ℤ, pos, String, List, [], ◌∷◌, none, some, true, if◌then◌else◌, ltb, text_eq, is_some, filter,
  map, ◌≡◌, ◌↔◌, refl,
}
use dantegpu_core.Scheduler.Extender.{
  Fractions, Container, Node, GpuRequest, get_label, filter_nodes_by_gpu, node_has_available_gpu,
  filter_pod, calculate_node_priority,
}
use dantegpu_core.Scheduler.Extender.Filtering.{Fits, is_refused, filter_nodes-Sorts}

instance abbrev thousandths : Fractions ℕ
thousandths = record {
  parse_float = λ t. if text_eq t "0.5" then some 500 else none;
  one = 1000;
  below_one = λ x. ltb x 1000;
}

abbrev node : String → String → ℤ → Node
node name model gpus = record {
  name = name;
  labels = ("dante.ai/gpu-model", model) ∷ [];
  allocatable_gpu = some gpus;
}

abbrev nodes : List Node
nodes = node "small" "T4" (pos 1) ∷ node "big" "H100" (pos 4) ∷ node "old" "K80" (pos 8) ∷ []

abbrev request : GpuRequest ℕ
request = record { count = pos 2; memory = pos 16000; fraction = 1000 }

filter_nodes-Sorts_example :
    ((filter_nodes_by_gpu (some nodes) request).0
      ≡ filter (λ n. node_has_available_gpu request n) nodes)
    × ((is_some (get_label "old" (filter_nodes_by_gpu (some nodes) request).1)
          ≡ is_refused request "old" nodes)
        × ((n : Node) → (node_has_available_gpu request n ≡ true) ↔ Fits request n))
filter_nodes-Sorts_example = filter_nodes-Sorts request nodes "old"

only_big_fits : map (λ n. n.name) (filter_nodes_by_gpu (some nodes) request).0 ≡ "big" ∷ []
unfolding filter_nodes_by_gpu
only_big_fits = refl

abbrev container : Container
container = record { gpu = some (pos 1); gpu_memory = none; gpu_fraction = some "500m" }

-- A request that gives the names of the nodes only leaves none.
names_are_dropped :
    (filter_pod ℕ
      (record { containers = container ∷ []; nodes = none; node_names = some ("big" ∷ []) })).nodes
    ≡ some []
unfolding filter_pod
names_are_dropped = refl

scores_big : calculate_node_priority (node "big" "H100" (pos 4)) ≡ pos 140
unfolding calculate_node_priority
scores_big = refl
