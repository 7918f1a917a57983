-- ===== src/Scheduler/Extender.antt =====
-- services/scheduler-orchestrator-service/internal/k8s/scheduler_extender.go: the filter and the scores of the extender. Of a
-- pod and a node only what is read is kept; the value of a Quantity is a signed 64-bit integer. How a fraction is
-- parsed and compared is a parameter.
use dantegpu_core.Prelude.{
  ℕ, suc, ◌+◌, ◌-◌, ◌*◌, ◌/◌, ◌%◌, ◌^◌, ℤ, pos, negsuc, ltb_ℤ, ◌+ℤ◌, int64, String, List, [], ◌∷◌,
  ◌++◌, Option, none, some, Bool, true, false, not, if◌then◌else◌, text_eq, codes, contains, Answer,
  ok, err,
}
pub mod Filtering
pub mod Tests

-- `strconv.ParseFloat`, and `f < 1.0`
pub record Fractions (F : Type 0) : Type 0 where
  pub parse_float : String → Option F
  pub one : F
  pub below_one : F → Bool

-- The requests of a container under the keys of the device plugin.
pub record Container : Type 0 where
  pub gpu : Option ℤ
  pub gpu_memory : Option ℤ
  pub gpu_fraction : Option String

pub record Node : Type 0 where
  pub name : String
  pub labels : List (String × String)
  pub allocatable_gpu : Option ℤ

pub record GpuRequest (F : Type 0) : Type 0 where
  pub count : ℤ
  -- VRAM in MB
  pub memory : ℤ
  pub fraction : F

-- `ExtenderArgs`: the containers of the pod, and the nodes or their names.
pub record ExtenderArgs : Type 0 where
  pub containers : List Container
  pub nodes : Option (List Node)
  pub node_names : Option (List String)

pub record ExtenderFilterResult : Type 0 where
  pub nodes : Option (List Node)
  pub node_names : Option (List String)
  pub failed_nodes : List (String × String)

-- Go's division of an int64 by 1024 * 1024
unfoldable pub in_megabytes : ℤ → ℤ
in_megabytes (pos n) = pos (n / 1048576)
in_megabytes (negsuc n) =
    if ltb_ℤ (pos 1048575) (pos (suc n)) then negsuc (suc n / 1048576 - 1) else pos 0

-- `Labels[key]`, and a string map in general
unfoldable pub get_label : String → List (String × String) → Option String
get_label key [] = none
get_label key (entry ∷ rest) = if text_eq entry.0 key then some entry.1 else get_label key rest

unfoldable pub put_label : String → String → List (String × String) → List (String × String)
put_label key value [] = (key, value) ∷ []
put_label key value (entry ∷ rest) =
    if text_eq entry.0 key then (entry.0, value) ∷ rest else entry ∷ put_label key value rest

-- `getAvailableGPUCount`
unfoldable pub get_available_gpu_count : Node → ℤ
get_available_gpu_count n = elim n.allocatable_gpu [ none ↦ pos 0 | some value ↦ value ]

abbrev pub gpu_memory_map : List (String × ℕ)
gpu_memory_map =
    ("RTX4090", 24576)
    ∷ ("RTX4080", 16384)
    ∷ ("RTX3090", 24576)
    ∷ ("RTX3080", 10240)
    ∷ ("A100", 40960)
    ∷ ("H100", 80896)
    ∷ ("V100", 16384)
    ∷ ("T4", 15360)
    ∷ ("M4-Max", 36864)
    ∷ []

unfoldable pub memory_in : List (String × ℕ) → String → ℤ
memory_in [] model = pos 8192
memory_in (entry ∷ rest) model = if text_eq entry.0 model then pos entry.1 else memory_in rest model

-- `getGPUMemory`
unfoldable pub get_gpu_memory : String → ℤ
unfolding memory_in
get_gpu_memory model = memory_in gpu_memory_map model

-- `supportsFractionalGPU`
unfoldable pub supports_fractional_gpu : Node → Bool
unfolding get_label
supports_fractional_gpu n = elim (get_label "dante.ai/fractional-gpu" n.labels) [
  | none ↦ false
  | some support ↦ text_eq support "true"
]

module _ {F : Type 0} ⦃f : Fractions F⦄ where
  unfoldable pub request_of : Container → ℤ → GpuRequest F
  unfolding in_megabytes
  request_of c count = record {
    count = count;
    memory = elim c.gpu_memory [ none ↦ pos 8192 | some bytes ↦ in_megabytes bytes ];
    fraction = elim c.gpu_fraction [
      | none ↦ f.one
      | some t ↦ elim (f.parse_float t) [ none ↦ f.one | some x ↦ x ]
    ];
  }

  -- `extractGPURequirements`: the first container that asks for GPUs.
  unfoldable pub extract_gpu_requirements : List Container → Option (GpuRequest F)
  unfolding request_of
  extract_gpu_requirements [] = none
  extract_gpu_requirements (c ∷ cs) = elim c.gpu [
    | none ↦ extract_gpu_requirements cs
    | some count ↦ some (request_of c count)
  ]

  -- `nodeHasAvailableGPU`
  unfoldable pub node_has_available_gpu : GpuRequest F → Node → Bool
  unfolding get_label get_available_gpu_count get_gpu_memory supports_fractional_gpu
  node_has_available_gpu req n = elim (get_label "dante.ai/gpu-model" n.labels) [
    | none ↦ false
    | some model ↦
        if ltb_ℤ (get_available_gpu_count n) req.count
        then false
        else if ltb_ℤ (get_gpu_memory model) req.memory
        then false
        else if f.below_one req.fraction
        then (if not (supports_fractional_gpu n) then false else true)
        else true
  ]

  -- The loop of `filterNodesByGPU`, with what it has kept and what has failed.
  unfoldable pub filter_each :
      GpuRequest F
      → List Node
      → List Node
      → List (String × String)
      → List Node × List (String × String)
  unfolding node_has_available_gpu put_label
  filter_each req [] kept failed = (kept, failed)
  filter_each req (n ∷ ns) kept failed =
      let fits = node_has_available_gpu req n in
      filter_each req ns (if fits then kept ++ n ∷ [] else kept)
        (if fits then failed else put_label n.name "Insufficient GPU resources" failed)

  -- `filterNodesByGPU`
  unfoldable pub filter_nodes_by_gpu :
      Option (List Node) → GpuRequest F → List Node × List (String × String)
  unfolding filter_each
  filter_nodes_by_gpu none req = ([], [])
  filter_nodes_by_gpu (some nodes) req = filter_each req nodes [] []

module _ (F : Type 0) ⦃f : Fractions F⦄ where
  abbrev pub request_for : List Container → Option (GpuRequest F)
  request_for cs = extract_gpu_requirements cs

  -- `Filter`, of arguments that decode
  unfoldable pub filter_pod : ExtenderArgs → ExtenderFilterResult
  unfolding extract_gpu_requirements filter_nodes_by_gpu
  filter_pod args = elim (request_for args.containers) [
    | none ↦ record { nodes = args.nodes; node_names = args.node_names; failed_nodes = [] }
    | some req ↦
        let found = filter_nodes_by_gpu args.nodes req in
        record { nodes = some found.0; node_names = none; failed_nodes = found.1 }
  ]

-- The 64 bits of an integer.
abbrev pub bits : ℤ → ℕ
bits (pos n) = n % 2 ^ 64
bits (negsuc n) = 2 ^ 64 - 1 - n % 2 ^ 64

abbrev pub ten_times : ℤ → ℤ
ten_times z = int64 ((bits z * 10) % 2 ^ 64)

abbrev pub plus : ℤ → ℤ → ℤ
plus a b = int64 ((bits a + bits b) % 2 ^ 64)

unfoldable pub model_score : String → ℤ
model_score model =
    if contains (codes model) (codes "H100")
    then pos 100
    else if contains (codes model) (codes "A100")
    then pos 80
    else if contains (codes model) (codes "RTX4090")
    then pos 60
    else if contains (codes model) (codes "RTX4080")
    then pos 50
    else pos 20

-- `calculateNodePriority`
unfoldable pub calculate_node_priority : Node → ℤ
unfolding get_available_gpu_count get_label model_score supports_fractional_gpu
calculate_node_priority n =
    plus
      (plus (ten_times (get_available_gpu_count n))
        (elim (get_label "dante.ai/gpu-model" n.labels) [
          | none ↦ pos 0
          | some model ↦ model_score model
        ]))
      (if supports_fractional_gpu n then pos 20 else pos 0)

-- `Prioritize`, with what the API server answers for a name
unfoldable pub prioritize_nodes : List Node → List ℤ
unfolding calculate_node_priority
prioritize_nodes [] = []
prioritize_nodes (n ∷ ns) = calculate_node_priority n ∷ prioritize_nodes ns

unfoldable pub prioritize_names : (String → Answer Node) → List String → List ℤ
unfolding calculate_node_priority
prioritize_names get [] = []
prioritize_names get (name ∷ names) =
    (elim (get name) [ ok n ↦ calculate_node_priority n | err e ↦ pos 0 ])
    ∷ prioritize_names get names

unfoldable pub prioritize : (String → Answer Node) → ExtenderArgs → List ℤ
unfolding prioritize_nodes prioritize_names
prioritize get args = elim args.nodes [
  | some nodes ↦ prioritize_nodes nodes
  | none ↦ elim args.node_names [ none ↦ [] | some names ↦ prioritize_names get names ]
]
