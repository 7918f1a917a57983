-- ===== src/Scheduler/Details.antt =====
-- services/scheduler-orchestrator-service/internal/models/job.go: the tags of `Job`, by which encoding/json writes a job
-- to the column `job_details` and reads it back. A value stands for its JSON text; a number is not bounded here, and an
-- error names the field only.
use mathlib.Core.Option.{Option, none, some}
use dantegpu_core.Prelude.{
  ℕ, ℤ, pos, is_zero, String, append, List, [], ◌∷◌, Bool, true, false, ◌==◌, if◌then◌else◌,
  text_eq, Params, Answer, ok, err, ◌≡◌, refl, arith, eq_iff,
}
use dantegpu_core.Scheduler.Models.{Job}

-- A JSON value, by what it is the text of.
pub data Value : Type 0 where
  text : String → Value
  number : ℤ → Value
  time : ℕ → Value
  object : Params → Value
  texts : List String → Value

-- A JSON object; no two fields have one name.
abbrev pub Details : Type 0
Details = List (String × Value)

-- A field with `omitempty`.
unfoldable pub omit : Bool → String → Value → Details → Details
omit empty tag v rest = if empty then rest else (tag, v) ∷ rest

unfoldable pub is_empty : List String → Bool
is_empty [] = true
is_empty (t ∷ ts) = false

-- `json.Marshal` of a job
unfoldable pub marshal_details : Job → Details
unfolding omit is_empty
marshal_details j =
    ("job_id", text j.id)
    ∷ ("user_id", text j.user_id)
    ∷ ("type", text j.type)
    ∷ ("name", text j.name)
    ∷ ("submitted_at", time j.submitted_at)
    ∷ ("params", object j.params)
    ∷ omit (text_eq j.description "") "description" (text j.description) (
        omit (is_zero j.priority) "priority" (number j.priority) (
          omit (text_eq j.gpu_type "") "gpu_type" (text j.gpu_type) (
            omit (is_zero j.gpu_count) "gpu_count" (number j.gpu_count) (
              omit (j.min_vram_mb == 0) "min_vram_mb" (number (pos j.min_vram_mb)) (
                omit (j.min_power_w == 0) "min_power_w" (number (pos j.min_power_w))
                  (omit (is_empty j.tags) "tags" (texts j.tags) []))))))

unfoldable pub field : String → Details → Option Value
field tag [] = none
field tag (entry ∷ rest) = if text_eq entry.0 tag then some entry.1 else field tag rest

abbrev pub wrong_type : {A : Type 0} → String → Answer A
wrong_type tag = err (append "json: cannot unmarshal into Go struct field Job." tag)

-- The values of the fields; a field that is missing is left at its zero value.
abbrev pub text_of : String → Option Value → Answer String
text_of tag none = ok ""
text_of tag (some (text s)) = ok s
text_of tag (some _) = wrong_type tag

abbrev pub int_of : String → Option Value → Answer ℤ
int_of tag none = ok (pos 0)
int_of tag (some (number n)) = ok n
int_of tag (some _) = wrong_type tag

abbrev pub uint_of : String → Option Value → Answer ℕ
uint_of tag none = ok 0
uint_of tag (some (number (pos n))) = ok n
uint_of tag (some _) = wrong_type tag

abbrev pub time_of : String → Option Value → Answer ℕ
time_of tag none = ok 0
time_of tag (some (time t)) = ok t
time_of tag (some _) = wrong_type tag

abbrev pub object_of : String → Option Value → Answer Params
object_of tag none = ok []
object_of tag (some (object ps)) = ok ps
object_of tag (some _) = wrong_type tag

abbrev pub texts_of : String → Option Value → Answer (List String)
texts_of tag none = ok []
texts_of tag (some (texts ts)) = ok ts
texts_of tag (some _) = wrong_type tag

infixl 5 ◌>>=◌
abbrev ◌>>=◌ : {A B : Type 0} → Answer A → (A → Answer B) → Answer B
ok a >>= f = f a
err e >>= f = err e

-- `json.Unmarshal` into a new job
unfoldable pub unmarshal_details : Details → Answer Job
unfolding field
unmarshal_details d = do
  id ← text_of "job_id" (field "job_id" d)
  user_id ← text_of "user_id" (field "user_id" d)
  type ← text_of "type" (field "type" d)
  name ← text_of "name" (field "name" d)
  description ← text_of "description" (field "description" d)
  priority ← int_of "priority" (field "priority" d)
  submitted_at ← time_of "submitted_at" (field "submitted_at" d)
  gpu_type ← text_of "gpu_type" (field "gpu_type" d)
  gpu_count ← int_of "gpu_count" (field "gpu_count" d)
  min_vram_mb ← uint_of "min_vram_mb" (field "min_vram_mb" d)
  min_power_w ← uint_of "min_power_w" (field "min_power_w" d)
  params ← object_of "params" (field "params" d)
  tags ← texts_of "tags" (field "tags" d)
  ok (record {
    id = id;
    user_id = user_id;
    type = type;
    name = name;
    description = description;
    priority = priority;
    submitted_at = submitted_at;
    gpu_type = gpu_type;
    gpu_count = gpu_count;
    min_vram_mb = min_vram_mb;
    min_power_w = min_power_w;
    params = params;
    tags = tags;
  })

read_description :
    (j : Job) → text_of "description" (field "description" (marshal_details j)) ≡ ok j.description
unfolding marshal_details field omit is_empty
read_description j = ground (arith, eq_iff j.description "")

read_priority : (j : Job) → int_of "priority" (field "priority" (marshal_details j)) ≡ ok j.priority
unfolding marshal_details field omit is_empty
read_priority j = ground (arith)

read_gpu_type :
    (j : Job) → text_of "gpu_type" (field "gpu_type" (marshal_details j)) ≡ ok j.gpu_type
unfolding marshal_details field omit is_empty
read_gpu_type j = ground (arith, eq_iff j.gpu_type "")

read_gpu_count :
    (j : Job) → int_of "gpu_count" (field "gpu_count" (marshal_details j)) ≡ ok j.gpu_count
unfolding marshal_details field omit is_empty
read_gpu_count j = ground (arith)

read_min_vram_mb :
    (j : Job) → uint_of "min_vram_mb" (field "min_vram_mb" (marshal_details j)) ≡ ok j.min_vram_mb
unfolding marshal_details field omit is_empty
read_min_vram_mb j = ground (arith)

read_min_power_w :
    (j : Job) → uint_of "min_power_w" (field "min_power_w" (marshal_details j)) ≡ ok j.min_power_w
unfolding marshal_details field omit is_empty
read_min_power_w j = ground (arith)

read_tags : (j : Job) → texts_of "tags" (field "tags" (marshal_details j)) ≡ ok j.tags
unfolding marshal_details field omit is_empty
read_tags j = ground (arith)

-- A job that is written to the column is read back from it.
pub unmarshal_details-marshal_details : (j : Job) → unmarshal_details (marshal_details j) ≡ ok j
unfolding unmarshal_details field marshal_details
unmarshal_details-marshal_details j =
    rw
      (
        read_description j,
        read_priority j,
        read_gpu_type j,
        read_gpu_count j,
        read_min_vram_mb j,
        read_min_power_w j,
        read_tags j,
      )
      refl
