-- ===== src/Gateway/Balancer.antt =====
-- services/api-gateway/internal/loadbalancer/balancer.go. The entries are what Consul answers; what `url.Parse` makes of
-- the text of a URL is an argument.
use dantegpu_core.Prelude.{
  ℕ, ◌+◌, ◌%◌, ◌^◌, ℤ, String, append, List, [], ◌∷◌, Option, none, some, Bool, false, ◌||◌,
  if◌then◌else◌, text_eq, ◌==◌, length, get_elem?, Answer, ok, err, Unicode, to_lower, codes,
  codes_eq,
}

-- What is read of a `consulapi.ServiceEntry`.
pub record ServiceEntry : Type 0 where
  pub service_address : String
  pub node_address : String
  pub port : ℤ
  pub meta : List (String × String)
  pub tags : List String

pub record Target : Type 0 where
  pub scheme : String
  pub address : String
  pub port : ℤ

unfoldable pub get_meta : String → List (String × String) → Option String
get_meta key [] = none
get_meta key (entry ∷ rest) = if text_eq entry.0 key then some entry.1 else get_meta key rest

module _ ⦃u : Unicode⦄ where
  -- The loop over the tags.
  unfoldable pub has_https_tag : List String → Bool
  has_https_tag [] = false
  has_https_tag (tag ∷ rest) = codes_eq (to_lower tag) (codes "https") || has_https_tag rest

  unfoldable pub scheme_of : ServiceEntry → String
  unfolding get_meta has_https_tag
  scheme_of e = elim (get_meta "protocol" e.meta) [
    | some protocol ↦ if codes_eq (to_lower protocol) (codes "https") then "https" else "http"
    | none ↦ if has_https_tag e.tags then "https" else "http"
  ]

  unfoldable pub target_of : ServiceEntry → Target
  unfolding scheme_of
  target_of e = record {
    scheme = scheme_of e;
    address = if text_eq e.service_address "" then e.node_address else e.service_address;
    port = e.port;
  }

  -- `Next`: the new value of `current` and the answer.
  unfoldable pub next : (Target → Option String) → List ServiceEntry → ℕ → ℕ × Answer Target
  unfolding target_of
  next parse services current =
      let idx = (current + 1) % 2 ^ 64 in
      if length services == 0
      then (current, err "no available services for load balancing")
      else elim (get_elem? services (idx % length services)) [
        | none ↦ (idx, err "index out of range")
        | some selected ↦ elim (parse (target_of selected)) [
          | some e ↦ (idx, err (append "failed to parse target URL: " e))
          | none ↦ (idx, ok (target_of selected))
        ]
      ]
