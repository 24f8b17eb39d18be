-- ===== src/Oci/Mapper.antt =====
-- oci/mapper.go: normalizeOCIService and containsAny.
use torvix.Prelude.{if◌then◌else◌, String, Bool, false, ◌||◌, List, [], ◌∷◌, ◌==◌}
use torvix.Prelude.Text.{to_lower, trim_space, join}
use torvix.Prelude.Words.{str_contains}

-- containsAny
unfoldable pub contains_any : String → List String → Bool
unfolding str_contains
contains_any s [] = false
contains_any s (needle ∷ needles) = str_contains s needle || contains_any s needles

-- The cases of the switch, in order.
abbrev pub categories : List (List String × String)
categories =
    ("oke" ∷ "kubernetes" ∷ "container engine" ∷ [], "Kubernetes")
    ∷ ("load balancer" ∷ "loadbalancer" ∷ "network load balancer" ∷ [], "Load Balancer")
    ∷ ("database" ∷ "autonomous" ∷ "mysql" ∷ "heatwave" ∷ "exadata" ∷ [], "Database")
    ∷ (
      "object storage" ∷ "block volume" ∷ "boot volume" ∷ "file storage" ∷ "archive storage"
          ∷ "storage gateway" ∷ [],
      "Storage",
    )
    ∷ (
      "vcn" ∷ "network" ∷ "bandwidth" ∷ "fastconnect" ∷ "nat gateway" ∷ "public ip" ∷ "private ip"
          ∷ "dns" ∷ "traffic" ∷ [],
      "Networking",
    )
    ∷ ("compute" ∷ "instance" ∷ "gpu" ∷ "bare metal" ∷ [], "Compute")
    ∷ (
      "monitoring" ∷ "logging" ∷ "alarm" ∷ "events" ∷ "notifications" ∷ "observability" ∷ [],
      "Monitoring",
    )
    ∷ (
      "vault" ∷ "key management" ∷ "security" ∷ "cloud guard" ∷ "waf" ∷ "bastion" ∷ "certificate"
          ∷ [],
      "Security",
    )
    ∷ []

-- The first case that matches, or the default.
unfoldable pub category_of : List (List String × String) → String → String → String
unfolding contains_any
category_of [] value default = default
category_of ((needles, category) ∷ cases) value default =
    let rest = category_of cases value default in
    if contains_any value needles then category else rest

-- normalizeOCIService
unfoldable pub normalize_oci_service : String → String → String → String
unfolding category_of to_lower join trim_space
normalize_oci_service service description sku =
    category_of categories (to_lower (join (service ∷ description ∷ sku ∷ []) " "))
      (if trim_space service == "" then "OCI Other" else trim_space service)
