-- ===== src/Collect/Normalize.antt =====
-- normalize/service.go: a billing record as a cost record.
use torvix.Prelude.{if◌then◌else◌, String, not, List, map, ◌==◌}
use torvix.Domain.{RawBillingRecord, CanonicalCostRecord}

-- defaultCategory
abbrev pub default_category : {F : Type 0} → RawBillingRecord F → String
default_category r = if not (r.category == "") then r.category else r.service

-- One round of the loop of Normalize.
unfoldable pub canonical : {F : Type 0} → RawBillingRecord F → CanonicalCostRecord F
canonical r = record {
  timestamp = r.usage_start;
  provider = r.provider;
  account_id = r.account_id;
  service = r.service;
  category = default_category r;
  region = r.region;
  billing_scope_type = r.billing_scope_type;
  billing_scope_id = r.billing_scope_id;
  billing_scope_name = r.billing_scope_name;
  project_id = r.project_id;
  project_name = r.project_name;
  project_source = r.project_source;
  network_scope_type = r.network_scope_type;
  network_scope_id = r.network_scope_id;
  network_scope_name = r.network_scope_name;
  resource_id = r.resource_id;
  resource_type = r.resource_type;
  currency = r.currency;
  cost = r.cost;
  usage_amount = r.usage_amount;
  usage_unit = r.usage_unit;
  tags = r.tags;
  meter = r.meter;
  record_type = r.record_type;
  source_file_key = r.source_file_key;
  source_file_etag = r.source_file_etag;
  source_line_number = r.source_line_number;
  source_record_hash = r.source_record_hash;
  raw_data = r.raw_data;
  source_object = r.source_object;
}

-- Normalize
unfoldable pub normalize : {F : Type 0} → List (RawBillingRecord F) → List (CanonicalCostRecord F)
unfolding canonical
normalize raw = map (λ r. canonical r) raw
