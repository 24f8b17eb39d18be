-- ===== src/Oci/Parser.antt =====
-- oci/parser.go: what is read off a header and a row of a report. `parse_time layout` is time.Parse and
-- `parse_float` is strconv.ParseFloat; an error is `none`.
pub mod Filled
use torvix.Prelude.{
  ◌++◌, ltb, leb, ◌=ℕ◌, if◌then◌else◌, ltb→lt, lt→ltb, leb→le, le→leb, tests, Bool-cases,
  Option-cases, length, take, drop, keep, any, All, length-append, length-take, length-drop,
  length-keep, length-map, All-append, All-map, ℕ, zero, suc, ◌+◌, ◌-◌, ◌*◌, ◌/◌, ◌%◌, ◌^◌, ◌≤◌,
  ◌<◌, min, String, ◌≡◌, refl, sym, ap, subst, ◌∙◌, ◌≢◌, ◌↔◌, ◌⊎◌, inl, inr, Bool, true, false, not,
  ◌&&◌, ◌||◌, Option, none, some, List, [], ◌∷◌, map, arith, ◌==◌, eq_iff, eq_refl,
}
use torvix.Prelude.Text.{
  to_lower, to_upper, upper_first, is_blank, trim_left, trim_right, trim_space, join, decimal_fuel,
  itoa,
}
use torvix.Prelude.Clock.{
  Time, second, hour, day, zero_time, is_zero, before, after, add_days, truncate_day, Location, utc,
  weekday, unix_epoch,
}
use torvix.Prelude.{get_elem?}
use mathlib.Core.Option
use torvix.Prelude.Int.{ℤ, pos}
use torvix.Prelude.Words.{remove, has_prefix}
use torvix.Prelude.Float64.{Float64}
use torvix.Domain.{RawBillingRecord, Tags, RawValue, provider_oci, text}
use torvix.Oci.Mapper.{normalize_oci_service}

-- normalizeHeader
unfoldable pub normalize_header : String → String
unfolding trim_space to_lower remove
normalize_header s = remove "_" (remove " " (trim_space (to_lower s)))

-- A header's normalized columns with their places, each column at its last place.
abbrev pub Index : Type 0
Index = List (String × ℕ)

abbrev pub set_place : String → ℕ → Index → Index
set_place k i [] = (k, i) ∷ []
set_place k i ((j, p) ∷ rest) =
    let more = set_place k i rest in if j == k then (k, i) ∷ rest else (j, p) ∷ more

abbrev pub add_columns : List String → ℕ → Index → Index
unfolding normalize_header
add_columns [] i index = index
add_columns (column ∷ columns) i index =
    add_columns columns (suc i) (set_place (normalize_header column) i index)

-- buildHeaderIndex
unfoldable pub build_header_index : List String → Index
unfolding add_columns
build_header_index header = add_columns header 0 []

abbrev pub place_of : String → Index → Option ℕ
place_of k [] = none
place_of k ((j, i) ∷ rest) = if j == k then some i else place_of k rest

-- The trimmed value at a place of the row; `none` past its end.
abbrev pub value_at : List String → Option ℕ → Option String
unfolding trim_space
value_at row none = none
value_at row (some i) = elim (get_elem? row i) [ none ↦ none | some v ↦ some (trim_space v) ]

abbrev pub first_value : Option String → String → String
first_value none rest = rest
first_value (some v) rest = v

-- lookup
unfoldable pub lookup : Index → List String → List String → String
unfolding value_at normalize_header
lookup index row [] = ""
lookup index row (key ∷ keys) =
    first_value (value_at row (place_of (normalize_header key) index)) (lookup index row keys)

-- defaultString
unfoldable pub default_string : String → String → String
unfolding trim_space
default_string v fallback = if trim_space v == "" then fallback else v

-- The texts of the base that are not blank.
abbrev pub filled_tags : Tags → Tags
unfolding trim_space
filled_tags [] = []
filled_tags ((k, v) ∷ tags) =
    let rest = filled_tags tags in if trim_space v == "" then rest else (k, v) ∷ rest

abbrev pub with_tag : String → Option String → Tags → Tags
with_tag k none tags = tags
with_tag k (some v) tags = if v == "" then tags else (k, v) ∷ tags

abbrev pub is_tag_column : String → Bool
unfolding has_prefix
is_tag_column key = has_prefix key "tags/" || has_prefix key "tag/"

-- The tags of the columns that are named as tags.
abbrev pub column_tags : Index → List String → Tags
unfolding is_tag_column value_at
column_tags [] row = []
column_tags ((key, i) ∷ index) row =
    let rest = column_tags index row in
    if is_tag_column key then with_tag key (value_at row (some i)) rest else rest

-- extractTags; a column of a tag has no name of the base
unfoldable pub extract_tags : Index → List String → Tags → Tags
unfolding filled_tags column_tags
extract_tags index row base = filled_tags base ++ column_tags index row

abbrev pub layouts : List String
layouts =
    "2006-01-02T15:04:05Z07:00" ∷ "2006-01-02T15:04Z" ∷ "2006-01-02T15:04Z07:00"
    ∷ "2006-01-02T15:04:05.000Z" ∷ "2006-01-02 15:04:05" ∷ "2006-01-02" ∷ []

abbrev pub service_keys : List String
service_keys = "product/service" ∷ "service" ∷ "product/servicename" ∷ []

abbrev pub description_keys : List String
description_keys = "product/description" ∷ "description" ∷ []

abbrev pub sku_keys : List String
sku_keys = "cost/productsku" ∷ "cost/skuunitdescription" ∷ "product/sku" ∷ []

abbrev pub currency_keys : List String
currency_keys = "cost/currencycode" ∷ "currencycode" ∷ "currency" ∷ []

abbrev pub start_keys : List String
start_keys =
    "lineitem/intervalusagestart" ∷ "lineitem/usagestart" ∷ "usagestarttime" ∷ "usage/intervalstart"
    ∷ []

abbrev pub end_keys : List String
end_keys =
    "lineitem/intervalusageend" ∷ "lineitem/usageend" ∷ "usageendtime" ∷ "usage/intervalend" ∷ []

abbrev cost_keys : List String
cost_keys = "cost/mycost" ∷ "cost/attributedcost" ∷ "cost" ∷ "lineitem/cost" ∷ []

abbrev usage_keys : List String
usage_keys =
    "usage/billedquantity" ∷ "usage/consumedquantity" ∷ "usage/attributedusage" ∷ "usage/quantity"
    ∷ "quantity" ∷ []

abbrev pub base_tags : (List String → String) → String → String → Tags
base_tags look service description =
    ("oci_raw_service", service)
    ∷ ("oci_compartment_id", look ("product/compartmentid" ∷ []))
    ∷ ("oci_compartment_name", look ("product/compartmentname" ∷ []))
    ∷ ("oci_availability_domain", look ("product/availabilitydomain" ∷ []))
    ∷ ("oci_description", description)
    ∷ ("oci_overage_flag", look ("cost/overageflag" ∷ []))
    ∷ []

abbrev raw_of :
    (List String → String) → String → String → String → String → List (String × RawValue)
raw_of look description sku start_raw end_raw =
    ("description", text description)
    ∷ ("sku", text sku)
    ∷ ("oci_usage_start", text start_raw)
    ∷ ("oci_usage_end", text end_raw)
    ∷ ("availability_zone", text (look ("product/availabilitydomain" ∷ [])))
    ∷ ("source_type", text "oci_object_storage_report")
    ∷ []

abbrev or_zero : {F : Type 0} ⦃fl : Float64 F⦄ → Option F → F
or_zero ⦃fl⦄ none = fl.decimal 0 0
or_zero (some x) = x

abbrev pub end_or : Time → Option Time → Time
end_or start none = start
end_or start (some end) = if is_zero end then start else end

module _ {F : Type 0} ⦃fl : Float64 F⦄ (parse_time : String → String → Option Time)
    (parse_float : String → Option F) where
  abbrev first_time : List String → String → Option Time
  first_time [] v = none
  first_time (layout ∷ more) v = elim (parse_time layout v) [
    | some t ↦ some t
    | none ↦ first_time more v
  ]

  -- parseTimeField
  unfoldable pub parse_time_field : String → Option Time
  unfolding trim_space
  parse_time_field v = if trim_space v == "" then none else first_time layouts (trim_space v)

  -- parseFloatField, where what is no number is 0
  unfoldable pub float_or_zero : String → F
  unfolding trim_space remove
  float_or_zero v =
      let number = trim_space (remove "," v) in
      if number == "" then fl.decimal 0 0 else or_zero (parse_float number)

  -- parseRow, of a row whose usage starts at the time
  unfoldable pub record_of :
      Index → List String → String → String → String → Time → RawBillingRecord F
  unfolding lookup normalize_oci_service default_string extract_tags float_or_zero parse_time_field
  record_of index row object_name configured_account start_raw usage_start =
      let look = λ (keys : List String). lookup index row keys in
      let service = look service_keys in
      let description = look description_keys in
      let sku = look sku_keys in
      let end_raw = look end_keys in
      let account =
        if configured_account == ""
        then look ("lineitem/tenantid" ∷ "tenantid" ∷ "cost/subscriptionid" ∷ [])
        else configured_account in
      let category = normalize_oci_service service description sku in
      record {
        provider = provider_oci;
        account_id = account;
        usage_start = usage_start;
        usage_end = end_or usage_start (parse_time_field end_raw);
        service = default_string service category;
        category = category;
        sku = sku;
        region = look ("product/region" ∷ "region" ∷ []);
        billing_scope_type = "";
        billing_scope_id = "";
        billing_scope_name = "";
        project_id = "";
        project_name = "";
        project_source = "";
        network_scope_type = "";
        network_scope_id = "";
        network_scope_name = "";
        resource_id = look ("product/resourceid" ∷ "resourceid" ∷ []);
        resource_type = "";
        currency = default_string (look currency_keys) "USD";
        cost = float_or_zero (look cost_keys);
        usage_amount = float_or_zero (look usage_keys);
        usage_unit = look (
            "cost/billingunitreadable" ∷ "usage/consumedquantityunits" ∷ "usage/unit" ∷ "unit"
            ∷ []);
        tags = extract_tags index row (base_tags look service description);
        meter = default_string sku description;
        record_type = "";
        source_file_key = "";
        source_file_etag = "";
        source_line_number = pos 0;
        source_record_hash = "";
        raw_data = raw_of look description sku start_raw end_raw;
        source_object = object_name;
      }

  -- parseRow; `none` is the result that is not ok
  unfoldable pub parse_row : Index → List String → String → String → Option (RawBillingRecord F)
  unfolding lookup parse_time_field record_of
  parse_row index row object_name configured_account =
      let start_raw = lookup index row start_keys in
      Option.map (λ t. record_of index row object_name configured_account start_raw t)
        (parse_time_field start_raw)
