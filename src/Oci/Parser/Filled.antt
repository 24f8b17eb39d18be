-- ===== src/Oci/Parser/Filled.antt =====
-- What a record that was read off a row has in its fields.
use torvix.Prelude.{
  ◌⊎◌, ℕ, if◌then◌else◌, Bool-cases, All, All-append, String, ◌≡◌, refl, ap, ◌∙◌, ◌≢◌, inl, inr,
  false, not, ◌&&◌, Option, none, some, List, [], ◌∷◌, arith, ◌==◌, eq_iff,
}
use mathlib.Core.Option
use torvix.Prelude.Text.{trim_space, to_lower, join}
use torvix.Prelude.Clock.{Time, is_zero}
use torvix.Prelude.Float64.{Float64}
use torvix.Domain.{RawBillingRecord, Tags}
use torvix.Oci.Mapper.{contains_any, category_of, categories, normalize_oci_service}
use torvix.Oci.Parser.{
  first_value, get_elem?, normalize_header, place_of, service_keys, description_keys, sku_keys,
  currency_keys, end_keys, base_tags, Index, lookup, start_keys, parse_time_field, default_string,
  filled_tags, with_tag, column_tags, is_tag_column, value_at, extract_tags, end_or, record_of,
  parse_row,
}

not_empty : (d : String) → (d == "") ≡ false → d ≢ ""
not_empty d h e = ground (arith, eq_iff d "")

trim_space-ne-empty : (v : String) → (trim_space v == "") ≡ false → v ≢ ""
trim_space-ne-empty v h e =
    not_empty (trim_space v) h (ap trim_space e ∙ (unfold trim_space in refl))

default_string-ne-empty : (v d : String) → d ≢ "" → default_string v d ≢ ""
unfolding default_string
default_string-ne-empty v d h = elim (Bool-cases (trim_space v == "")) [
  | inl e ↦ rw e h
  | inr e ↦ rw e (trim_space-ne-empty v e)
]

category_of-ne-empty :
    (cases : List (List String × String)) (value d : String)
    → All (λ c. (c.1 == "") ≡ false) cases
    → d ≢ ""
    → category_of cases value d ≢ ""
unfolding category_of
category_of-ne-empty [] value d a h = h
category_of-ne-empty ((needles, category) ∷ cases) value d a h =
    elim (Bool-cases (contains_any value needles)) [
      | inl e ↦ rw e (not_empty category a.0)
      | inr e ↦ rw e (category_of-ne-empty cases value d a.1 h)
    ]

named : All (λ (c : List String × String). (c.1 == "") ≡ false) categories
named = (refl, (refl, (refl, (refl, (refl, (refl, (refl, (refl, tt))))))))

default_category-ne-empty :
    (service : String) → (if trim_space service == "" then "OCI Other" else trim_space service) ≢ ""
default_category-ne-empty service = elim (Bool-cases (trim_space service == "")) [
  | inl e ↦ rw e (not_empty "OCI Other" refl)
  | inr e ↦ rw e (not_empty (trim_space service) e)
]

normalize_oci_service-ne-empty :
    (service description sku : String) → normalize_oci_service service description sku ≢ ""
unfolding normalize_oci_service
normalize_oci_service-ne-empty service description sku =
    category_of-ne-empty categories (to_lower (join (service ∷ description ∷ sku ∷ []) " ")) _ named
      (default_category-ne-empty service)

-- The columns in which the start of the usage may stand, in their order.
abbrev pub start_columns : List String
start_columns =
    "lineitem/intervalusagestart" ∷ "lineitem/usagestart" ∷ "usagestarttime" ∷ "usage/intervalstart"
    ∷ []

-- The row has no value at the place of the column, or the header has no such column.
abbrev pub IsAbsent : Index → List String → String → Type 0
IsAbsent index row key =
    (place_of (normalize_header key) index ≡ none)
    ⊎ ((i : ℕ) × (place_of (normalize_header key) index ≡ some i) × (get_elem? row i ≡ none))

-- The trimmed value of the first of the columns that is present, blank or not; the empty text if none
-- is.
pub data FirstPresent (index : Index) (row : List String) : List String → String → Type 0 where
  nowhere : FirstPresent index row [] ""
  present :
      {key : String} {keys : List String} (i : ℕ) (v : String)
      → place_of (normalize_header key) index ≡ some i
      → get_elem? row i ≡ some v
      → FirstPresent index row (key ∷ keys) (trim_space v)
  absent :
      {key v : String} {keys : List String}
      → IsAbsent index row key
      → FirstPresent index row keys v
      → FirstPresent index row (key ∷ keys) v

module _ (index : Index) (row : List String) (key rest : String) (keys : List String)
    (later : FirstPresent index row keys rest) where
  at_value :
      (i : ℕ) (o : Option String)
      → place_of (normalize_header key) index ≡ some i
      → get_elem? row i ≡ o
      → FirstPresent index row
          (key ∷ keys)
          (first_value (elim o [ none ↦ none | some v ↦ some (trim_space v) ]) rest)
  at_value i none e f = absent (inr (i, e, f)) later
  at_value i (some v) e f = present i v e f

  at_place :
      (p : Option ℕ)
      → place_of (normalize_header key) index ≡ p
      → FirstPresent index row (key ∷ keys) (first_value (value_at row p) rest)
  unfolding value_at
  at_place none e = absent (inl e) later
  at_place (some i) e = at_value i (get_elem? row i) e refl

lookup-FirstPresent :
    (index : Index) (row : List String) (keys : List String)
    → FirstPresent index row keys (lookup index row keys)
unfolding lookup
lookup-FirstPresent index row [] = nowhere
lookup-FirstPresent index row (key ∷ keys) =
    at_place index row key (lookup index row keys) keys (lookup-FirstPresent index row keys)
      (place_of (normalize_header key) index) refl

-- A tag with a value.
abbrev pub IsTagged : String × String → Type 0
IsTagged tag = tag.1 ≢ ""

filled_tags-IsTagged : (tags : Tags) → All IsTagged (filled_tags tags)
unfolding filled_tags
filled_tags-IsTagged [] = tt
filled_tags-IsTagged ((k, v) ∷ tags) = elim (Bool-cases (trim_space v == "")) [
  | inl e ↦ rw e (filled_tags-IsTagged tags)
  | inr e ↦ rw e (trim_space-ne-empty v e, filled_tags-IsTagged tags)
]

with_tag-IsTagged :
    (k : String) (o : Option String) (tags : Tags)
    → All IsTagged tags
    → All IsTagged (with_tag k o tags)
with_tag-IsTagged k none tags h = h
with_tag-IsTagged k (some v) tags h = elim (Bool-cases (v == "")) [
  | inl e ↦ rw e h
  | inr e ↦ rw e (not_empty v e, h)
]

column_tags-IsTagged : (index : Index) (row : List String) → All IsTagged (column_tags index row)
unfolding column_tags
column_tags-IsTagged [] row = tt
column_tags-IsTagged ((key, i) ∷ index) row = elim (Bool-cases (is_tag_column key)) [
  | inl e ↦ rw e (with_tag-IsTagged key (value_at row (some i)) _ (column_tags-IsTagged index row))
  | inr e ↦ rw e (column_tags-IsTagged index row)
]

module _ {F : Type 0} where
  -- A record has a category, a currency, an end that is set where its start is, and no empty tag.
  pub record IsFilled (r : RawBillingRecord F) : Type 0 where
    pub category : r.category ≢ ""
    pub currency : r.currency ≢ ""
    pub usage_end : (is_zero r.usage_end && not (is_zero r.usage_start)) ≡ false
    pub tags : All IsTagged r.tags

  abbrev pub IsParsed : Option (RawBillingRecord F) → Type 0
  IsParsed none = Unit
  IsParsed (some r) = IsFilled r

end_or-is_zero :
    (start : Time) (end : Option Time) → (is_zero (end_or start end) && not (is_zero start)) ≡ false
end_or-is_zero start none = ground arith
end_or-is_zero start (some end) = elim (Bool-cases (is_zero end)) [
  | inl e ↦ rw e (ground arith)
  | inr e ↦ rw (e, e) refl
]

module _ {F : Type 0} ⦃fl : Float64 F⦄ (parse_time : String → String → Option Time)
    (parse_float : String → Option F) where
  record_of-IsFilled :
      (index : Index) (row : List String) (object_name account start_raw : String) (start : Time)
      → IsFilled (record_of parse_time parse_float index row object_name account start_raw start)
  unfolding record_of extract_tags
  record_of-IsFilled index row object_name account start_raw start =
      let look = λ (keys : List String). lookup index row keys in
      record {
        category =
            normalize_oci_service-ne-empty (look service_keys) (look description_keys)
              (look sku_keys);
        currency = default_string-ne-empty (look currency_keys) "USD" (not_empty "USD" refl);
        usage_end = end_or-is_zero start (parse_time_field parse_time parse_float (look end_keys));
        tags =
            All-append IsTagged
              (filled_tags (base_tags look (look service_keys) (look description_keys)))
              (column_tags index row)
              (filled_tags-IsTagged (base_tags look (look service_keys) (look description_keys)))
              (column_tags-IsTagged index row);
      }

  IsParsed-map :
      (o : Option Time) (f : Time → RawBillingRecord F)
      → ((t : Time) → IsFilled (f t))
      → ((t : Time) → (f t).usage_start ≡ t)
      → (Option.map (λ r. r.usage_start) (Option.map f o) ≡ o) × IsParsed (Option.map f o)
  IsParsed-map none f h k = (refl, tt)
  IsParsed-map (some t) f h k = (ap some (k t), h t)

  -- There is one text in the first column for the start of the usage that is present in the row, blank or
  -- not: the row is accepted exactly when that text is a time, which is then the start of the record; and a
  -- record that is read off a row has a category, a currency, an end of the usage where it has a start,
  -- and no tag with an empty value, whatever the columns hold.
  pub parse_row-IsParsed :
      (index : Index) (row : List String) (object_name account : String)
      → let parsed = parse_row parse_time parse_float index row object_name account in
        (start : String) × FirstPresent index row start_columns start
        × (Option.map (λ r. r.usage_start) parsed ≡ parse_time_field parse_time parse_float start)
        × IsParsed parsed
  unfolding parse_row record_of
  parse_row-IsParsed index row object_name account =
      let parsed =
        IsParsed-map (parse_time_field parse_time parse_float (lookup index row start_keys)) _
          (λ t. record_of-IsFilled index row object_name account _ t) (λ t. refl) in
      (lookup index row start_keys, lookup-FirstPresent index row start_keys, parsed.0, parsed.1)
