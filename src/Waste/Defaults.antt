-- ===== src/Waste/Defaults.antt =====
-- engine/service.go: WithDefaults.
use torvix.Prelude.{
  if◌then◌else◌, Bool-cases, String, ◌≡◌, refl, ◌≢◌, inl, inr, false, List, [], ◌∷◌, arith, ◌==◌,
  eq_iff,
}
use torvix.Prelude.Int.{positive_or, ℤ, pos, leb_ℤ}
use torvix.Prelude.Float64.{Float64}
use torvix.Domain.{provider_oci}
use torvix.Waste.Types.{Config}

abbrev text_or : String → String → String
text_or s d = if s == "" then d else s

abbrev default_tag_keys : List String
default_tag_keys =
    "torvix:ignore" ∷ "torvix:waste-ignore" ∷ "finops:ignore" ∷ "keep" ∷ "retain" ∷ "do-not-delete"
    ∷ []

abbrev keys_or_default : List String → List String
keys_or_default [] = default_tag_keys
keys_or_default (k ∷ ks) = k ∷ ks

text_or-ne-empty : (s d : String) → d ≢ "" → text_or s d ≢ ""
text_or-ne-empty s d h = elim (Bool-cases (s == "")) [
  | inl e ↦ rw e h
  | inr e ↦ rw e (λ p. ground (arith, eq_iff s ""))
]

text_or_lem : (s d : String) → s ≢ "" → text_or s d ≡ s
text_or_lem s d h = elim (Bool-cases (s == "")) [
  | inl e ↦ elim (h ((eq_iff s "").0 e)) [ ]
  | inr e ↦ rw e refl
]

positive_or-lt : (n d : ℤ) → leb_ℤ d (pos 0) ≡ false → leb_ℤ (positive_or n d) (pos 0) ≡ false
positive_or-lt n d h = elim (Bool-cases (leb_ℤ n (pos 0))) [ inl e ↦ rw e h | inr e ↦ rw e e ]

keys_or_default-ne-empty : (ks : List String) → keys_or_default ks ≢ []
keys_or_default-ne-empty [] e = cc
keys_or_default-ne-empty (k ∷ ks) e = cc

keys_or_default_lem : (ks : List String) → ks ≢ [] → keys_or_default ks ≡ ks
keys_or_default_lem [] h = elim (h refl) [ ]
keys_or_default_lem (k ∷ ks) h = refl

module _ {F : Type 0} ⦃fl : Float64 F⦄ where
  -- WithDefaults
  unfoldable pub with_defaults : Config F → Config F
  with_defaults c = record c {
    provider = text_or c.provider provider_oci;
    scan_interval_hours = positive_or c.scan_interval_hours (pos 24);
    min_resource_age_days = positive_or c.min_resource_age_days (pos 7);
    stopped_instance_min_days = positive_or c.stopped_instance_min_days (pos 3);
    old_backup_days = positive_or c.old_backup_days (pos 30);
    high_monthly_threshold =
        if fl.le c.high_monthly_threshold (fl.decimal 0 0)
        then fl.decimal 50 0
        else c.high_monthly_threshold;
    currency = text_or c.currency "USD";
    exclusion_tag_keys = keys_or_default c.exclusion_tag_keys;
  }

  -- Every field that has a default holds a value that is not taken for a missing one.
  pub record IsUsable (c : Config F) : Type 0 where
    pub provider : c.provider ≢ ""
    pub currency : c.currency ≢ ""
    pub scan_interval_hours : leb_ℤ c.scan_interval_hours (pos 0) ≡ false
    pub min_resource_age_days : leb_ℤ c.min_resource_age_days (pos 0) ≡ false
    pub stopped_instance_min_days : leb_ℤ c.stopped_instance_min_days (pos 0) ≡ false
    pub old_backup_days : leb_ℤ c.old_backup_days (pos 0) ≡ false
    pub high_monthly_threshold : fl.le c.high_monthly_threshold (fl.decimal 0 0) ≡ false
    pub exclusion_tag_keys : c.exclusion_tag_keys ≢ []

  -- WithDefaults gives a usable configuration, where 50 is a positive number.
  pub with_defaults-IsUsable :
      fl.le (fl.decimal 50 0) (fl.decimal 0 0) ≡ false → (c : Config F) → IsUsable (with_defaults c)
  unfolding with_defaults
  with_defaults-IsUsable h c = record {
    provider =
        text_or-ne-empty c.provider provider_oci (λ e. ground (arith, eq_iff provider_oci ""));
    currency = text_or-ne-empty c.currency "USD" (λ e. ground (arith, eq_iff "USD" ""));
    scan_interval_hours = positive_or-lt c.scan_interval_hours (pos 24) refl;
    min_resource_age_days = positive_or-lt c.min_resource_age_days (pos 7) refl;
    stopped_instance_min_days = positive_or-lt c.stopped_instance_min_days (pos 3) refl;
    old_backup_days = positive_or-lt c.old_backup_days (pos 30) refl;
    high_monthly_threshold = elim (Bool-cases (fl.le c.high_monthly_threshold (fl.decimal 0 0))) [
      | inl e ↦ rw e h
      | inr e ↦ rw e e
    ];
    exclusion_tag_keys = keys_or_default-ne-empty c.exclusion_tag_keys;
  }

  -- A usable configuration is left as it is, so that a second application changes nothing.
  pub with_defaults_usable : (c : Config F) → IsUsable c → with_defaults c ≡ c
  unfolding with_defaults
  with_defaults_usable c u =
      rw
        (
          u.scan_interval_hours,
          u.min_resource_age_days,
          u.stopped_instance_min_days,
          u.old_backup_days,
          u.high_monthly_threshold,
          text_or_lem c.provider provider_oci u.provider,
          text_or_lem c.currency "USD" u.currency,
          keys_or_default_lem c.exclusion_tag_keys u.exclusion_tag_keys,
        )
        refl
