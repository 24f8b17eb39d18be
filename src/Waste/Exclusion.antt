-- ===== src/Waste/Exclusion.antt =====
-- rules/oci.go: hasExclusionTag and matchesExclusionTagKey. The set of configured keys is their list.
use torvix.Prelude.{
  ◌=ℕ◌, String, Bool, false, ◌&&◌, ◌||◌, Option, none, some, List, [], ◌∷◌, map, ◌==◌,
}
use Prim.Native.Char.{Char, code}
use torvix.Prelude.Keys.{contains}
use torvix.Prelude.Text.{to_lower, trim_space}
use torvix.Prelude.Words.{fields_func, trim_prefix, last_of}
use torvix.Domain.{Tags}
use torvix.Waste.Types.{Config, Resource}

abbrev normal : String → String
unfolding to_lower trim_space
normal s = to_lower (trim_space s)

abbrev key_separator : Char → Bool
key_separator c = code c =ℕ b'.' || code c =ℕ b':'

abbrev last_matches : Option String → List String → Bool
last_matches none configured = false
last_matches (some part) configured = contains part configured

-- matchesExclusionTagKey
unfoldable pub matches_exclusion_tag_key : String → List String → Bool
unfolding normal trim_prefix fields_func last_of
matches_exclusion_tag_key key configured =
    let normalized = normal key in
    let without_prefix = trim_prefix normalized "defined." in
    contains normalized configured
    || contains without_prefix configured
    || last_matches (last_of (fields_func (λ c. key_separator c) without_prefix)) configured

abbrev is_yes : String → Bool
is_yes s = s == "true" || s == "yes" || s == "1"

-- The loop over a resource's tags.
abbrev any_exclusion : Tags → List String → Bool
unfolding matches_exclusion_tag_key normal
any_exclusion [] keys = false
any_exclusion ((key, value) ∷ tags) keys =
    (matches_exclusion_tag_key key keys && is_yes (normal value)) || any_exclusion tags keys

-- hasExclusionTag
unfoldable pub has_exclusion_tag : {F : Type 0} → Resource → Config F → Bool
unfolding any_exclusion normal
has_exclusion_tag resource cfg =
    cfg.enable_tag_exclusions
    && any_exclusion resource.tags (map (λ k. normal k) cfg.exclusion_tag_keys)
