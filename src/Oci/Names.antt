-- ===== src/Oci/Names.antt =====
-- oci/collector.go: costReportStartName and costReportNumber.
pub mod RoundTrip
use torvix.Prelude.{
  ltb, ◌=ℕ◌, if◌then◌else◌, ℕ, zero, suc, ◌-◌, ◌^◌, String, Option, none, some, ◌==◌,
}
use Prim.Native.String.{◌++◌, len}
use Prim.Native.String.{String}
use Prim.Native.Char.{code}
use torvix.Prelude.Text.{itoa}
use torvix.Prelude.Words.{has_prefix, trim_prefix, digits}

abbrev pub cost_report_prefix : String
cost_report_prefix = "reports/cost-csv/"

abbrev pub zeros : ℕ → String
zeros zero = ""
zeros (suc n) = String.◌∷◌ "0" (zeros n)

-- `%016d` of fmt.Sprintf
unfoldable pub padded : ℕ → String
unfolding itoa
padded n = zeros (16 - len (itoa n)) ++ itoa n

-- costReportStartName
unfoldable pub cost_report_start_name : ℕ → String
unfolding padded
cost_report_start_name number = cost_report_prefix ++ padded number

-- The text before the first hyphen; the whole text where it has none.
unfoldable pub before_hyphen : String → String
before_hyphen String.[] = ""
before_hyphen (String.◌∷◌ c s) =
    let rest = before_hyphen s in if code c =ℕ b'-' then "" else String.◌∷◌ c rest

-- strings.TrimSuffix of a suffix that is not empty
unfoldable pub trim_suffix : String → String → String
trim_suffix String.[] suffix = ""
trim_suffix (String.◌∷◌ c s) suffix =
    let rest = trim_suffix s suffix in if String.◌∷◌ c s == suffix then "" else String.◌∷◌ c rest

-- strconv.ParseUint of 64 bits, of a text that is all digits
abbrev pub in_64_bits : Option ℕ → Option ℕ
in_64_bits none = none
in_64_bits (some n) = if ltb n (2 ^ 64) then some n else none

-- costReportNumber; `none` is the result that is not ok
unfoldable pub cost_report_number : String → Option ℕ
unfolding has_prefix trim_prefix before_hyphen trim_suffix
cost_report_number name =
    if has_prefix name cost_report_prefix
    then in_64_bits (
        digits (
          trim_suffix (trim_suffix (before_hyphen (trim_prefix name cost_report_prefix)) ".gz")
            ".csv"))
    else none
