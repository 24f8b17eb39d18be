-- ===== src/Oci/Search/Skipped.antt =====
-- Where the binary search makes no progress.
use torvix.Prelude.{ltb, Bool-cases, ℕ, zero, suc, ◌≡◌, refl, inl, inr, false, some}
use torvix.Prelude.Clock.{Time, before}
use torvix.Prelude.Result.{ok}
use torvix.Prelude.Exec.{◌>>=◌}
use torvix.Oci.Names.{cost_report_start_name}
use torvix.Oci.Objects.{ObjectInfo, Client, first_cost_report_at_or_after}
use torvix.Oci.Search.{
  dated, middle, max_probes, binary_search, binary_search_cost_report_start, ◌+₆₄◌,
}

module _ {W : Type 0} (client : Client W) (since : Time) (low high : ℕ) (o : ObjectInfo)
    (d : dated o ≡ some high) (recent : before o.last_modified since ≡ false)
    (first : (w : W)
      → first_cost_report_at_or_after client (cost_report_start_name (middle low high)) w
        ≡ (ok (some o), w)) where
  binary_search-stays :
      (k : ℕ) (w : W) → binary_search client since k low high high w ≡ (ok (some high), w)
  unfolding binary_search ◌>>=◌
  binary_search-stays zero w = refl
  binary_search-stays (suc k) w = elim (Bool-cases (ltb (low +₆₄ 1) high)) [
    | inr e ↦ rw e refl
    | inl e ↦ simp (e, first w, d, recent) (binary_search-stays k w)
  ]

  -- Where the first report at or after the middle of the range is the one at its upper end, and is not
  -- modified before `since`, binarySearchCostReportStart gives the upper end, whatever reports lie
  -- between the lower end and the middle.
  pub binary_search_cost_report_start-stays :
      (w : W) → binary_search_cost_report_start client since low high w ≡ (ok (some high), w)
  unfolding binary_search_cost_report_start
  binary_search_cost_report_start-stays w = binary_search-stays max_probes w
