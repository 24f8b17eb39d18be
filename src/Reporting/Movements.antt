-- ===== src/Reporting/Movements.antt =====
-- topCostMovements of reporting/service.go: the largest increases and decreases of cost.
use torvix.Prelude.{if◌then◌else◌, take, keep, ℕ, Bool, ◌&&◌, List, [], ◌∷◌, ◌==◌}
use torvix.Prelude.Float64.{Float64}
use torvix.Domain.{CostVariance}

module _ {F : Type 0} ⦃fl : Float64 F⦄ where
  open fl use {decimal, lt, abs}

  abbrev pub is_increase : CostVariance F → Bool
  is_increase v = v.direction == "increase" && lt (decimal 0 0) v.delta

  abbrev pub is_decrease : CostVariance F → Bool
  is_decrease v = v.direction == "decrease" && lt v.delta (decimal 0 0)

  -- math.Abs(a.Delta) > math.Abs(b.Delta)
  abbrev pub moves_more : CostVariance F → CostVariance F → Bool
  moves_more a b = lt (abs b.delta) (abs a.delta)

  -- sort.SliceStable by moves_more: equal elements keep their order, so x goes before the first
  -- element that it is not behind.
  unfoldable pub insert_movement : CostVariance F → List (CostVariance F) → List (CostVariance F)
  insert_movement x [] = x ∷ []
  insert_movement x (y ∷ ys) =
      let rest = insert_movement x ys in if moves_more y x then y ∷ rest else x ∷ y ∷ ys

  unfoldable pub sort_movements : List (CostVariance F) → List (CostVariance F)
  unfolding insert_movement
  sort_movements [] = []
  sort_movements (x ∷ xs) = insert_movement x (sort_movements xs)

  unfoldable pub top_cost_movements :
      List (CostVariance F) → ℕ → List (CostVariance F) × List (CostVariance F)
  unfolding sort_movements
  top_cost_movements variances limit = (
    take limit (sort_movements (keep is_increase variances)),
    take limit (sort_movements (keep is_decrease variances)),
  )
