-- ===== src/Reporting/Top.antt =====
-- The cost movements of a report are the largest, largest first.
use mathlib.Core.List.{Perm}
use mathlib.Core.List.Perm
use torvix.Prelude.{
  ◌&&◌, ◌==◌, length-take, take-append-drop, ap, refl, arith, ◌∙◌, min, keep, sym, length, ◌++◌,
  Bool, subst, Bool-cases, take, drop, All, All-map, ℕ, zero, suc, ◌≡◌, inl, inr, true, false, List,
  [], ◌∷◌,
}
use torvix.Prelude.Float64.{Float64, IsOrdered}
use torvix.Domain.{CostVariance}
use torvix.Reporting.Movements.{
  is_increase, is_decrease, top_cost_movements, moves_more, insert_movement, sort_movements,
}

module _ {F : Type 0} ⦃fl : Float64 F⦄ where
  -- The movement is a number.
  abbrev pub Moves : CostVariance F → Type 0
  Moves v = fl.le (fl.abs v.delta) (fl.abs v.delta) ≡ true

  -- The absolute delta of the first is no smaller than that of the second.
  abbrev pub AtLeast : CostVariance F → CostVariance F → Type 0
  AtLeast v u = fl.lt (fl.abs v.delta) (fl.abs u.delta) ≡ false

  -- No element has a larger absolute delta than one that stands before it.
  abbrev pub LargestFirst : List (CostVariance F) → Type 0
  LargestFirst [] = Unit
  LargestFirst (v ∷ vs) = All (AtLeast v) vs × LargestFirst vs

  -- A variance that is marked as an increase and has a positive delta, and likewise a decrease.
  abbrev pub rises : CostVariance F → Bool
  rises v = v.direction == "increase" && fl.lt (fl.decimal 0 0) v.delta

  abbrev pub falls : CostVariance F → Bool
  falls v = v.direction == "decrease" && fl.lt v.delta (fl.decimal 0 0)

  insert_movement-perm :
      (x : CostVariance F) (ys : List (CostVariance F)) → Perm (insert_movement x ys) (x ∷ ys)
  unfolding insert_movement
  insert_movement-perm x [] = Perm.refl _
  insert_movement-perm x (y ∷ ys) = elim (Bool-cases (moves_more y x)) [
    | inl e ↦ rw e (Perm.trans (Perm.cons y (insert_movement-perm x ys)) (Perm.swap x y ys))
    | inr e ↦ rw e (Perm.refl (x ∷ y ∷ ys))
  ]

  pub sort_movements-perm : (xs : List (CostVariance F)) → Perm (sort_movements xs) xs
  unfolding sort_movements
  sort_movements-perm [] = Perm.refl []
  sort_movements-perm (x ∷ xs) =
      Perm.trans (insert_movement-perm x (sort_movements xs)) (Perm.cons x (sort_movements-perm xs))

  module _ {κ} (P : CostVariance F → Type κ) where
    All-insert_movement :
        (x : CostVariance F) (ys : List (CostVariance F))
        → P x
        → All P ys
        → All P (insert_movement x ys)
    unfolding insert_movement
    All-insert_movement x [] p h = (p, tt)
    All-insert_movement x (y ∷ ys) p h = elim (Bool-cases (moves_more y x)) [
      | inl e ↦ rw e (h.0, All-insert_movement x ys p h.1)
      | inr e ↦ rw e (p, h)
    ]

    All-sort_movements : (xs : List (CostVariance F)) → All P xs → All P (sort_movements xs)
    unfolding sort_movements
    All-sort_movements [] h = tt
    All-sort_movements (x ∷ xs) h =
        All-insert_movement x (sort_movements xs) h.0 (All-sort_movements xs h.1)

    All-take : (n : ℕ) (xs : List (CostVariance F)) → All P xs → All P (take n xs)
    All-take zero xs h = tt
    All-take (suc n) [] h = tt
    All-take (suc n) (x ∷ xs) h = (h.0, All-take n xs h.1)

    All-drop : (n : ℕ) (xs : List (CostVariance F)) → All P xs → All P (drop n xs)
    All-drop zero xs h = h
    All-drop (suc n) [] h = h
    All-drop (suc n) (x ∷ xs) h = All-drop n xs h.1

  length-insert_movement :
      (x : CostVariance F) (ys : List (CostVariance F))
      → length (insert_movement x ys) ≡ suc (length ys)
  unfolding insert_movement
  length-insert_movement x [] = refl
  length-insert_movement x (y ∷ ys) = ground (arith, length-insert_movement x ys)

  length-sort_movements : (xs : List (CostVariance F)) → length (sort_movements xs) ≡ length xs
  unfolding sort_movements
  length-sort_movements [] = refl
  length-sort_movements (x ∷ xs) =
      length-insert_movement x (sort_movements xs) ∙ ap suc (length-sort_movements xs)

  -- `top` is the largest `limit` elements of `xs`, largest first.
  pub record Largest (limit : ℕ) (xs top : List (CostVariance F)) : Type 0 where
    pub left : List (CostVariance F)
    pub whole : Perm (top ++ left) xs
    pub largest_first : LargestFirst top
    pub beyond : All (λ v. All (AtLeast v) left) top
    pub size : length top ≡ min limit (length xs)

  module _ (ord : IsOrdered F) where
    insert_movement-LargestFirst :
        (x : CostVariance F) (ys : List (CostVariance F))
        → Moves x
        → All Moves ys
        → LargestFirst ys
        → LargestFirst (insert_movement x ys)
    unfolding insert_movement
    insert_movement-LargestFirst x [] m ms s = (tt, tt)
    insert_movement-LargestFirst x (y ∷ ys) m ms s = elim (Bool-cases (moves_more y x)) [
      | inl e ↦ rw e (
        All-insert_movement _ x ys (ord.lt_asymm _ _ e) s.0,
        insert_movement-LargestFirst x ys m ms.1 s.1,
      )
      | inr e ↦ rw e ((e, behind x y ys ms.0 e s.0), s)
    ]
      where
        behind :
            (x y : CostVariance F) (zs : List (CostVariance F))
            → Moves y
            → moves_more y x ≡ false
            → All (λ u. moves_more u y ≡ false) zs
            → All (λ u. moves_more u x ≡ false) zs
        behind x y zs my e s = All-map (λ u h. ord.not_lt_trans _ _ _ my e h) zs s

    pub sort_movements-LargestFirst :
        (xs : List (CostVariance F)) → All Moves xs → LargestFirst (sort_movements xs)
    unfolding sort_movements
    sort_movements-LargestFirst [] h = tt
    sort_movements-LargestFirst (x ∷ xs) h =
        insert_movement-LargestFirst x (sort_movements xs) h.0 (All-sort_movements Moves xs h.1)
          (sort_movements-LargestFirst xs h.1)

    -- In a sorted list what is cut off moves no more than what is kept.
    take-LargestFirst :
        (n : ℕ) (xs : List (CostVariance F))
        → LargestFirst xs
        → LargestFirst (take n xs)
          × All (λ v. All (λ u. moves_more u v ≡ false) (drop n xs)) (take n xs)
    take-LargestFirst zero xs s = (tt, tt)
    take-LargestFirst (suc n) [] s = (tt, tt)
    take-LargestFirst (suc n) (x ∷ xs) s =
        let (a, b) = take-LargestFirst n xs s.1 in
        ((All-take _ n xs s.0, a), (All-drop _ n xs s.0, b))

    keep_numbers :
        (test : CostVariance F → Bool) (vs : List (CostVariance F))
        → ((v : CostVariance F) → test v ≡ true → Moves v)
        → All Moves (keep test vs)
    keep_numbers test [] h = tt
    keep_numbers test (v ∷ vs) h = elim (Bool-cases (test v)) [
      | inl e ↦ rw e (h v e, keep_numbers test vs h)
      | inr e ↦ rw e (keep_numbers test vs h)
    ]

    Largest-of_sorted :
        (limit : ℕ) (xs : List (CostVariance F))
        → All Moves xs
        → Largest limit xs (take limit (sort_movements xs))
    Largest-of_sorted limit xs m =
        let (first, beyond) =
          take-LargestFirst limit (sort_movements xs) (sort_movements-LargestFirst xs m) in
        record {
          left = drop limit (sort_movements xs);
          whole =
              subst (λ l. Perm l xs) (sym (take-append-drop limit (sort_movements xs)))
                (sort_movements-perm xs);
          largest_first = first;
          beyond = beyond;
          size =
              length-take limit (sort_movements xs)
              ∙ ap (λ (n : ℕ). min limit n) (length-sort_movements xs);
        }

    increase-Moves : (v : CostVariance F) → is_increase v ≡ true → Moves v
    increase-Moves v h =
        ord.abs_number v.delta (ord.lt_numbers (fl.decimal 0 0) v.delta (ground arith)).1

    decrease-Moves : (v : CostVariance F) → is_decrease v ≡ true → Moves v
    decrease-Moves v h =
        ord.abs_number v.delta (ord.lt_numbers v.delta (fl.decimal 0 0) (ground arith)).0

    -- On floats in their order, the increases of a report are the variances that are marked so and have a positive delta, up to
    -- the limit of them, by absolute delta and largest first, and none that is left out has a larger one than
    -- one that is kept; likewise the decreases with their negative deltas.
    pub top_cost_movements-Largest :
        (variances : List (CostVariance F)) (limit : ℕ)
        → Largest limit (keep rises variances) (top_cost_movements variances limit).0
          × Largest limit (keep falls variances) (top_cost_movements variances limit).1
    unfolding top_cost_movements
    top_cost_movements-Largest variances limit = (
      Largest-of_sorted limit (keep is_increase variances)
          (keep_numbers is_increase variances increase-Moves),
      Largest-of_sorted limit (keep is_decrease variances)
          (keep_numbers is_decrease variances decrease-Moves),
    )
