-- ===== src/Prelude/Comparison.antt =====
-- The order of texts: two texts that change places are compared the other way round.
use Prim.Native.Nat.compare as compare_ℕ
use Prim.Native.Nat.{ℕ, zero, suc, Ordering, compare as compare_ℕ}
use Prim.Native.Char.{code}
use Prim.Native.String.compare
use Prim.Native.String.{String, [], ◌∷◌, compare, then}
use mathlib.Core.Path.{◌≡◌, refl, sym, ◌∙◌, ap}

abbrev pub opposite : Ordering → Ordering
opposite Ordering.lt = Ordering.gt
opposite Ordering.eq = Ordering.eq
opposite Ordering.gt = Ordering.lt

opposite-then : (a b : Ordering) → then (opposite a) (opposite b) ≡ opposite (then a b)
opposite-then Ordering.lt b = refl
opposite-then Ordering.eq b = refl
opposite-then Ordering.gt b = refl

compare_ℕ-converse : (m n : ℕ) → compare_ℕ n m ≡ opposite (compare_ℕ m n)
compare_ℕ-converse zero zero = compare_ℕ.zero-zero ∙ ap opposite (sym compare_ℕ.zero-zero)
compare_ℕ-converse zero (suc n) = compare_ℕ.suc-zero n ∙ ap opposite (sym (compare_ℕ.zero-suc n))
compare_ℕ-converse (suc m) zero = compare_ℕ.zero-suc m ∙ ap opposite (sym (compare_ℕ.suc-zero m))
compare_ℕ-converse (suc m) (suc n) =
    compare_ℕ.suc-suc n m ∙ compare_ℕ-converse m n ∙ ap opposite (sym (compare_ℕ.suc-suc m n))

pub compare-converse : (s t : String) → compare t s ≡ opposite (compare s t)
compare-converse [] [] = compare.nil-nil ∙ ap opposite (sym compare.nil-nil)
compare-converse [] (d ∷ t) = compare.cons-nil d t ∙ ap opposite (sym (compare.nil-cons d t))
compare-converse (c ∷ s) [] = compare.nil-cons c s ∙ ap opposite (sym (compare.cons-nil c s))
compare-converse (c ∷ s) (d ∷ t) =
    compare.cons-cons d c t s
    ∙ (λ i. then (compare_ℕ-converse (code c) (code d) i) (compare-converse s t i))
    ∙ opposite-then (compare_ℕ (code c) (code d)) (compare s t)
    ∙ ap opposite (sym (compare.cons-cons c d s t))
