-- ===== src/Prelude/Keys.antt =====
-- Texts as keys: membership in a list of keys, and Go's `map[string]V` read by its keys.
use torvix.Prelude.{inr, subst, inl, Bool-cases, All}
use mathlib.Core.Path.{◌≡◌, refl}
use mathlib.Core.Bool.{Bool, true, false, ◌||◌}
use mathlib.Core.Option.{Option, none, some}
use mathlib.Core.List.{List, [], ◌∷◌, ◌++◌}
use native.Mathlib.Omega.{arith}
use text.Mathlib.Text.{◌==◌}
use text.Mathlib.TextEquality.{eq_iff}
use Prim.Native.String.{String}
use Prim.Native.Nat.{ℕ, zero, suc, ◌≤◌}
use torvix.Prelude.Lists.{length, drop}
use torvix.Prelude.Tests.{if◌then◌else◌}

abbrev pub contains : String → List String → Bool
contains k [] = false
contains k (x ∷ xs) = x == k || contains k xs

-- No key stands twice.
abbrev pub Distinct : List String → Type 0
Distinct [] = Unit
Distinct (x ∷ xs) = (contains x xs ≡ false) × Distinct xs

pub contains-append :
    (k : String) (xs ys : List String) → contains k (xs ++ ys) ≡ (contains k xs || contains k ys)
contains-append k [] ys = refl
contains-append k (x ∷ xs) ys = ground (arith, contains-append k xs ys)

pub Distinct-snoc :
    (xs : List String) (k : String) → Distinct xs → contains k xs ≡ false → Distinct (xs ++ k ∷ [])
Distinct-snoc [] k d h = (refl, tt)
Distinct-snoc (x ∷ xs) k d h = (
  ground (arith, contains-append x xs (k ∷ []), eq_iff x k, eq_iff k x),
  Distinct-snoc xs k d.1 (ground arith),
)

pub contains_last : (xs : List String) (k : String) → contains k (xs ++ k ∷ []) ≡ true
contains_last [] k = ground (arith, eq_iff k k)
contains_last (x ∷ xs) k = ground (arith, contains_last xs k)

pub contains-drop_last :
    (n : ℕ) (xs : List String) (k : String)
    → n ≤ length xs
    → contains k (drop n (xs ++ k ∷ [])) ≡ true
contains-drop_last zero xs k h = contains_last xs k
contains-drop_last (suc n) [] k h = elim h [ ]
contains-drop_last (suc n) (x ∷ xs) k h = contains-drop_last n xs k (omega arith)

pub not_contains-drop :
    (n : ℕ) (xs : List String) (k : String) → contains k xs ≡ false → contains k (drop n xs) ≡ false
not_contains-drop zero xs k h = h
not_contains-drop (suc n) [] k h = h
not_contains-drop (suc n) (x ∷ xs) k h = not_contains-drop n xs k (ground arith)

pub All-contains {ℓ} :
    (P : String → Type ℓ) (xs : List String) (k : String) → All P xs → contains k xs ≡ true → P k
All-contains P [] k h c = cc
All-contains P (x ∷ xs) k h c = elim (Bool-cases (x == k)) [
  | inl e ↦ subst P ((eq_iff x k).0 e) h.0
  | inr e ↦ All-contains P xs k h.1 (ground arith)
]

-- A map holds at most one value at a key, and `none` where the key is missing.
abbrev pub Map {ℓ} : Type ℓ → Type ℓ
Map V = String → Option V

module _ {ℓ} {V : Type ℓ} where
  abbrev pub empty : Map V
  empty k = none

  abbrev pub insert : String → V → Map V → Map V
  insert k v m j = if k == j then some v else m j

  abbrev pub delete : String → Map V → Map V
  delete k m j = if k == j then none else m j

  abbrev pub is_some : Option V → Bool
  is_some none = false
  is_some (some v) = true

  -- m[k], the type's zero value where the key is missing
  abbrev pub get_or : Option V → V → V
  get_or none d = d
  get_or (some v) d = v
