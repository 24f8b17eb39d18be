-- ===== src/Prelude/Exec.antt =====
-- Calls that read and change the state of the world and may fail: a chain of them stops at the first
-- error, and the state is then the one that the failing call left.
use Prim.Native.String.{String, ◌++◌}
use torvix.Prelude.Result.{Result, ok, err}

abbrev pub Exec : Type 0 → Type 0 → Type 0
Exec W A = W → Result A × W

module _ {W A : Type 0} where
  abbrev pub pure : A → Exec W A
  pure a w = (ok a, w)

  abbrev pub raise : String → Exec W A
  raise e w = (err e, w)

  abbrev pub gets : (W → A) → Exec W A
  gets f w = (ok (f w), w)

  -- fmt.Errorf("<label>: %w", err)
  abbrev pub label_result : String → Result A × W → Result A × W
  label_result l (ok a, w) = (ok a, w)
  label_result l (err e, w) = (err (l ++ ": " ++ e), w)

  unfoldable pub label : String → Exec W A → Exec W A
  label l m w = label_result l (m w)

  abbrev EnsuresOf : (A → W → Type 0) → Result A × W → Type 0
  EnsuresOf P (ok a, w) = P a w
  EnsuresOf P (err e, w) = Unit

  abbrev ReturnsOf : (A → W → Type 0) → Result A × W → Type 0
  ReturnsOf P (ok a, w) = P a w
  ReturnsOf P (err e, w) = ⊥

  -- If the call succeeds, the property holds of its value and state.
  pub record Ensures (P : A → W → Type 0) (r : Result A × W) : Type 0 where
    pub holds : EnsuresOf P r

  -- The call succeeds, and the property holds of its value and state.
  pub record Returns (P : A → W → Type 0) (r : Result A × W) : Type 0 where
    pub holds : ReturnsOf P r

module _ {W A B : Type 0} where
  abbrev pub continue : Result A × W → (A → Exec W B) → Result B × W
  continue (ok a, w) f = f a w
  continue (err e, w) f = (err e, w)

  infixl 10 ◌>>=◌
  unfoldable pub ◌>>=◌ : Exec W A → (A → Exec W B) → Exec W B
  ◌>>=◌ m f w = continue (m w) f

  continue-Ensures :
      (Q : A → W → Type 0) (P : B → W → Type 0) (r : Result A × W) (f : A → Exec W B)
      → Ensures Q r
      → ((a : A) (w : W) → Q a w → Ensures P (f a w))
      → Ensures P (continue r f)
  continue-Ensures Q P (ok a, w) f q k = k a w q.holds
  continue-Ensures Q P (err e, w) f q k = record { holds = tt }

  pub bind-Ensures :
      (Q : A → W → Type 0) {P : B → W → Type 0} (m : Exec W A) (f : A → Exec W B) (w : W)
      → Ensures Q (m w)
      → ((a : A) (w : W) → Q a w → Ensures P (f a w))
      → Ensures P ((m >>= f) w)
  unfolding ◌>>=◌
  bind-Ensures Q {P} m f w q k = continue-Ensures Q P (m w) f q k

  continue-Returns :
      (Q : A → W → Type 0) (P : B → W → Type 0) (r : Result A × W) (f : A → Exec W B)
      → Returns Q r
      → ((a : A) (w : W) → Q a w → Returns P (f a w))
      → Returns P (continue r f)
  continue-Returns Q P (ok a, w) f q k = k a w q.holds
  continue-Returns Q P (err e, w) f q k = elim q.holds [ ]

  pub bind-Returns :
      (Q : A → W → Type 0) {P : B → W → Type 0} (m : Exec W A) (f : A → Exec W B) (w : W)
      → Returns Q (m w)
      → ((a : A) (w : W) → Q a w → Returns P (f a w))
      → Returns P ((m >>= f) w)
  unfolding ◌>>=◌
  bind-Returns Q {P} m f w q k = continue-Returns Q P (m w) f q k

module _ {W A : Type 0} where
  abbrev pub Anything : A → W → Type 0
  Anything a w = Unit

  pub anything : (r : Result A × W) → Ensures Anything r
  anything (ok a, w) = record { holds = tt }
  anything (err e, w) = record { holds = tt }

  pub pure-Ensures : {P : A → W → Type 0} (a : A) (w : W) → P a w → Ensures P (ok a, w)
  pure-Ensures a w p = record { holds = p }

  pub pure-Returns : {P : A → W → Type 0} (a : A) (w : W) → P a w → Returns P (ok a, w)
  pure-Returns a w p = record { holds = p }

  label_result-Returns :
      {P : A → W → Type 0} (l : String) (r : Result A × W)
      → Returns P r
      → Returns P (label_result l r)
  label_result-Returns l (ok a, w) p = p
  label_result-Returns l (err e, w) p = elim p.holds [ ]

  pub label-Returns :
      {P : A → W → Type 0} (l : String) (m : Exec W A) (w : W)
      → Returns P (m w)
      → Returns P (label l m w)
  unfolding label
  label-Returns l m w p = label_result-Returns l (m w) p

  pub Ensures-map :
      {P : A → W → Type 0} (Q : A → W → Type 0) (r : Result A × W)
      → ((a : A) (w : W) → P a w → Q a w)
      → Ensures P r
      → Ensures Q r
  Ensures-map Q (ok a, w) f p = record { holds = f a w p.holds }
  Ensures-map Q (err e, w) f p = record { holds = tt }

-- What holds of the value and the state of a call that succeeds, and of the state of one that fails.
module _ {W A : Type 0} where
  abbrev EndsOf : (A → W → Type 0) → (W → Type 0) → Result A × W → Type 0
  EndsOf P Q (ok a, w) = P a w
  EndsOf P Q (err e, w) = Q w

  pub record Ends (P : A → W → Type 0) (Q : W → Type 0) (r : Result A × W) : Type 0 where
    pub holds : EndsOf P Q r

  pub pure-Ends : {P : A → W → Type 0} {Q : W → Type 0} (a : A) (w : W) → P a w → Ends P Q (ok a, w)
  pure-Ends a w p = record { holds = p }

  label_result-Ends :
      {P : A → W → Type 0} {Q : W → Type 0} (l : String) (r : Result A × W)
      → Ends P Q r
      → Ends P Q (label_result l r)
  label_result-Ends l (ok a, w) p = p
  label_result-Ends l (err e, w) p = record { holds = p.holds }

  pub label-Ends :
      {P : A → W → Type 0} {Q : W → Type 0} (l : String) (m : Exec W A) (w : W)
      → Ends P Q (m w)
      → Ends P Q (label l m w)
  unfolding label
  label-Ends l m w p = label_result-Ends l (m w) p

  pub Ends-map :
      {P P' : A → W → Type 0} {Q Q' : W → Type 0} (r : Result A × W)
      → ((a : A) (w : W) → P a w → P' a w)
      → ((w : W) → Q w → Q' w)
      → Ends P Q r
      → Ends P' Q' r
  Ends-map (ok a, w) f g p = record { holds = f a w p.holds }
  Ends-map (err e, w) f g p = record { holds = g w p.holds }

module _ {W A B : Type 0} where
  continue-Ends :
      {R : A → W → Type 0} {P : B → W → Type 0} {Q : W → Type 0} (r : Result A × W)
      (f : A → Exec W B)
      → Ends R Q r
      → ((a : A) (w : W) → R a w → Ends P Q (f a w))
      → Ends P Q (continue r f)
  continue-Ends (ok a, w) f q k = k a w q.holds
  continue-Ends (err e, w) f q k = record { holds = q.holds }

  pub bind-Ends :
      {R : A → W → Type 0} {P : B → W → Type 0} {Q : W → Type 0} (m : Exec W A) (f : A → Exec W B)
      (w : W)
      → Ends R Q (m w)
      → ((a : A) (w : W) → R a w → Ends P Q (f a w))
      → Ends P Q ((m >>= f) w)
  unfolding ◌>>=◌
  bind-Ends m f w q k = continue-Ends (m w) f q k
