-- ===== src/Oci/Search/Recent.antt =====
-- A search for the first recent report gives the number of a recent report.
use torvix.Prelude.{
  ltb, Bool-cases, All, ℕ, zero, suc, String, ◌≡◌, refl, inl, inr, false, Option, none, some, List,
  [], ◌∷◌,
}
use torvix.Prelude.Clock.{Time, before}
use torvix.Prelude.Result.{ok}
use torvix.Prelude.Exec.{Exec, Ensures, bind-Ensures, pure-Ensures}
use torvix.Oci.Names.{cost_report_prefix}
use torvix.Prelude.Words.{has_prefix}
use torvix.Oci.Objects.{ObjectInfo, Client, first_of, first_cost_report_at_or_after}
use torvix.Oci.Search.{
  Probe, go_on, climb_on, over, narrow, Raise, stop, found, climb, dated, narrowed, probed,
  raised_by, raised, first_by, first_number, middle, max_probes, binary_search,
  binary_search_cost_report_start, search_upwards, from_first, find_cost_report_start_number, ◌+₆₄◌,
}

module _ (P : ObjectInfo → Type 0) (since : Time) where
  -- The number of a report that the client gave, and that was not modified before `since`.
  abbrev pub IsRecent : ℕ → Type 0
  IsRecent n = (o : ObjectInfo) × P o × (dated o ≡ some n) × (before o.last_modified since ≡ false)

  abbrev pub Given : Option ObjectInfo → Type 0
  Given none = Unit
  Given (some o) = P o

  -- The result of a search, where there is one, is the number of a recent report.
  abbrev pub Finds : Option ℕ → Type 0
  Finds none = Unit
  Finds (some n) = IsRecent n

  abbrev ProbeFinds : Probe → Type 0
  ProbeFinds (over r) = Finds r
  ProbeFinds (narrow low high best) = IsRecent best

  abbrev RaiseFinds : Raise → Type 0
  RaiseFinds stop = Unit
  RaiseFinds (found n) = IsRecent n
  RaiseFinds (climb n) = Unit

  narrowed-Finds :
      (low high best mid : ℕ) (o : ObjectInfo) (number : Option ℕ)
      → P o
      → dated o ≡ number
      → IsRecent best
      → ProbeFinds (narrowed since low high best mid o number)
  narrowed-Finds low high best mid o none p d h = tt
  narrowed-Finds low high best mid o (some n) p d h =
      elim (Bool-cases (before o.last_modified since)) [
        | inl e ↦ simp e h
        | inr e ↦ simp e (o, p, d, e)
      ]

  probed-Finds :
      (low high best mid : ℕ) (o : Option ObjectInfo)
      → Given o
      → IsRecent best
      → ProbeFinds (probed since low high best mid o)
  probed-Finds low high best mid none g h = h
  probed-Finds low high best mid (some o) g h =
      narrowed-Finds low high best mid o (dated o) g refl h

  raised_by-Finds :
      (low high : ℕ) (o : ObjectInfo) (number : Option ℕ)
      → P o
      → dated o ≡ number
      → RaiseFinds (raised_by since low high o number)
  raised_by-Finds low high o none p d = tt
  raised_by-Finds low high o (some n) p d = elim (Bool-cases (before o.last_modified since)) [
    | inl e ↦ simp e tt
    | inr e ↦ simp e (o, p, d, e)
  ]

  raised-Finds :
      (low high : ℕ) (o : Option ObjectInfo) → Given o → RaiseFinds (raised since low high o)
  raised-Finds low high none g = tt
  raised-Finds low high (some o) g = raised_by-Finds low high o (dated o) g refl

  first_by-Finds :
      (o : ObjectInfo) (number : Option ℕ)
      → P o
      → dated o ≡ number
      → RaiseFinds (first_by since o number)
  first_by-Finds o none p d = tt
  first_by-Finds o (some n) p d = elim (Bool-cases (before o.last_modified since)) [
    | inl e ↦ simp e tt
    | inr e ↦ simp e (o, p, d, e)
  ]

  first_number-Finds : (o : Option ObjectInfo) → Given o → RaiseFinds (first_number since o)
  first_number-Finds none g = tt
  first_number-Finds (some o) g = first_by-Finds o (dated o) g refl

  first_of-Given : (os : List ObjectInfo) → All P os → Given (first_of os)
  first_of-Given [] h = tt
  first_of-Given (o ∷ os) h = elim (Bool-cases (has_prefix o.name cost_report_prefix)) [
    | inl e ↦ simp e h.0
    | inr e ↦ simp e tt
  ]

  module _ {W : Type 0} (client : Client W)
      (answers : (start : String) (w : W)
        → Ensures
            (λ page w'. All P page.0)
            (client.list_objects_page cost_report_prefix start 1 w)) where
    first-Given :
        (start : String) (w : W)
        → Ensures (λ o w'. Given o) (first_cost_report_at_or_after client start w)
    unfolding first_cost_report_at_or_after
    first-Given start w =
        bind-Ensures (λ page w'. All P page.0) _ _ w (answers start w)
          (λ page w' h. pure-Ensures _ w' (first_of-Given page.0 h))

    abbrev pub Found : Option ℕ → W → Type 0
    Found r w = Finds r

    go_on-Finds :
        (next : ℕ → ℕ → ℕ → Exec W (Option ℕ))
        → ((low high best : ℕ) (w : W) → IsRecent best → Ensures Found (next low high best w))
        → (p : Probe) (w : W) → ProbeFinds p
        → Ensures Found (go_on next p w)
    go_on-Finds next h (over r) w f = pure-Ensures r w f
    go_on-Finds next h (narrow low high best) w f = h low high best w f

    climb_on-Finds :
        (search next : ℕ → Exec W (Option ℕ))
        → ((n : ℕ) (w : W) → IsRecent n → Ensures Found (search n w))
        → ((n : ℕ) (w : W) → Ensures Found (next n w))
        → (r : Raise) (w : W) → RaiseFinds r
        → Ensures Found (climb_on search next r w)
    climb_on-Finds search next h k stop w f = pure-Ensures none w tt
    climb_on-Finds search next h k (found n) w f = h n w f
    climb_on-Finds search next h k (climb n) w f = k n w

    binary_search-Finds :
        (k low high best : ℕ) (w : W)
        → IsRecent best
        → Ensures Found (binary_search client since k low high best w)
    unfolding binary_search
    binary_search-Finds zero low high best w h = pure-Ensures _ w h
    binary_search-Finds (suc k) low high best w h = elim (Bool-cases (ltb (low +₆₄ 1) high)) [
      | inr e ↦ rw e (pure-Ensures _ w h)
      | inl e ↦ rw e (
          bind-Ensures (λ o w'. Given o) _ _ w (first-Given _ w)
            (λ o w' g.
              go_on-Finds (binary_search client since k) (binary_search-Finds k)
                (probed since low high best (middle low high) o) w'
                (probed-Finds low high best (middle low high) o g h)))
    ]

    search_upwards-Finds :
        (k low high : ℕ) (w : W) → Ensures Found (search_upwards client since k low high w)
    unfolding search_upwards binary_search_cost_report_start
    search_upwards-Finds zero low high w = pure-Ensures none w tt
    search_upwards-Finds (suc k) low high w =
        bind-Ensures (λ o w'. Given o) _ _ w (first-Given _ w)
          (λ o w' g.
            climb_on-Finds (binary_search_cost_report_start client since low) _
              (λ n w₁ h. binary_search-Finds max_probes low n n w₁ h)
              (λ n w₁. search_upwards-Finds k n _ w₁) (raised since low high o) w'
              (raised-Finds low high o g))

    -- Where findCostReportStartNumber gives a number, it is that of a report which the client gave,
    -- which has a time, and which was not modified before `since`.
    pub find_cost_report_start_number-Finds :
        (w : W) → Ensures Found (find_cost_report_start_number client since w)
    unfolding find_cost_report_start_number from_first
    find_cost_report_start_number-Finds w =
        bind-Ensures (λ o w'. Given o) _ _ w (first-Given "" w)
          (λ o w' g.
            climb_on-Finds (λ n v. (ok (some n), v)) _ (λ n w₁ h. pure-Ensures (some n) w₁ h)
              (λ n w₁. search_upwards-Finds max_probes n _ w₁) (first_number since o) w'
              (first_number-Finds o g))
