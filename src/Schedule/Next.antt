-- ===== src/Schedule/Next.antt =====
-- The next run of a schedule is the first that is due, and it is found within eight candidates.
use torvix.Prelude.{
  if◌then◌else◌, Bool-cases, All, ℕ, zero, suc, ◌+◌, ◌-◌, ◌%◌, ◌≤◌, ◌<◌, ◌≡◌, refl, ap, subst, ◌∙◌,
  ◌⊎◌, inl, inr, true, false, ◌&&◌, List, [], ◌∷◌, arith,
}
use torvix.Prelude.Clock.{Time, weekday, after}
use torvix.Schedule.Cron.{
  due_at_or_before, Cron, matches_day, matches_weekday, clock_of, candidate, next_from, next,
}
use torvix.Schedule.Range.{IsInRange}

-- The time of day of the schedule exists on every day of the location: no change of its clocks skips
-- it. The time package then gives that very day and time, and the days follow each other.
pub record KeepsClock (c : Cron) : Type 0 where
  pub day_of_date : (d : ℕ) → c.location.civil_day (candidate c d) ≡ d
  pub clock_of_date : (d : ℕ) → c.location.civil_clock (candidate c d) ≡ clock_of c
  pub later : (t : Time) (d : ℕ) → c.location.civil_day t < d → t < candidate c d

-- The run of the day d is due after `now`.
abbrev pub IsDue : Cron → Time → ℕ → Type 0
IsDue c now d = (now < candidate c d) × (matches_weekday c (weekday d) ≡ true)

module _ (c : Cron) (keeps : KeepsClock c) (now : Time) where
  round :
      (n d : ℕ)
      → next_from (suc n) c (candidate c d) now ≡ (
          if after (candidate c d) now && matches_weekday c (weekday d)
          then candidate c d
          else next_from n c (candidate c (d + 1)) now)
  unfolding next_from
  round n d = rw (keeps.day_of_date d, keeps.clock_of_date d) refl

  -- The first due candidate, if one comes within the fuel.
  next_from_lem :
      (n d k : ℕ)
      → k < n
      → IsDue c now (d + k)
      → (j : ℕ) × (j ≤ k)
        × (next_from n c (candidate c d) now ≡ candidate c (d + j))
        × IsDue c now (d + j)
        × ((i : ℕ) → i < j → ¬ IsDue c now (d + i))
  next_from_lem zero d k h due = absurd (omega arith)
  next_from_lem (suc n) d k h due =
      elim (Bool-cases (after (candidate c d) now && matches_weekday c (weekday d))) [
        | inl e ↦
            let z : d + 0 ≡ d = omega arith in
            (
              0,
              omega arith,
              round n d ∙ rw (e, z) refl,
              rw z (ground arith, ground arith),
              λ i l. absurd (omega arith),
            )
        | inr e ↦ elim (ℕ-cases k) [
          | inl z ↦
              let s : d + k ≡ d = omega arith in absurd (not_due d e (subst (IsDue c now) s due))
          | inr (k', z) ↦
              let s : d + k ≡ d + 1 + k' = omega arith in
              let (j, le, at, due', first) =
                next_from_lem n (d + 1) k' (omega arith) (subst (IsDue c now) s due) in
              let up : d + 1 + j ≡ d + suc j = omega arith in
              (
                suc j,
                omega arith,
                round n d ∙ rw e (at ∙ ap (λ (x : ℕ). candidate c x) up),
                subst (IsDue c now) up due',
                not_before d j e first,
              )
        ]
      ]
    where
      ℕ-cases : (k : ℕ) → (k ≡ 0) ⊎ ((k' : ℕ) × (k ≡ suc k'))
      ℕ-cases zero = inl refl
      ℕ-cases (suc k) = inr (k, refl)

      not_due :
          (d : ℕ)
          → (after (candidate c d) now && matches_weekday c (weekday d)) ≡ false
          → ¬ IsDue c now d
      not_due d e (past, on) = ground arith

      not_before :
          (d j : ℕ)
          → (after (candidate c d) now && matches_weekday c (weekday d)) ≡ false
          → ((i : ℕ) → i < j → ¬ IsDue c now (d + 1 + i))
          → (i : ℕ) → i < suc j
          → ¬ IsDue c now (d + i)
      not_before d j e first zero l due =
          let z : d + 0 ≡ d = omega arith in not_due d e (subst (IsDue c now) z due)
      not_before d j e first (suc i) l due =
          let z : d + suc i ≡ d + 1 + i = omega arith in
          first i (omega arith) (subst (IsDue c now) z due)

  -- A set of weekdays has one among any seven days.
  matching_offset :
      (ws : List ℕ) (d : ℕ)
      → All (λ x. x < 7) ws
      → (k : ℕ) × (1 ≤ k) × (k ≤ 7) × (matches_day ws (weekday (d + k)) ≡ true)
  matching_offset [] d h = (1, omega arith, omega arith, refl)
  matching_offset (x ∷ xs) d h =
      let k : ℕ = (x + 6 - weekday d) % 7 + 1 in
      let on : weekday (d + k) ≡ x = omega (arith, h.0) in
      (k, omega arith, omega arith, ground arith)

  -- Some day of the coming seven matches.
  matching_day :
      IsInRange c
      → (k : ℕ) × (1 ≤ k)
        × (k ≤ 7)
        × (matches_weekday c (weekday (c.location.civil_day now + k)) ≡ true)
  unfolding matches_weekday
  matching_day r = matching_offset c.weekdays (c.location.civil_day now) r.weekdays

  -- Where the clocks keep the time of the schedule, Next returns the first of its runs after `now`:
  -- a run on a matching weekday, today or in the coming seven days, with no due run before it.
  pub next-IsDue :
      IsInRange c
      → (j : ℕ) × (j ≤ 7)
        × (next c now ≡ candidate c (c.location.civil_day now + j))
        × IsDue c now (c.location.civil_day now + j)
        × ((i : ℕ) → i < j → ¬ IsDue c now (c.location.civil_day now + i))
  unfolding next
  next-IsDue r =
      let today = c.location.civil_day now in
      let (k, low, high, on) = matching_day r in
      let (j, le, at, due, first) =
        next_from_lem 8 today k (omega arith) (keeps.later now (today + k) (omega arith), on) in
      (j, omega arith, at, due, first)

  -- A schedule is due at the time that Next gives.
  pub due_at_or_before-next : IsInRange c → due_at_or_before c (next c now) ≡ true
  unfolding due_at_or_before
  due_at_or_before-next r =
      let (j, le, at, due, first) = next-IsDue r in
      let d : ℕ = c.location.civil_day now + j in
      rw (at, keeps.day_of_date d, keeps.day_of_date d, due.1) (ground arith)
