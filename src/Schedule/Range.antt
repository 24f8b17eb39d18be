-- ===== src/Schedule/Range.antt =====
-- A schedule that parses is in range.
use torvix.Prelude.{
  ltb, Bool-cases, All, ℕ, ◌≤◌, ◌<◌, String, ◌≡◌, subst, inl, inr, not, ◌||◌, Option, none, some,
  List, [], ◌∷◌, arith, ◌==◌,
}
use torvix.Prelude.Int.{ℤ, pos, negsuc}
use torvix.Prelude.Text.{trim_space}
use torvix.Prelude.Clock.{Location}
use torvix.Prelude.Words.{fields, split, atoi}
use torvix.Schedule.Cron.{
  Parsed, parsed, refused, ◌>>=◌, Cron, exact, parse_exact_cron_int, day_number, parse_days,
  parse_cron_weekdays, or_utc, of_fields, parse_report_cron,
}

pub record IsInRange (c : Cron) : Type 0 where
  pub minute : c.minute ≤ 59
  pub hour : c.hour ≤ 23
  pub weekdays : All (λ d. d < 7) c.weekdays

-- What a parse promises of its value.
abbrev Gives {ℓ} : {A : Type 0} → (A → Type ℓ) → Parsed A → Type ℓ
Gives P (parsed a) = P a
Gives P (refused e) = Unit

then-Gives :
    {A B : Type 0} (P : A → Type 0) (Q : B → Type 0) (r : Parsed A) (f : A → Parsed B)
    → Gives P r
    → ((a : A) → P a → Gives Q (f a))
    → Gives Q (r >>= f)
then-Gives P Q (parsed a) f p h = h a p
then-Gives P Q (refused e) f p h = tt

exact-Gives :
    (high : ℕ) (name : String) (n : Option ℤ) → Gives (λ m. m ≤ high) (exact 0 high name n)
exact-Gives high name none = tt
exact-Gives high name (some (negsuc n)) = tt
exact-Gives high name (some (pos n)) = elim (Bool-cases (ltb n 0 || ltb high n)) [
  | inl e ↦ rw e tt
  | inr e ↦ rw e (ground arith)
]

day_number-Gives : (n : Option ℤ) → Gives (λ d. d < 7) (day_number n)
day_number-Gives none = tt
day_number-Gives (some (negsuc n)) = tt
day_number-Gives (some (pos n)) = elim (Bool-cases (ltb 7 n)) [
  | inl e ↦ rw e tt
  | inr e ↦ rw e (ground arith)
]

parse_days-Gives : (parts : List String) → Gives (λ ds. All (λ d. d < 7) ds) (parse_days parts)
unfolding parse_days
parse_days-Gives [] = tt
parse_days-Gives (part ∷ rest) =
    then-Gives (λ d. d < 7) _ (day_number (atoi (trim_space part))) _
      (day_number-Gives (atoi (trim_space part)))
      (λ d p.
        then-Gives (λ ds. All (λ d. d < 7) ds) _ (parse_days rest) _ (parse_days-Gives rest)
          (λ ds ps. (p, ps)))

parse_cron_weekdays-Gives :
    (value : String) → Gives (λ ds. All (λ d. d < 7) ds) (parse_cron_weekdays value)
unfolding parse_cron_weekdays
parse_cron_weekdays-Gives value = elim (Bool-cases (value == "*")) [
  | inl e ↦ rw e tt
  | inr e ↦ rw e (parse_days-Gives (split "," value))
]

of_fields-Gives : (loc : Location) (fs : List String) → Gives IsInRange (of_fields loc fs)
unfolding parse_exact_cron_int
of_fields-Gives loc [] = tt
of_fields-Gives loc (a ∷ []) = tt
of_fields-Gives loc (a ∷ b ∷ []) = tt
of_fields-Gives loc (a ∷ b ∷ c ∷ []) = tt
of_fields-Gives loc (a ∷ b ∷ c ∷ d ∷ []) = tt
of_fields-Gives loc (a ∷ b ∷ c ∷ d ∷ e ∷ []) =
    then-Gives (λ m. m ≤ 59) _ (exact 0 59 "minute" (atoi a)) _ (exact-Gives 59 "minute" (atoi a))
      (λ m pm.
        then-Gives (λ h. h ≤ 23) _ (exact 0 23 "hour" (atoi b)) _ (exact-Gives 23 "hour" (atoi b))
          (λ h ph.
            then-Gives (λ ds. All (λ d. d < 7) ds) _ (parse_cron_weekdays e) _
              (parse_cron_weekdays-Gives e)
              (λ ds pd. elim (Bool-cases (not (c == "*") || not (d == "*"))) [
                | inl q ↦ rw q tt
                | inr q ↦ rw q (record { minute = pm; hour = ph; weekdays = pd })
              ])))
of_fields-Gives loc (a ∷ b ∷ c ∷ d ∷ e ∷ f ∷ fs) = tt

-- Every schedule that is accepted has a minute up to 59, an hour up to 23, and weekdays from 0 to 6,
-- whatever the text.
pub parse_report_cron-IsInRange :
    (expr : String) (location : Option Location) (c : Cron)
    → parse_report_cron expr location ≡ parsed c
    → IsInRange c
unfolding parse_report_cron
parse_report_cron-IsInRange expr location c h =
    subst (Gives IsInRange) h (of_fields-Gives (or_utc location) (fields expr))
