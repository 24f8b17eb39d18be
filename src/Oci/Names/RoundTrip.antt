-- ===== src/Oci/Names/RoundTrip.antt =====
-- costReportNumber reads back the number that costReportStartName writes.
use torvix.Prelude.{
  ltb, leb, ◌=ℕ◌, ltb→lt, lt→ltb, Bool-cases, ℕ, zero, suc, ◌+◌, ◌-◌, ◌*◌, ◌/◌, ◌%◌, ◌^◌, ◌<◌,
  String, ◌≡◌, refl, sym, ap, ◌∙◌, ◌≢◌, inl, inr, true, false, ◌&&◌, Option, none, some, arith,
  ◌==◌, eq_iff,
}
use Prim.Native.String.{◌++◌, len}
use Prim.Native.Char.{code}
use text.Mathlib.TextLemmas.{nil-append, cons-append, append-ne-nil_of_right_ne-nil}
use torvix.Prelude.Text.{itoa, itoa-ne-empty, decimal_fuel, digit, of_code}
use torvix.Prelude.Words.{cut_prefix, has_prefix, trim_prefix, digits, digits_from}
use torvix.Oci.Names.{
  cost_report_prefix, zeros, padded, cost_report_start_name, before_hyphen, trim_suffix,
  cost_report_number,
}

code-digit : (d : ℕ) → d < 10 → code (of_code (d + 48)) ≡ d + 48
code-digit zero h = refl
code-digit (suc zero) h = refl
code-digit (suc (suc zero)) h = refl
code-digit (suc (suc (suc zero))) h = refl
code-digit (suc (suc (suc (suc zero)))) h = refl
code-digit (suc (suc (suc (suc (suc zero))))) h = refl
code-digit (suc (suc (suc (suc (suc (suc zero)))))) h = refl
code-digit (suc (suc (suc (suc (suc (suc (suc zero))))))) h = refl
code-digit (suc (suc (suc (suc (suc (suc (suc (suc zero)))))))) h = refl
code-digit (suc (suc (suc (suc (suc (suc (suc (suc (suc zero))))))))) h = refl
code-digit (suc (suc (suc (suc (suc (suc (suc (suc (suc (suc d)))))))))) h =
    elim (too_large d h) [ ]
  where
    too_large : (d : ℕ) → suc (suc (suc (suc (suc (suc (suc (suc (suc (suc d))))))))) < 10 → ⊥
    too_large d h = omega arith

abbrev next_digit : Option ℕ → ℕ → Option ℕ
next_digit none n = none
next_digit (some v) n = some (10 * v + n % 10)

digits_from-digit : (a n : ℕ) → digits_from a (digit n) ≡ some (10 * a + n % 10)
digits_from-digit a n = rw (code-digit (n % 10) (omega arith)) (ground arith)

digits_from-snoc :
    (a : ℕ) (s : String) (n : ℕ) → digits_from a (s ++ digit n) ≡ next_digit (digits_from a s) n
digits_from-snoc a String.[] n = rw (nil-append (digit n)) (digits_from-digit a n)
digits_from-snoc a (String.◌∷◌ c s) n =
    rw (cons-append c s (digit n)) (elim (Bool-cases (leb b'0' (code c) && leb (code c) b'9')) [
      | inl e ↦ rw e (digits_from-snoc (10 * a + (code c - b'0')) s n)
      | inr e ↦ rw e refl
    ])

last_digit : (n : ℕ) → n < 10 → 10 * 0 + n % 10 ≡ n
last_digit n h = omega arith

fewer : (f n : ℕ) → n < suc f → ltb n 10 ≡ false → n / 10 < f
fewer f n h e = ground arith

shifted : (n : ℕ) → 10 * (n / 10) + n % 10 ≡ n
shifted n = omega arith

none_left : (n : ℕ) → n < 0 → ⊥
none_left n h = omega arith

digits_from-decimal_fuel : (f n : ℕ) → n < f → digits_from 0 (decimal_fuel f n) ≡ some n
unfolding decimal_fuel
digits_from-decimal_fuel zero n h = elim (none_left n h) [ ]
digits_from-decimal_fuel (suc f) n h = elim (Bool-cases (ltb n 10)) [
  | inl e ↦ rw e (digits_from-digit 0 n ∙ ap some (last_digit n (ltb→lt n 10 e)))
  | inr e ↦ rw e (
      digits_from-snoc 0 (decimal_fuel f (n / 10)) n
      ∙ rw (digits_from-decimal_fuel f (n / 10) (fewer f n h e)) (ap some (shifted n)))
]

digits_from-zeros : (k : ℕ) (s : String) → digits_from 0 (zeros k ++ s) ≡ digits_from 0 s
digits_from-zeros zero s = rw (nil-append s) refl
digits_from-zeros (suc k) s = rw (cons-append "0" (zeros k) s) (digits_from-zeros k s)

digits_from-padded : (n : ℕ) → digits_from 0 (padded n) ≡ some n
unfolding padded itoa
digits_from-padded n =
    digits_from-zeros (16 - len (itoa n)) (itoa n)
    ∙ digits_from-decimal_fuel (suc n) n (omega arith)

some-ne-none : {A : Type 0} (a : A) → none ≡ some a → ⊥
some-ne-none a e = cc

-- A text that is read as digits has no hyphen.
before_hyphen-digits : (a v : ℕ) (s : String) → digits_from a s ≡ some v → before_hyphen s ≡ s
unfolding before_hyphen
before_hyphen-digits a v String.[] h = refl
before_hyphen-digits a v (String.◌∷◌ c s) h =
    elim (Bool-cases (leb b'0' (code c) && leb (code c) b'9')) [
      | inl e ↦
          let rest = before_hyphen-digits (10 * a + (code c - b'0')) v s (simp e at h) in
          let no_hyphen : (code c =ℕ b'-') ≡ false = ground arith in rw (no_hyphen, rest) refl
      | inr e ↦ elim (some-ne-none v (simp e at h)) [ ]
    ]

-- A text that is read as digits has no suffix that is not.
trim_suffix-digits :
    (suffix : String)
    → ((a : ℕ) → digits_from a suffix ≡ none)
    → (a v : ℕ) (s : String) → digits_from a s ≡ some v
    → trim_suffix s suffix ≡ s
unfolding trim_suffix
trim_suffix-digits suffix k a v String.[] h = refl
trim_suffix-digits suffix k a v (String.◌∷◌ c s) h = elim (Bool-cases (String.◌∷◌ c s == suffix)) [
  | inl e ↦
      elim (some-ne-none v
        (sym (k a) ∙ ap (digits_from a) (sym ((eq_iff (String.◌∷◌ c s) suffix).0 e)) ∙ h)) [ ]
  | inr e ↦ elim (Bool-cases (leb b'0' (code c) && leb (code c) b'9')) [
    | inl d ↦
        let rest = trim_suffix-digits suffix k (10 * a + (code c - b'0')) v s (simp d at h) in
        rw (e, rest) refl
    | inr d ↦ elim (some-ne-none v (simp d at h)) [ ]
  ]
]

cut_prefix-append : (p s : String) → cut_prefix p (p ++ s) ≡ some s
unfolding cut_prefix
cut_prefix-append String.[] s = rw (nil-append s) refl
cut_prefix-append (String.◌∷◌ c p) s =
    let same : (code c =ℕ code c) ≡ true = ground arith in
    rw (cons-append c p s, same) (cut_prefix-append p s)

digits-from : (s : String) → s ≢ "" → digits s ≡ digits_from 0 s
digits-from String.[] h = elim (h refl) [ ]
digits-from (String.◌∷◌ c s) h = refl

padded-ne-empty : (n : ℕ) → padded n ≢ ""
unfolding padded
padded-ne-empty n = append-ne-nil_of_right_ne-nil (zeros (16 - len (itoa n))) (itoa-ne-empty n)

-- costReportNumber gives back every 64-bit number from the name that costReportStartName makes of it.
pub cost_report_number-start_name :
    (n : ℕ) → n < 2 ^ 64 → cost_report_number (cost_report_start_name n) ≡ some n
unfolding cost_report_number cost_report_start_name has_prefix trim_prefix
cost_report_number-start_name n h =
    let read = digits_from-padded n in
    rw
      (
        cut_prefix-append cost_report_prefix (padded n),
        before_hyphen-digits 0 n (padded n) read,
        trim_suffix-digits ".gz" (λ a. refl) 0 n (padded n) read,
        trim_suffix-digits ".csv" (λ a. refl) 0 n (padded n) read,
        digits-from (padded n) (padded-ne-empty n),
        read,
        lt→ltb n (2 ^ 64) h,
      )
      refl
