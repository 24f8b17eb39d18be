-- ===== src/Prelude/Text.antt =====
-- Go's `strings` and `strconv` functions that the program calls. Letters are those of ASCII, and
-- blanks are the ASCII ones: on other letters and blanks Go's functions do more.
use Prim.Native.Nat.{ℕ, zero, suc, ◌+◌, ◌-◌, ◌/◌, ◌%◌, compare, Ordering}
use Prim.Native.Char.{Char, char, code, nul}
use Prim.Native.String.{String, ◌++◌}
use mathlib.Core.Bool.{Bool, ◌&&◌, ◌||◌}
use mathlib.Core.List.{List, [], ◌∷◌}
use mathlib.Core.Path.{◌≡◌, refl}
use mathlib.Core.Logic.{◌≢◌, inl, inr}
use text.Mathlib.TextLemmas.{cons-ne-nil, append-ne-nil_of_right_ne-nil}
use torvix.Prelude.Tests.{Bool-cases, ltb, leb, ◌=ℕ◌, if◌then◌else◌}

-- The character of a code below D800, `nul` past it.
abbrev of_code_at : (n : ℕ) (o : Ordering) → compare n 55296 ≡ o → Char
of_code_at n Ordering.lt e = char n (rw e tt)
of_code_at n _ e = nul

abbrev pub of_code : ℕ → Char
of_code n = of_code_at n (compare n 55296) refl

abbrev lower_char : Char → Char
lower_char c = if leb b'A' (code c) && leb (code c) b'Z' then of_code (code c + 32) else c

abbrev upper_char : Char → Char
upper_char c = if leb b'a' (code c) && leb (code c) b'z' then of_code (code c - 32) else c

-- strings.ToLower
unfoldable pub to_lower : String → String
to_lower String.[] = ""
to_lower (String.◌∷◌ c s) = String.◌∷◌ (lower_char c) (to_lower s)

-- strings.ToUpper
unfoldable pub to_upper : String → String
to_upper String.[] = ""
to_upper (String.◌∷◌ c s) = String.◌∷◌ (upper_char c) (to_upper s)

-- strings.ToUpper(s[:1]) + s[1:] of a text whose first byte is a character
unfoldable pub upper_first : String → String
upper_first String.[] = ""
upper_first (String.◌∷◌ c s) = String.◌∷◌ (upper_char c) s

abbrev pub is_blank : Char → Bool
is_blank c = code c =ℕ 32 || (leb 9 (code c) && leb (code c) 13)

unfoldable pub trim_left : String → String
trim_left String.[] = ""
trim_left (String.◌∷◌ c s) = let rest = trim_left s in if is_blank c then rest else String.◌∷◌ c s

-- A blank at the end is dropped once nothing but blanks follows it.
unfoldable pub trim_right : String → String
trim_right String.[] = ""
trim_right (String.◌∷◌ c s) =
    let rest = trim_right s in
    elim rest [
      | String.[] ↦ if is_blank c then "" else String.◌∷◌ c ""
      | String.◌∷◌ d r ↦ String.◌∷◌ c (String.◌∷◌ d r)
    ]

-- strings.TrimSpace
unfoldable pub trim_space : String → String
unfolding trim_left trim_right
trim_space s = trim_right (trim_left s)

-- strings.Join
unfoldable pub join : List String → String → String
join [] sep = ""
join (x ∷ []) sep = x
join (x ∷ y ∷ r) sep = x ++ sep ++ join (y ∷ r) sep

abbrev pub digit : ℕ → String
digit n = String.◌∷◌ (of_code (n % 10 + 48)) ""

-- The decimal digits of n, with fuel above the number of digits.
unfoldable pub decimal_fuel : ℕ → ℕ → String
decimal_fuel zero n = ""
decimal_fuel (suc f) n =
    let rest = decimal_fuel f (n / 10) in if ltb n 10 then digit n else rest ++ digit n

-- strconv.Itoa, and `%d` of fmt.Sprintf
unfoldable pub itoa : ℕ → String
unfolding decimal_fuel
itoa n = decimal_fuel (suc n) n

pub itoa-ne-empty : (n : ℕ) → itoa n ≢ ""
unfolding itoa
itoa-ne-empty n = elim (Bool-cases (ltb n 10)) [
  | inl e ↦ rw e (cons-ne-nil _ _)
  | inr e ↦ rw e (append-ne-nil_of_right_ne-nil (decimal_fuel n (n / 10)) (cons-ne-nil _ _))
]

itoa_runs : itoa 1203 ≡ "1203"
unfolding itoa
itoa_runs = refl

lower_runs : to_lower "Slack-Ü" ≡ "slack-Ü"
unfolding to_lower
lower_runs = refl

trim_runs : trim_space "  a b \t" ≡ "a b"
unfolding trim_space
trim_runs = refl
