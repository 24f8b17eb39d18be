-- ===== src/Prelude/Words.antt =====
-- Functions of Go's `strings` and `strconv` that take texts apart, with the blanks of ASCII.
use torvix.Prelude.{
  ◌||◌, ltb, leb, ◌=ℕ◌, if◌then◌else◌, ℕ, ◌+◌, ◌-◌, ◌*◌, ◌^◌, String, Bool, true, false, ◌&&◌,
  Option, none, some, List, [], ◌∷◌, ◌==◌,
}
use Prim.Native.Char.{Char, code}
use torvix.Prelude.Int.{ℤ, pos, neg}
use torvix.Prelude.Text.{is_blank}

-- A word that is not empty, before the others.
abbrev push : String → List String → List String
push w ws = if w == "" then ws else w ∷ ws

-- The word at the start of the text, which is empty before a separator, and the words behind it.
abbrev field_parts : (Char → Bool) → String → String × List String
field_parts sep String.[] = ("", [])
field_parts sep (String.◌∷◌ c s) =
    let (w, ws) = field_parts sep s in if sep c then ("", push w ws) else (String.◌∷◌ c w, ws)

-- strings.FieldsFunc
unfoldable pub fields_func : (Char → Bool) → String → List String
fields_func sep s = let (w, ws) = field_parts sep s in push w ws

-- strings.Fields
unfoldable pub fields : String → List String
unfolding fields_func
fields s = fields_func (λ c. is_blank c) s

abbrev split_parts : Char → String → String × List String
split_parts sep String.[] = ("", [])
split_parts sep (String.◌∷◌ c s) =
    let (w, ws) = split_parts sep s in
    if code c =ℕ code sep then ("", w ∷ ws) else (String.◌∷◌ c w, ws)

-- strings.Split by one character
unfoldable pub split : Char → String → List String
split sep s = let (w, ws) = split_parts sep s in w ∷ ws

-- The value of decimal digits, read behind the value so far.
abbrev pub digits_from : ℕ → String → Option ℕ
digits_from n String.[] = some n
digits_from n (String.◌∷◌ c s) =
    let rest = digits_from (10 * n + (code c - b'0')) s in
    if leb b'0' (code c) && leb (code c) b'9' then rest else none

abbrev pub digits : String → Option ℕ
digits String.[] = none
digits (String.◌∷◌ c s) = digits_from 0 (String.◌∷◌ c s)

abbrev signed : Bool → Option ℕ → Option ℤ
signed minus none = none
signed true (some n) = if leb n (2 ^ 63) then some (neg (pos n)) else none
signed false (some n) = if ltb n (2 ^ 63) then some (pos n) else none

-- strconv.Atoi; an error is `none`
unfoldable pub atoi : String → Option ℤ
unfolding neg
atoi String.[] = none
atoi (String.◌∷◌ c s) =
    if code c =ℕ b'-'
    then signed true (digits s)
    else if code c =ℕ b'+'
    then signed false (digits s)
    else signed false (digits (String.◌∷◌ c s))

-- strings.TrimPrefix, where `none` says that the text has no such prefix
unfoldable pub cut_prefix : String → String → Option String
cut_prefix String.[] s = some s
cut_prefix (String.◌∷◌ p ps) String.[] = none
cut_prefix (String.◌∷◌ p ps) (String.◌∷◌ c s) =
    let rest = cut_prefix ps s in if code p =ℕ code c then rest else none

abbrev or_else : {A : Type 0} → A → Option A → A
or_else d none = d
or_else d (some a) = a

-- strings.TrimPrefix
unfoldable pub trim_prefix : String → String → String
unfolding cut_prefix
trim_prefix s prefix = or_else s (cut_prefix prefix s)

abbrev found : {A : Type 0} → Option A → Bool
found none = false
found (some a) = true

-- strings.HasPrefix
unfoldable pub has_prefix : String → String → Bool
unfolding cut_prefix
has_prefix s prefix = found (cut_prefix prefix s)

-- strings.HasSuffix
unfoldable pub has_suffix : String → String → Bool
has_suffix String.[] suffix = suffix == ""
has_suffix (String.◌∷◌ c s) suffix = String.◌∷◌ c s == suffix || has_suffix s suffix

-- strings.Contains
unfoldable pub str_contains : String → String → Bool
unfolding cut_prefix
str_contains String.[] needle = needle == ""
str_contains (String.◌∷◌ c s) needle =
    found (cut_prefix needle (String.◌∷◌ c s)) || str_contains s needle

-- strings.ReplaceAll of one character by nothing
unfoldable pub remove : Char → String → String
remove d String.[] = ""
remove d (String.◌∷◌ c s) =
    let rest = remove d s in if code c =ℕ code d then rest else String.◌∷◌ c rest

-- strconv.ParseBool; an error is `none`
unfoldable pub parse_bool : String → Option Bool
parse_bool s =
    if s == "1" || s == "t" || s == "T" || s == "true" || s == "TRUE" || s == "True"
    then some true
    else if s == "0" || s == "f" || s == "F" || s == "false" || s == "FALSE" || s == "False"
    then some false
    else none

-- The last of some words.
unfoldable pub last_of : List String → Option String
last_of [] = none
last_of (w ∷ []) = some w
last_of (w ∷ v ∷ ws) = last_of (v ∷ ws)
