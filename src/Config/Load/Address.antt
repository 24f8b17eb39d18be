-- ===== src/Config/Load/Address.antt =====
-- Where Load takes the address of the HTTP server from.
use torvix.Prelude.{
  subst, Bool-cases, String, ◌≡◌, refl, ◌≢◌, inl, inr, true, false, Option, List, [], ◌∷◌, ◌==◌,
  eq_iff, if◌then◌else◌, arith,
}
use Prim.Native.String.{◌++◌}
use text.Mathlib.TextLemmas.{append-eq-nil_iff}
use torvix.Prelude.Text.{trim_space}
use torvix.Prelude.Words.{str_contains}
use torvix.Prelude.Float64.{Float64}
use torvix.Prelude.Result.{Result, ok}
use torvix.Config.Types.{Config}
use torvix.Config.Defaults.{text_or}
use torvix.Config.Environment.{env_value, normalize_http_port, apply_env_overrides, override_http}
use torvix.Config.Load.{initial, fill, load}

-- The trimmed value of the first variable that is set to more than white space; the empty text if none
-- is.
pub data FirstSet (env : String → String) : List String → String → Type 0 where
  nowhere : FirstSet env [] ""
  here :
      {name : String} {names : List String}
      → trim_space (env name) ≢ ""
      → FirstSet env (name ∷ names) (trim_space (env name))
  later :
      {name value : String} {names : List String}
      → trim_space (env name) ≡ ""
      → FirstSet env names value
      → FirstSet env (name ∷ names) value

env_value-FirstSet :
    (env : String → String) (names : List String) → FirstSet env names (env_value env names)
unfolding env_value
env_value-FirstSet env [] = nowhere
env_value-FirstSet env (name ∷ names) = elim (Bool-cases (trim_space (env name) == "")) [
  | inl e ↦ rw e (later ((eq_iff _ "").0 e) (env_value-FirstSet env names))
  | inr e ↦ rw e (here (λ p. ground (arith, eq_iff (trim_space (env name)) "")))
]

abbrev pub address_variables : List String
address_variables = "TORVIX_HTTP_ADDRESS" ∷ []

abbrev pub port_variables : List String
port_variables = "TORVIX_HTTP_PORT" ∷ "TORVIX_API_PORT" ∷ []

-- The address of the server, by the environment and the address of the file: that of its variable;
-- without it, that of a port, which gets a colon where it has none; without both, that of the file; and
-- else port 8080.
pub data Address (env : String → String) (file : String) : String → Type 0 where
  named : {a : String} → FirstSet env address_variables a → a ≢ "" → Address env file a
  whole :
      {p : String}
      → FirstSet env address_variables ""
      → FirstSet env port_variables p
      → p ≢ ""
      → str_contains p ":" ≡ true
      → Address env file p
  number :
      {p : String}
      → FirstSet env address_variables ""
      → FirstSet env port_variables p
      → p ≢ ""
      → str_contains p ":" ≡ false
      → Address env file (":" ++ p)
  from_file :
      FirstSet env address_variables ""
      → FirstSet env port_variables ""
      → file ≢ ""
      → Address env file file
  standard :
      FirstSet env address_variables ""
      → FirstSet env port_variables ""
      → file ≡ ""
      → Address env file ":8080"

module _ (env : String → String) (file : String) where
  filled : (a : String) → (a == "") ≡ false → a ≢ ""
  filled a e p = ground (arith, eq_iff a "")

  colon-ne-empty : (p : String) → ":" ++ p ≢ ""
  colon-ne-empty p e = filled ":" refl (append-eq-nil_iff.0 e).0

  colon_lem : (p : String) → ((":" ++ p) == "") ≡ false
  colon_lem p = ground (arith, eq_iff (":" ++ p) "", colon-ne-empty p)

  of_port :
      (p : String)
      → FirstSet env address_variables ""
      → FirstSet env port_variables p
      → (p == "") ≡ false
      → Address env file (text_or (normalize_http_port p) ":8080")
  unfolding normalize_http_port
  of_port p f g e = elim (Bool-cases (str_contains p ":")) [
    | inl c ↦ rw (c, e) (whole f g (filled p e) c)
    | inr c ↦ rw (c, colon_lem p) (number f g (filled p e) c)
  ]

  of_file :
      FirstSet env address_variables ""
      → FirstSet env port_variables ""
      → Address env file (text_or file ":8080")
  of_file f g = elim (Bool-cases (file == "")) [
    | inl e ↦ rw e (standard f g ((eq_iff file "").0 e))
    | inr e ↦ rw e (from_file f g (filled file e))
  ]

  resolved :
      (a p : String)
      → FirstSet env address_variables a
      → FirstSet env port_variables p
      → Address env file
          (text_or (if a == "" then if p == "" then file else normalize_http_port p else a) ":8080")
  resolved a p f g = elim (Bool-cases (a == "")) [
    | inr e ↦ rw (e, e) (named f (filled a e))
    | inl e ↦
        let f' : FirstSet env address_variables "" =
          subst (FirstSet env address_variables) ((eq_iff a "").0 e) f in
        elim (Bool-cases (p == "")) [
          | inr h ↦ rw (e, h) (of_port p f' g h)
          | inl h ↦
              let g' : FirstSet env port_variables "" =
                subst (FirstSet env port_variables) ((eq_iff p "").0 h) g in
              rw (e, h) (of_file f' g')
        ]
  ]

module _ {F : Type 0} ⦃fl : Float64 F⦄ (read_file : String → Result String)
    (unmarshal : String → Config F → Result (Config F)) (env : String → String)
    (parse_float : String → Option F) where
  -- Where the file can be read and parsed, Load returns a configuration whose address is the first that is set of these: the
  -- variable of the address; the first set of the two variables of the port, which gets a colon where it
  -- has none; the address of the file; and port 8080.
  pub load-Address :
      (path b : String) (c : Config F)
      → read_file path ≡ ok b
      → unmarshal b initial ≡ ok c
      → (r : Config F) × (load read_file unmarshal env parse_float path ≡ ok r)
        × Address env c.http.address r.http.address
  unfolding load fill apply_env_overrides override_http
  load-Address path b c e₁ e₂ = (
    fill (apply_env_overrides env parse_float c),
    rw (e₁, e₂) refl,
    resolved env c.http.address (env_value env address_variables) (env_value env port_variables)
        (env_value-FirstSet env address_variables) (env_value-FirstSet env port_variables),
  )
