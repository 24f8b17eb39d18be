-- ===== src/Config/Tests.antt =====
-- The theorems on the configuration at an empty file and a few variables.
use torvix.Prelude.{if◌then◌else◌, String, ◌≡◌, refl, true, Option, none, [], ◌∷◌, ◌==◌}
use torvix.Prelude.Int.{ℤ, pos}
use torvix.Prelude.Whole.{whole_floats}
use torvix.Prelude.Result.{ok}
use torvix.Prelude.Text.{trim_space}
use torvix.Config.Types.{Config, Provider}
use torvix.Config.Environment.{env_value, apply_env_overrides, split_csv}
use torvix.Config.Limits.{ingestion_limits}
use torvix.Config.Limits.Bounds.{IsBounded, IsSample, ingestion_limits-IsBounded}
use torvix.Config.Load.{initial, load, no_provider}
use torvix.Config.Load.Address.{Address, load-Address}
use torvix.Config.Load.Ready.{IsReady, load-IsReady}

abbrev unset : String → String
unset name = " "

abbrev port : String → String
port name = if name == "TORVIX_API_PORT" then " 9000 " else ""

abbrev no_float : String → Option ℤ
no_float s = none

port_is_address : (apply_env_overrides port no_float (initial {F = ℤ})).http.address ≡ ":9000"
unfolding apply_env_overrides env_value trim_space
port_is_address = refl

keys_are_split : split_csv "keep, ,retain" ≡ "keep" ∷ "retain" ∷ []
unfolding split_csv
keys_are_split = refl

abbrev sample : Provider
sample = record no_provider { sample_mode = true; max_records_per_batch = pos 500 }

ingestion_limits-IsBounded_example :
    let l = ingestion_limits no_float sample in IsBounded l × IsSample l
ingestion_limits-IsBounded_example = ingestion_limits-IsBounded no_float sample

load-IsReady_example :
    (r : Config ℤ) × (load (λ path. ok "") (λ b c. ok c) port no_float "config.yaml" ≡ ok r)
    × IsReady r
unfolding whole_floats
load-IsReady_example =
    load-IsReady (λ path. ok "") (λ b c. ok c) port no_float "config.yaml" "" initial refl refl refl

load-Address_example :
    (r : Config ℤ) × (load (λ path. ok "") (λ b c. ok c) port no_float "config.yaml" ≡ ok r)
    × Address port "" r.http.address
load-Address_example =
    load-Address (λ path. ok "") (λ b c. ok c) port no_float "config.yaml" "" initial refl refl
