-- ===== src/Core/Tests.antt =====
-- A command line with two options.
use io_t_delivery_fleet_moni.Prelude.{
  ℕ, refl, List, [], ◌∷◌, Option, none, some, true, codes, ltb, text_eq, value_at,
}
use io_t_delivery_fleet_moni.Http.Text.{from_chars}
use io_t_delivery_fleet_moni.Core.Config
use io_t_delivery_fleet_moni.Core.Config.{
  ℤ, pos, Streams, returned, default_config, from_args, config_path, apply_arguments, apply,
  validate,
}
use io_t_delivery_fleet_moni.Core.Config.Ranges.{IsValid, from_args-IsValid}

abbrev without_rest : Option ℕ → Option (ℕ × List ℕ)
without_rest none = none
without_rest (some n) = some (n, [])

abbrev as_int : Option ℕ → Option (ℤ × List ℕ)
as_int none = none
as_int (some n) = some (pos n, [])

-- Streams that extract digits only, with natural numbers for doubles.
abbrev digits_only : Streams
digits_only = record {
  Double = ℕ;
  is_finite = λ _. true;
  less = ltb;
  zero_double = 0;
  one_double = 1;
  five = 5;
  ten = 10;
  extract_int = λ text. as_int (from_chars text);
  extract_u32 = λ text. without_rest (from_chars text);
  extract_u64 = λ text. without_rest (from_chars text);
  extract_double = λ text. without_rest (from_chars text);
}

abbrev arguments : List (List ℕ)
arguments = codes "--log-path" ∷ codes "log" ∷ codes "--storage-directory" ∷ codes "data" ∷ []

abbrev chosen : Config.Config digits_only
chosen = record (default_config digits_only) {
  log_path = codes "log";
  storage_directory = codes "data";
}

from_args-IsValid_example : IsValid digits_only chosen
unfolding from_args config_path apply_arguments value_at text_eq apply validate
from_args-IsValid_example = from_args-IsValid digits_only (λ _. none) arguments chosen refl
