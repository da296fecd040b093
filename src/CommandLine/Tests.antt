-- ===== src/CommandLine/Tests.antt =====
-- A command line.
use castle_plus.Prelude.{◌≡◌, refl, [], ◌∷◌, none, some, codes, equal, arith}
use castle_plus.Prelude.Decimal.{strtol}
use castle_plus.Prelude.Int.{pos, to_int}
use castle_plus.CommandLine.{Options, defaults, parse_args, set_option, set_from}
use castle_plus.CommandLine.Print.{show_options, parse_args-show_options}

abbrev options : Options
options = record defaults {
  port = 9000;
  threads = 4;
  routes_path = codes "routes.ini";
  timeout_sec = pos 5;
}

parse_args-show_options_example : parse_args (show_options options 5 30) defaults ≡ some options
parse_args-show_options_example =
    parse_args-show_options options defaults 5 30 refl refl (omega arith, omega arith) (omega arith)
      (omega arith, omega arith) (omega arith, omega arith, omega arith, omega arith)

parse_args-port : parse_args (codes "--port" ∷ codes "0" ∷ []) defaults ≡ none
unfolding parse_args set_option equal set_from strtol
parse_args-port = refl

-- A timeout of 2 ^ 32 seconds is cut to 0, which switches the timeouts off.
parse_args-timeout :
    parse_args (codes "--timeout" ∷ codes "4294967296" ∷ []) defaults
    ≡ some (record defaults { timeout_sec = pos 0 })
unfolding parse_args set_option equal set_from strtol to_int
parse_args-timeout = refl
