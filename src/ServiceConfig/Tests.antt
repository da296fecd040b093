-- ===== src/ServiceConfig/Tests.antt =====
-- The manifest parser on concrete files.
use castle_plus.Prelude.{
  ◌≡◌, refl, false, [], ◌∷◌, some, Bytes, codes, All, equal, is_empty, front, arith, split_last,
}
use castle_plus.Prelude.Decimal.{strtol}
use castle_plus.Prelude.Int.{pos, to_int}
use castle_plus.Prelude.Result.{ok}
use castle_plus.Ini.{lower, lines, classify}
use castle_plus.ServiceConfig.Accepts.{IsReady, parse_services_file-IsReady}
use castle_plus.ServiceConfig.Args.{quote_args, split_args-quote_args}
use castle_plus.ServiceConfig.{
  ServiceConfig, parse_bool, split_args, set_key, read_line, read_lines, check_execs,
  parse_services_file,
}

abbrev file : Bytes
file =
    codes
      "[web]\nexec = /usr/bin/web\nargs = -p \"a b\" 7\nautorestart = Off\nhealth_tcp = 127.0.0.1:9001\nbackoff_max = 60s\n"

abbrev web : ServiceConfig
web = record {
  name = codes "web";
  exec = codes "/usr/bin/web";
  args = codes "-p" ∷ codes "a b" ∷ codes "7" ∷ [];
  workdir = [];
  autorestart = false;
  health_host = codes "127.0.0.1";
  health_port = 9001;
  health_interval_sec = pos 5;
  backoff_min_sec = pos 1;
  backoff_max_sec = pos 60;
}

parse_services_file-file : parse_services_file (some file) ≡ ok (web ∷ [])
unfolding parse_services_file read_lines read_line set_key check_execs lines classify strtol lower
    equal split_last is_empty front parse_bool split_args to_int
parse_services_file-file = refl

parse_services_file-IsReady_example : All IsReady (web ∷ [])
parse_services_file-IsReady_example =
    parse_services_file-IsReady (some file) (web ∷ []) parse_services_file-file

split_args-quote_args_example :
    split_args (quote_args (codes "a b" ∷ [] ∷ [])) ≡ codes "a b" ∷ [] ∷ []
split_args-quote_args_example = split_args-quote_args (codes "a b" ∷ [] ∷ []) (omega arith)
