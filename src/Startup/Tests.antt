-- ===== src/Startup/Tests.antt =====
-- A castle with one route and TLS on two cores, and the order in which it is stopped.
use castle_plus.Prelude.{
  ◌≡◌, refl, true, false, [], ◌∷◌, none, some, codes, equal, is_empty, split_last, ◌==◌,
}
use castle_plus.Prelude.Decimal.{strtol}
use castle_plus.Prelude.Result.{ok}
use castle_plus.Ini.{lower, lines, classify}
use castle_plus.CommandLine.{Options, defaults}
use castle_plus.Router.{Route, load, read_lines, read_line, set_key, check_backends}
use castle_plus.Startup.{
  World, Running, https, start_up, start_supervisor, choose_speech, open_loops, thread_count,
  limiter_of, set_up_tls, stop_order, numbered, control_server, connectivity_monitor, loop, worker,
}
use castle_plus.Startup.Checked.{IsChecked, start_up-IsChecked}

abbrev world : World
world = record {
  file = λ path. some (codes "[app]\nbackend = 127.0.0.1:9001\n");
  cores = 2;
  supervisor_starts = true;
  tls_init = λ cert key. true;
  listener = λ i. true;
  takes = λ i. i == 0;
  control_starts = true;
}

abbrev options : Options
options = record defaults {
  routes_path = codes "routes.ini";
  tls_cert = codes "cert.pem";
  tls_key = codes "key.pem";
}

abbrev app : Route
app = record {
  name = codes "app";
  host = [];
  path_prefix = codes "/";
  backend = record { host = codes "127.0.0.1"; port = 9001 };
}

abbrev castle : Running
castle = record {
  supervisor = none;
  speech = https (app ∷ []);
  loops = true ∷ false ∷ [];
  idle_timeouts = true;
  limiter = none;
  net_watch = true;
  control = true;
}

start_up-castle : start_up world options ≡ ok castle
unfolding start_up start_supervisor choose_speech open_loops thread_count limiter_of set_up_tls load
    read_lines read_line set_key check_backends lines classify strtol lower equal split_last
    is_empty
start_up-castle = refl

start_up-IsChecked_example : IsChecked world options castle
start_up-IsChecked_example = start_up-IsChecked world options castle start_up-castle

stop_order-castle :
    stop_order castle
    ≡ control_server ∷ connectivity_monitor ∷ loop 0 ∷ loop 1 ∷ worker 0 ∷ worker 1 ∷ []
unfolding stop_order numbered
stop_order-castle = refl
