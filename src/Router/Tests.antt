-- ===== src/Router/Tests.antt =====
-- The routing table on concrete files.
use castle_plus.Prelude.{
  ◌≡◌, refl, [], ◌∷◌, none, some, Bytes, codes, ◌⊎◌, All, equal, is_empty, starts_with, split_first,
  split_last, false,
}
use castle_plus.Prelude.Decimal.{strtol, decimal}
use castle_plus.Prelude.Result.{ok, err}
use castle_plus.Ini.{lower, lines, classify}
use castle_plus.Router.Load.{IsReady, load-IsReady}
use castle_plus.Router.Match.{Best, match-Best}
use castle_plus.Router.Refusal.{Refusal, load-Refusal}
use castle_plus.Router.{
  Route, at_line, port_range, set_key, read_line, read_lines, check_backends, load, error_text,
  normalize_host, matches, beats, best_route, match,
}

abbrev file : Bytes
file =
    codes
      "# demo\n[app]\nhost = App.Example\npath = /api\nbackend = 127.0.0.1:9001\n[rest]\nbackend=10.0.0.2:80\n"

abbrev app : Route
app = record {
  name = codes "app";
  host = codes "app.example";
  path_prefix = codes "/api";
  backend = record { host = codes "127.0.0.1"; port = 9001 };
}

abbrev rest : Route
rest = record {
  name = codes "rest";
  host = [];
  path_prefix = codes "/";
  backend = record { host = codes "10.0.0.2"; port = 80 };
}

load-file : load (some file) ≡ ok (app ∷ rest ∷ [])
unfolding load read_lines read_line set_key check_backends lines classify strtol lower equal
    split_last is_empty
load-file = refl

abbrev bad_file : Bytes
bad_file = codes "[app]\n\nbackend = 127.0.0.1:0\n"

load-bad_file : load (some bad_file) ≡ err (at_line 3 port_range)
unfolding load read_lines read_line set_key lines classify strtol equal split_last
load-bad_file = refl

error_text-bad_file :
    error_text (codes "r.conf") (at_line 3 port_range) ≡ codes "r.conf:3: backend port out of range"
unfolding error_text decimal
error_text-bad_file = refl

match-app : match (app ∷ rest ∷ []) (codes "APP.example:443") (codes "/api/x") ≡ some app.backend
unfolding match best_route normalize_host matches beats equal is_empty starts_with split_first lower
match-app = refl

load-IsReady_example : All IsReady (app ∷ rest ∷ [])
load-IsReady_example = load-IsReady (some file) (app ∷ rest ∷ []) load-file

load-Refusal_example : Refusal (some bad_file) (at_line 3 port_range)
load-Refusal_example = load-Refusal (some bad_file) (at_line 3 port_range) load-bad_file

match-Best_example :
    ((match (app ∷ rest ∷ []) (codes "other") (codes "/api") ≡ none)
      × All
          (λ q. matches (normalize_host (codes "other")) (codes "/api") q ≡ false)
          (app ∷ rest ∷ []))
    ⊎ ((r : Route) × (match (app ∷ rest ∷ []) (codes "other") (codes "/api") ≡ some r.backend)
        × Best (normalize_host (codes "other")) (codes "/api") (app ∷ rest ∷ []) r)
match-Best_example = match-Best (app ∷ rest ∷ []) (codes "other") (codes "/api")
