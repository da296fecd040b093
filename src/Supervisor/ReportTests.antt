-- ===== src/Supervisor/ReportTests.antt =====
-- The report on two services, and the row of a service with a long name.
use castle_plus.Prelude.{
  ◌≡◌, refl, true, false, [], ◌∷◌, some, codes, replicate, pad, arith, some_eq,
}
use castle_plus.Prelude.Decimal.{decimal}
use castle_plus.Ini.{lines}
use castle_plus.ServiceConfig.{ServiceConfig, new_service}
use castle_plus.Prelude.Int.{pos}
use castle_plus.Service.{Entry, running, other}
use castle_plus.Supervisor.Report.{
  service_text, state_text, health_text, pid_text, service_row, services_header, render_services,
}
use castle_plus.Supervisor.Rows.{is_one_line, IsShort, texts, render_services-lines}

abbrev web : ServiceConfig
web = record (new_service (codes "web")) { exec = codes "/bin/web"; health_port = 80 }

abbrev idle : Entry
idle = record {
  service = record {
    cfg = web;
    pid = some 41;
    state = running;
    restart_count = 3;
    current_backoff_sec = pos 0;
    wants_restart = false;
    health_known = true;
    healthy = true;
    failure_count = 0;
    recent_failures = [];
    ever_failed = false;
    last_failure_mono = 0;
    last_failure_reason = other;
    is_down = false;
    down_since_mono = 0;
    next_restart = pos 0;
    last_start = 0;
    last_health = 0;
  };
  uptime = record { name = codes "web"; running = true; since = 0 };
}

idle-IsShort : IsShort idle.service
unfolding is_one_line
idle-IsShort = record {
  one_line = refl;
  name_short = omega arith;
  pid_in_range = λ p e. let q = some_eq e in omega (arith, q);
  restarts_in_range = omega arith;
}

service_text-idle :
    service_text idle.service ≡ codes "web                  running      41       up       3"
unfolding service_text state_text health_text pid_text pad replicate decimal
service_text-idle = refl

render_services-lines_example :
    lines (render_services (idle ∷ idle ∷ [])) ≡ services_header ∷ texts (idle ∷ idle ∷ [])
render_services-lines_example =
    render_services-lines (idle ∷ idle ∷ []) (idle-IsShort, (idle-IsShort, tt))

abbrev long_named : Entry
long_named = record idle {
  service = record (idle.service) { cfg = new_service (replicate 126 b'n') };
}

-- Its row has lost its end.
service_row-long_named : is_one_line (service_row long_named.service) ≡ true
unfolding is_one_line service_text state_text health_text pid_text pad replicate decimal
service_row-long_named = refl
