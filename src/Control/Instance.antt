-- ===== src/Control/Instance.antt =====
-- What the commands ask of the rest of castle, by the models of the log, the supervisor, the loops and the internet
-- watch. The readings of one command are arguments.
use castle_plus.Prelude.{ℕ, Bool, true, false, List, [], ◌∷◌, Option, none, some, Bytes, codes, cat}
use castle_plus.Connectivity.{NetState}
use castle_plus.Log.Messages.{Log}
use castle_plus.Service.{Service}
use castle_plus.Supervisor.{Supervisor, do_restart}
use castle_plus.Supervisor.Report.{
  describe, render_services, render_backend_status, restart_service,
}
use castle_plus.Control.{Castle}
use castle_plus.Control.Report.{
  LoopStats, Ack, Vitals, cmd_status, cmd_health, cmd_errors, system_status_text,
}

-- The parts that the commands reach; `signalled` is the SIGTERM that castle sends itself.
pub record Parts : Type 0 where
  pub log : Log
  pub supervisor : Supervisor
  pub loops : List LoopStats
  pub net : NetState
  pub signalled : Bool

-- What a command reads: the steady clock, the answers of the loops and the time that they take, whether the log file
-- opens, the answer of fork, whether the supervisor answers in time, the vitals, and the local date and time.
pub record Readings (D : Type 0) : Type 0 where
  pub now : ℕ
  pub acks : List Ack
  pub rtt_us : ℕ
  pub log_opens : Bool
  pub fork : Option ℕ
  pub in_time : Bool
  pub vitals : Vitals D
  pub fixed2 : D → Bytes
  pub strsignal : ℕ → Bytes
  pub down_since : Service → Bytes
  pub date_string : Bytes
  pub time_local : Bytes

abbrev pub if_in_time : {A : Type 0} → Bool → A → Option A
if_in_time true a = some a
if_in_time false a = none

-- A command without a restart leaves the parts as they are, but for the log, which `errors` pulls from.
abbrev pub castle_of : {D : Type 0} → Bool → Readings D → Castle Parts
castle_of has_supervisor r = record {
  has_supervisor = has_supervisor;
  cmd_status = λ (p : Parts). (cmd_status p.loops, p);
  cmd_health = λ (p : Parts). (cmd_health r.acks r.rtt_us, p);
  cmd_errors = λ (p : Parts).
      (let (text, log) = cmd_errors r.log_opens p.log in (text, record p { log = log }));
  describe_services =
      λ (p : Parts). (describe (if_in_time r.in_time (render_services p.supervisor.entries)), p);
  restart_service = λ (name : Bytes) (p : Parts).
      (let (v, found) = do_restart p.supervisor r.now r.fork name in
        (restart_service (if_in_time r.in_time found), record p { supervisor = v }));
  on_shutdown = λ (p : Parts). record p { signalled = true };
  system_status = λ (p : Parts). (system_status_text r.fixed2 r.vitals p.net p.log.entries, p);
  describe_backend_status = λ (p : Parts). (
    describe (
        if_in_time r.in_time
          (render_backend_status r.strsignal r.down_since r.now p.supervisor.entries)),
    p,
  );
  clock = λ (p : Parts). cat (r.date_string ∷ codes " " ∷ r.time_local ∷ []);
}
