-- ===== src/Http/Reply.antt =====
-- src/http/http_connection.cpp: the text that `send_response` writes, and the status endpoints. The probes of
-- the backends and the readings of the clocks are arguments.
use castle_plus.Prelude.{
  ℕ, ◌-◌, ◌/◌, Bool, true, false, not, ◌&&◌, List, [], ◌∷◌, ◌++◌, Option, none, some, Bytes, codes,
  ◌==◌, if◌then◌else◌, length, equal, take,
}
use castle_plus.Prelude.Decimal.{decimal}
use castle_plus.Prelude.Int.{pos}
use castle_plus.Router.{Backend, Route}
use castle_plus.Service.{ServiceUptime, second}
use castle_plus.Uptime.{human_duration}
use castle_plus.Http.Head.{Reply, line_end}

-- What the format gives, before it is written to the buffer.
unfoldable pub full_head : Reply → Bytes
full_head r =
    codes "HTTP/1.1 "
    ++ (decimal r.code
        ++ (b' '
            ∷ (r.status
                ++ (line_end
                    ++ (codes "Content-Type: text/plain"
                        ++ (line_end
                            ++ (codes "Content-Length: "
                                ++ (decimal (length r.body)
                                    ++ (line_end
                                        ++ (codes "Cache-Control: no-store"
                                            ++ (line_end
                                                ++ (codes "Connection: close"
                                                    ++ (line_end ++ line_end)))))))))))))

-- `snprintf` into a buffer of 192 bytes.
unfoldable pub response_head : Reply → Bytes
unfolding full_head
response_head r = take 191 (full_head r)

-- What `send_response` puts into `out_`.
unfoldable pub response_text : Reply → Bool → Bytes
unfolding response_head
response_text r head_only = if head_only then response_head r else response_head r ++ r.body

-- The loop over `probed`.
unfoldable pub is_probed : Backend → List Backend → Bool
is_probed b [] = false
is_probed b (c ∷ cs) = if equal c.host b.host && c.port == b.port then true else is_probed b cs

unfoldable pub health_line : Bytes → Bool → Bytes
health_line name up = name ++ (if up then codes ": up\n" else codes ": DOWN\n")

-- The loop of `render_health`: the backends probed so far, the text and `all_up`.
unfoldable pub health_loop :
    (Backend → Bool) → List Backend → Bytes → Bool → List Route → Bytes × Bool
unfolding is_probed health_line
health_loop probe probed out all_up [] = (out, all_up)
health_loop probe probed out all_up (r ∷ rs) = elim (is_probed r.backend probed) [
  | true ↦ health_loop probe probed out all_up rs
  | false ↦
      health_loop probe (r.backend ∷ probed) (out ++ health_line r.name (probe r.backend))
        (all_up && probe r.backend) rs
]

unfoldable pub render_health : (Backend → Bool) → List Route → Bytes × Bool
unfolding health_loop
render_health probe routes = health_loop probe [] (codes "castle: up\n") true routes

-- The lambda `line`.
uptime_line : Bytes → ℕ → Bytes
uptime_line name secs =
    name
    ++ (codes ": " ++ (decimal secs ++ (codes "s (" ++ (human_duration (pos secs) ++ codes ")"))))

-- The loop over the snapshot.
unfoldable pub uptime_lines : ℕ → List ServiceUptime → Bytes
unfolding uptime_line
uptime_lines now [] = []
uptime_lines now (s ∷ ss) =
    let rest = uptime_lines now ss in
    if not s.running
    then s.name ++ (codes ": down\n" ++ rest)
    else uptime_line s.name ((now - s.since) / second) ++ (codes "\n" ++ rest)

-- What the status endpoints read: the start of castle on both clocks, the time, and the snapshot of
-- the supervisor if there is one.
pub record Readings : Type 0 where
  pub started : ℕ
  pub started_wall : Bytes
  pub now : ℕ
  pub uptimes : Option (List ServiceUptime)

unfoldable pub render_uptime : Readings → Bytes
unfolding uptime_line uptime_lines
render_uptime c =
    uptime_line (codes "castle") ((c.now - c.started) / second)
    ++ (codes " since "
        ++ (c.started_wall
            ++ (codes "\n" ++ elim c.uptimes [ none ↦ [] | some ss ↦ uptime_lines c.now ss ])))

health_reply : Bytes × Bool → Reply
health_reply (body, all_up) =
    if all_up
    then record { code = 200; status = codes "OK"; body = body }
    else record { code = 503; status = codes "Service Unavailable"; body = body }

-- `handle_internal`: the reply, and `head_only`.
unfoldable pub handle_internal :
    (Backend → Bool) → List Route → Readings → Bytes → Bytes → Reply × Bool
unfolding render_health render_uptime health_reply
handle_internal probe routes c method path =
    let head_only = equal method (codes "HEAD") in
    if not (equal method (codes "GET")) && not head_only
    then (
      record { code = 405; status = codes "Method Not Allowed"; body = codes "use GET or HEAD\n" },
      false,
    )
    else if equal path (codes "/_castle/health")
    then (health_reply (render_health probe routes), head_only)
    else if equal path (codes "/_castle/uptime")
    then (record { code = 200; status = codes "OK"; body = render_uptime c }, head_only)
    else (
      record { code = 404; status = codes "Not Found"; body = codes "unknown castle endpoint\n" },
      head_only,
    )
