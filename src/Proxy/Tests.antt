-- ===== src/Proxy/Tests.antt =====
-- A proxied connection from the first byte to the last.
use castle_plus.Prelude.{
  ◌≡◌, ◌≢◌, ◌≤◌, refl, true, false, List, [], ◌∷◌, ◌++◌, ◌⊎◌, none, some, Bytes, codes, length, leb,
  if◌then◌else◌, is_empty, starts_with, split_first, to_lower,
}
use castle_plus.Router.{Route, match, best_route, matches, beats, normalize_host}
use castle_plus.Http.Head.{
  Header, Parsed, incomplete, request, decide_head, proxy_request, scan_headers, scan_named,
  iequals, is_hop_by_hop, parse_content_length, read_number, route_request,
}
use castle_plus.Proxy.State.{
  write_error, reading_head, streaming, Recv, received, recv_closed, Send, sent, send_block_write,
  Read, read_bytes, read_eof, Write, wrote, in_progress, Io, Pair, new_http, new_backend, new_pair,
  low, close_both,
}
use castle_plus.Prelude.Decimal.{decimal}
use castle_plus.Http.Reply.{response_text, response_head, full_head}
use castle_plus.Proxy.Download.{
  fail, on_backend_error, send_response, pump_and_recompute, resume, resume_reads, read_loop,
  hand_over, deliver_to_client, after_deliver, hold_backend, end_of_response, on_backend_closed,
  on_readable, read_round, pump_write, send_loop, after_loop, resume_backend, close_if_closing,
}
use castle_plus.Proxy.Upload.{
  Site, send, queue, forward_body, after_send, flush, write_loop, after_writes, release,
}
use castle_plus.Proxy.Drive.{
  drive, drive_with, shake, pump, pump_read, recv_loop, recv_round, handle_client_bytes, bytes_in,
  process_head, obey, start_backend, try_connect, after_start, on_writable,
}
use castle_plus.Proxy.Events.{
  Event, client_ready, backend_readable, backend_writable, run, handle, react,
}
use castle_plus.Proxy.HalfClose.{GoesOn, pump_read-GoesOn}
use castle_plus.Proxy.Histories.{after, run_download, run_paced, run_linked}

abbrev routes : List Route
routes =
    record {
      name = codes "app";
      host = [];
      path_prefix = codes "/";
      backend = record { host = codes "127.0.0.1"; port = 9001 };
    }
    ∷ []

-- A body of twelve bytes is to come.
abbrev headers : List Header
headers =
    record { name = some (codes "Host"); value = codes "app" }
    ∷ record { name = some (codes "Content-Length"); value = codes "12" }
    ∷ []

-- A parser for heads of four bytes.
unfoldable parse_four : Bytes → Parsed
parse_four bytes =
    if leb 4 (length bytes) then request 4 (codes "POST") (codes "/x") headers else incomplete

abbrev site : Site
site = record {
  routes = routes;
  max_body = 0;
  probe = λ _. true;
  readings = record { started = 0; started_wall = []; now = 0; uptimes = none };
  parse = parse_four;
}

abbrev answers : List Recv → List Send → List Read → List Write → Io
answers recvs sends reads writes = record {
  handshakes = [];
  recvs = recvs;
  sends = sends;
  reads = reads;
  writes = writes;
  connect = in_progress;
  now = 7;
}

abbrev quiet : Io
quiet = answers [] [] [] []

-- The request comes in three parts, and is forwarded.
abbrev request_events : List (Event × Io)
request_events =
    (client_ready, answers (received (codes "HE") ∷ received (codes "ADhello") ∷ []) [] [] [])
    ∷ (backend_writable true, answers [] [] [] (wrote 9999 ∷ []))
    ∷ (client_ready, answers (received (codes " world!") ∷ []) [] [] (wrote 3 ∷ []))
    ∷ []

-- The response follows, with a client that takes its time.
abbrev response_events : List (Event × Io)
response_events =
    (
      backend_readable,
      answers [] (sent 2 ∷ send_block_write ∷ []) (read_bytes (codes "200 OK") ∷ []) [],
    )
    ∷ (
      backend_readable,
      answers [] (sent 9 ∷ sent 9 ∷ []) (read_bytes (codes "!") ∷ read_eof ∷ []) [],
    )
    ∷ []

abbrev asked : Pair
asked = after site 0 0 quiet request_events

abbrev answered : Pair
answered = after site 0 0 quiet (request_events ++ response_events)

run_download_example :
    (answered.trace.to_client ++ answered.http.out
      ≡ answered.trace.replied ++ answered.trace.delivered)
    × ((answered.trace.replied ≡ []) ⊎ (answered.trace.delivered ≡ []))
    × (answered.http.backend ≡ true → answered.trace.replied ≡ [])
run_download_example = run_download site 0 0 quiet (request_events ++ response_events)

-- The two are linked after the request.
asked-linked : asked.back.client ≡ true
unfolding run handle react drive drive_with shake pump pump_read recv_loop recv_round
    handle_client_bytes bytes_in process_head decide_head proxy_request scan_headers scan_named
    iequals is_hop_by_hop parse_content_length read_number route_request match best_route matches
    beats normalize_host starts_with split_first to_lower is_empty parse_four obey start_backend
    try_connect send queue after_start forward_body after_send pump_write send_loop after_loop
    resume_backend close_if_closing close_both on_writable flush write_loop after_writes release
asked-linked = refl

run_paced_example :
    (asked.http.read_paused ≡ true
      → (asked.back.high_water_hit ≡ true) × (low ≤ length asked.back.out))
    × (asked.http.backend_paused ≡ asked.back.read_paused)
run_paced_example = run_paced site 0 0 quiet request_events asked-linked

run_linked_example :
    (asked.http.backend ≡ asked.back.client)
    × (asked.http.closed ≡ true → asked.http.backend ≡ false)
    × (asked.http.backend ≡ true → asked.http.state ≢ reading_head)
run_linked_example = run_linked site 0 0 quiet request_events

-- The response streams, and the client sends a byte too many and ends its input.
abbrev half_closed : Pair
half_closed = record (new_pair 0 quiet) {
  http = record (new_http 0) {
    state = streaming;
    backend = true;
    responded = true;
    out = codes "200 O";
  };
  back = record (new_backend 0) { connected = true };
  io = answers (received (codes "x") ∷ recv_closed ∷ []) [] [] [];
}

pump_read-GoesOn_example : GoesOn half_closed (pump_read site half_closed).0
pump_read-GoesOn_example = pump_read-GoesOn site half_closed refl refl (tt, (tt, tt))

-- The backend's socket fails under the body.
abbrev broken_upload : List (Event × Io)
broken_upload =
    (client_ready, answers (received (codes "HEADhello") ∷ []) [] [] [])
    ∷ (backend_writable true, answers [] [] [] (wrote 9999 ∷ []))
    ∷ (client_ready, answers (received (codes " wo") ∷ []) (sent 500 ∷ []) [] (write_error ∷ []))
    ∷ []

-- `forward_body` goes on to follow the pointer that the failure has cleared.
broken_upload_null : (after site 0 0 quiet broken_upload).trace.null_followed ≡ true
unfolding run handle react drive drive_with shake pump pump_read recv_loop recv_round
    handle_client_bytes bytes_in process_head decide_head proxy_request scan_headers scan_named
    iequals is_hop_by_hop parse_content_length read_number route_request match best_route matches
    beats normalize_host starts_with split_first to_lower is_empty parse_four obey start_backend
    try_connect send queue after_start forward_body after_send pump_write send_loop after_loop
    resume_backend close_if_closing close_both on_writable flush write_loop after_writes release
    fail on_backend_error send_response response_text response_head full_head decimal
    pump_and_recompute resume resume_reads on_readable read_loop read_round hand_over
    deliver_to_client after_deliver hold_backend end_of_response on_backend_closed
broken_upload_null = refl

-- The backend's reads are held while the first bytes of a response wait, and its end comes as soon as they
-- have gone.
abbrev held : Pair
held = record asked {
  http = record (asked.http) { out = codes "first"; backend_paused = true };
  back = record (asked.back) { read_paused = true };
  io = answers [] (sent 5 ∷ send_block_write ∷ []) (read_bytes (codes "last") ∷ read_eof ∷ []) [];
}

-- The connection closes on the bytes before the end.
held_tail : ((drive site held).http.closed ≡ true) × ((drive site held).http.out ≡ codes "last")
unfolding run handle react drive drive_with shake pump pump_read recv_loop recv_round
    handle_client_bytes bytes_in process_head decide_head proxy_request scan_headers scan_named
    iequals is_hop_by_hop parse_content_length read_number route_request match best_route matches
    beats normalize_host starts_with split_first to_lower is_empty parse_four obey start_backend
    try_connect send queue after_start forward_body after_send pump_write send_loop after_loop
    resume_backend close_if_closing close_both on_writable flush write_loop after_writes release
    fail on_backend_error send_response response_text response_head full_head decimal
    pump_and_recompute resume resume_reads on_readable read_loop read_round hand_over
    deliver_to_client after_deliver hold_backend end_of_response on_backend_closed
held_tail = (refl, refl)
