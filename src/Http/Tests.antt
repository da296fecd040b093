-- ===== src/Http/Tests.antt =====
-- Request heads.
use castle_plus.Prelude.{
  Bool, ◌==◌, equal, ◌≡◌, ◌≤◌, ◌<◌, refl, List, [], ◌∷◌, ◌++◌, some, Bytes, codes, length,
  starts_with, split_first, to_lower, is_empty,
}
use castle_plus.Prelude.Decimal.{read_digits}
use castle_plus.Prelude.Result.{ok}
use castle_plus.Router.{Backend, Route, match, best_route, matches, beats, normalize_host}
use castle_plus.Http.Head.{
  Header, Reply, Forward, request, reject, parse_content_length, max_digits, proxy_request,
  decide_head, scan_headers, scan_named, iequals, is_hop_by_hop, read_number, route_request,
  bad_request, line_end,
}
use castle_plus.Http.Reply.{health_line, health_loop, is_probed, render_health}
use castle_plus.Http.Smuggling.{
  AllDigits, IsFramed, parse_content_length_iff, proxy_request-IsFramed,
}

abbrev routes : List Route
routes =
    record {
      name = codes "app";
      host = [];
      path_prefix = codes "/";
      backend = record { host = codes "127.0.0.1"; port = 9001 };
    }
    ∷ []

abbrev field : Bytes → Bytes → Header
field n v = record { name = some n; value = v }

abbrev headers : List Header
headers =
    field (codes "Host") (codes "app")
    ∷ field (codes "Connection") (codes "keep-alive")
    ∷ field (codes "Content-Length") (codes "12")
    ∷ []

abbrev sent : Forward
sent = record {
  head =
      codes "POST /x HTTP/1.1"
      ++ (line_end
          ++ (codes "Host: app"
              ++ (line_end
                  ++ (codes "Content-Length: 12"
                      ++ (line_end ++ (codes "Connection: close" ++ (line_end ++ line_end)))))));
  backend = record { host = codes "127.0.0.1"; port = 9001 };
  content_length = 12;
}

proxy_request-post : proxy_request routes 100 (codes "POST") (codes "/x") headers ≡ ok sent
unfolding proxy_request scan_headers scan_named iequals is_hop_by_hop parse_content_length
    read_number route_request match best_route matches beats normalize_host starts_with split_first
    to_lower is_empty
proxy_request-post = refl

decide_head-smuggled :
    decide_head routes 100 60 (
      request 60
        (codes "POST")
        (codes "/x")
        (headers ++ (field (codes "content-length") (codes "3") ∷ [])))
    ≡ reject (bad_request (codes "duplicate content-length"))
unfolding decide_head proxy_request scan_headers scan_named iequals is_hop_by_hop
    parse_content_length read_number route_request starts_with to_lower
decide_head-smuggled = refl

parse_content_length_iff_example :
    (parse_content_length (codes "12") ≡ some 12
      → (0 < length (codes "12"))
        × (length (codes "12") ≤ max_digits)
        × AllDigits (codes "12")
        × (12 ≡ read_digits 0 (codes "12")))
    × ((0 < length (codes "12"))
          × (length (codes "12") ≤ max_digits)
          × AllDigits (codes "12")
          × (12 ≡ read_digits 0 (codes "12"))
        → parse_content_length (codes "12") ≡ some 12)
parse_content_length_iff_example = parse_content_length_iff (codes "12") 12

proxy_request-IsFramed_example : IsFramed 100 (codes "POST") (codes "/x") headers sent
proxy_request-IsFramed_example =
    proxy_request-IsFramed routes 100 (codes "POST") (codes "/x") headers sent proxy_request-post

abbrev refused : Reply
refused = bad_request (codes "malformed request")

-- Two routes share a backend, and the third has one that is down.
abbrev shared_routes : List Route
shared_routes =
    routes
    ++ (routes
        ++ (record {
          name = codes "api";
          host = [];
          path_prefix = codes "/api";
          backend = record { host = codes "127.0.0.1"; port = 9002 };
        }
            ∷ []))

abbrev only_first : Backend → Bool
only_first b = b.port == 9001

render_health-shared :
    (render_health only_first shared_routes).0 ≡ codes "castle: up\napp: up\napi: DOWN\n"
unfolding render_health health_loop health_line is_probed equal
render_health-shared = refl
