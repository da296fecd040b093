-- ===== src/Http/Head.antt =====
-- src/http/http_connection.cpp: what `process_head` makes of the bytes of a request head. The outcome
-- of `phr_parse_request`, which is third-party code, is an argument.
use castle_plus.Prelude.{
  ℕ, ◌+◌, ◌-◌, ◌*◌, Bool, true, false, not, ◌&&◌, ◌||◌, List, [], ◌∷◌, ◌++◌, Option, none, some,
  Bytes, codes, ltb, ◌==◌, if◌then◌else◌, length, starts_with, split_first, to_lower, is_digit,
}
use castle_plus.Prelude.Result.{Result, ok, err, ◌>>=◌}
use castle_plus.Router.{Backend, Route, match}

-- `kMaxHead` and the 18-digit cap.
abbrev pub max_head : ℕ
max_head = 32_768

abbrev pub max_digits : ℕ
max_digits = 18

-- A `phr_header`; a name of `none` is the null name of a continuation line.
pub record Header : Type 0 where
  pub name : Option Bytes
  pub value : Bytes

-- What `phr_parse_request` returns: -2, -1, or the length of the head with its parts.
pub data Parsed : Type 0 where
  incomplete malformed : Parsed
  request : (len : ℕ) (method path : Bytes) (headers : List Header) → Parsed

-- The arguments of `send_error` and `send_response`.
pub record Reply : Type 0 where
  pub code : ℕ
  pub status : Bytes
  pub body : Bytes

abbrev pub bad_request : Bytes → Reply
bad_request why = record { code = 400; status = codes "Bad Request"; body = why }

unfoldable pub iequals : Bytes → Bytes → Bool
iequals [] [] = true
iequals (a ∷ xs) (b ∷ bs) = to_lower a == to_lower b && iequals xs bs
iequals _ _ = false

unfoldable pub is_any : Bytes → List Bytes → Bool
is_any name [] = false
is_any name (d ∷ ds) = iequals name d || is_any name ds

-- `is_hop_by_hop`.
unfoldable pub is_hop_by_hop : Bytes → Bool
unfolding is_any iequals
is_hop_by_hop name = is_any name (
    codes "connection"
    ∷ codes "keep-alive"
    ∷ codes "proxy-connection"
    ∷ codes "transfer-encoding"
    ∷ codes "te"
    ∷ codes "trailer"
    ∷ codes "upgrade"
    ∷ [])

-- The loop of `parse_content_length`.
unfoldable pub read_number : ℕ → Bytes → Option ℕ
unfolding is_digit
read_number n [] = some n
read_number n (c ∷ cs) =
    let rest = read_number (n * 10 + (c - 48)) cs in if is_digit c then rest else none

unfoldable pub parse_content_length : Bytes → Option ℕ
unfolding read_number
parse_content_length v =
    if length v == 0 || ltb max_digits (length v) then none else read_number 0 v

-- The variables of the loop over the headers.
pub record Scan : Type 0 where
  pub host : Bytes
  pub content_length : ℕ
  pub saw_content_length : Bool
  pub chunked : Bool
  pub head : Bytes

abbrev pub line_end : Bytes
line_end = 13 ∷ 10 ∷ []

scan_host : Bytes → Bytes → Scan → Scan
scan_host name value s = if iequals name (codes "host") then record s { host = value } else s

scan_number : Scan → Option ℕ → Result Reply Scan
scan_number s none = err (bad_request (codes "invalid content-length"))
scan_number s (some n) = ok (record s { saw_content_length = true; content_length = n })

scan_length : Bytes → Bytes → Scan → Result Reply Scan
unfolding scan_number
scan_length name value s =
    if iequals name (codes "content-length")
    then if s.saw_content_length
      then err (bad_request (codes "duplicate content-length"))
      else scan_number s (parse_content_length value)
    else ok s

scan_encoding : Bytes → Scan → Scan
scan_encoding name s =
    if iequals name (codes "transfer-encoding") then record s { chunked = true } else s

-- The header as it is forwarded.
copy_header : Bytes → Bytes → Scan → Scan
copy_header name value s =
    if is_hop_by_hop name
    then s
    else record s { head = s.head ++ (name ++ (codes ": " ++ (value ++ line_end))) }

-- One round of the loop.
unfoldable pub scan_named : Bytes → Bytes → Scan → Result Reply Scan
unfolding scan_host scan_length scan_encoding copy_header
scan_named name value s = do
  s' ← scan_length name value (scan_host name value s)
  ok (copy_header name value (scan_encoding name s'))

unfoldable pub scan_header : Header → Scan → Result Reply Scan
unfolding scan_named
scan_header h s = elim h.name [ none ↦ ok s | some name ↦ scan_named name h.value s ]

unfoldable pub scan_headers : List Header → Scan → Result Reply Scan
unfolding scan_header
scan_headers [] s = ok s
scan_headers (h ∷ hs) s = do s' ← scan_header h s; scan_headers hs s'

-- The scan with the request line.
abbrev pub first_line : Bytes → Bytes → Scan
first_line method path = record {
  host = [];
  content_length = 0;
  saw_content_length = false;
  chunked = false;
  head = method ++ (b' ' ∷ (path ++ (codes " HTTP/1.1" ++ line_end)));
}

-- What a head asks for.
pub record Forward : Type 0 where
  pub head : Bytes
  pub backend : Backend
  pub content_length : ℕ

pub data Verdict : Type 0 where
  wait : Verdict
  reject : Reply → Verdict
  internal : (method path : Bytes) → Verdict
  forward : (head_len : ℕ) (f : Forward) → Verdict

-- From the scanned headers to the upstream request.
unfoldable pub route_request : List Route → ℕ → Bytes → Scan → Result Reply Forward
route_request routes max_body path s =
    if s.chunked
    then err (record {
      code = 501;
      status = codes "Not Implemented";
      body = codes "chunked request body unsupported";
    })
    else if not (max_body == 0) && ltb max_body s.content_length
    then err (record {
      code = 413;
      status = codes "Payload Too Large";
      body = codes "request body too large";
    })
    else elim (match routes s.host path) [
      | none ↦
          err (record { code = 404; status = codes "Not Found"; body = codes "no matching route" })
      | some b ↦ ok (record {
        head = s.head ++ (codes "Connection: close" ++ (line_end ++ line_end));
        backend = b;
        content_length = s.content_length;
      })
    ]

unfoldable pub proxy_request : List Route → ℕ → Bytes → Bytes → List Header → Result Reply Forward
unfolding route_request scan_headers
proxy_request routes max_body method path headers = do
  s ← scan_headers headers (first_line method path)
  route_request routes max_body path s

to_verdict : ℕ → Result Reply Forward → Verdict
to_verdict len (err r) = reject r
to_verdict len (ok f) = forward len f

-- The path without its query.
unfoldable pub strip_query : Bytes → Bytes
strip_query path = elim (split_first b'?' path) [ none ↦ path | some (before, behind) ↦ before ]

-- `process_head` up to the calls that change the connection; `size` is `in_.size()`.
unfoldable pub decide_head : List Route → ℕ → ℕ → Parsed → Verdict
unfolding to_verdict proxy_request strip_query
decide_head routes max_body size incomplete =
    if ltb max_head size
    then reject (record {
      code = 431;
      status = codes "Request Header Fields Too Large";
      body = codes "header too large";
    })
    else wait
decide_head routes max_body size malformed = reject (bad_request (codes "malformed request"))
decide_head routes max_body size (request len method path headers) =
    if starts_with (codes "/_castle/") path
    then internal method (strip_query path)
    else to_verdict len (proxy_request routes max_body method path headers)
