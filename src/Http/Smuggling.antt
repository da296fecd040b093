-- ===== src/Http/Smuggling.antt =====
-- What a forwarded head can hold: the defences against request smuggling.
use mathlib.Core.Bool.{true≢false}
use castle_plus.Prelude.{
  ℕ, ◌+◌, ◌-◌, ◌*◌, ◌^◌, ◌≤◌, ◌<◌, ◌≡◌, refl, sym, ap, ◌∙◌, subst, Bool, true, false, List, [], ◌∷◌,
  ◌++◌, Option, none, some, arith, Bytes, codes, if◌then◌else◌, length, is_digit, All, Option-cases,
  inl, inr, append-nil, append_assoc, some_eq, ◌⊎◌,
}
use castle_plus.Prelude.Decimal.{
  decimal, read_digits, read_digits-decimal, decimal_digits, length-decimal,
}
use castle_plus.Prelude.Result.{Result, ok, bind-eq-ok, ok-injective}
use castle_plus.Router.{Route, match}
use castle_plus.Http.Head.{
  Header, Reply, iequals, is_hop_by_hop, read_number, parse_content_length, Scan, line_end,
  scan_named, scan_header, scan_headers, first_line, Forward, route_request, proxy_request,
  max_digits,
}

-- Every byte is a digit.
abbrev pub AllDigits : Bytes → Type 0
AllDigits = All (λ c. is_digit c ≡ true)

read_number-digits : (n : ℕ) (v : Bytes) → AllDigits v → read_number n v ≡ some (read_digits n v)
unfolding read_number read_digits
read_number-digits n [] h = refl
read_number-digits n (c ∷ cs) h = rw h.0 (read_number-digits (n * 10 + (c - 48)) cs h.1)

read_number-some : (n : ℕ) (v : Bytes) (k : ℕ) → read_number n v ≡ some k → AllDigits v
unfolding read_number
read_number-some n [] k h = tt
read_number-some n (c ∷ cs) k h = ground (arith, read_number-some (n * 10 + (c - 48)) cs k)

-- A Content-Length is accepted exactly if it is one to eighteen digits, and is then their value.
pub parse_content_length_iff :
    (v : Bytes) (n : ℕ)
    → (parse_content_length v ≡ some n
        → (0 < length v) × (length v ≤ max_digits) × AllDigits v × (n ≡ read_digits 0 v))
      × ((0 < length v) × (length v ≤ max_digits) × AllDigits v × (n ≡ read_digits 0 v)
          → parse_content_length v ≡ some n)
unfolding parse_content_length
parse_content_length_iff v n = (accepted, computed)
  where
    accepted :
        parse_content_length v ≡ some n
        → (0 < length v) × (length v ≤ max_digits) × AllDigits v × (n ≡ read_digits 0 v)
    accepted h =
        let k : read_number 0 v ≡ some n = ground arith in
        let d = read_number-some 0 v n k in
        (ground arith, ground arith, d, some_eq (sym k ∙ read_number-digits 0 v d))

    computed :
        (0 < length v) × (length v ≤ max_digits) × AllDigits v × (n ≡ read_digits 0 v)
        → parse_content_length v ≡ some n
    computed (a, b, d, e) = ground (arith, read_number-digits 0 v d)

-- Any number below 10 ^ 18 is read back from its decimal form.
parse_content_length-decimal : (n : ℕ) → n < 10 ^ 18 → parse_content_length (decimal n) ≡ some n
parse_content_length-decimal n h =
    let l = length-decimal 17 n h in
    (parse_content_length_iff (decimal n) n).1
      (l.0, l.1, decimal_digits n, sym (read_digits-decimal n))

abbrev encoding_name : Option Bytes → Bool
encoding_name none = false
encoding_name (some n) = iequals n (codes "transfer-encoding")

abbrev length_name : Option Bytes → Bool
length_name none = false
length_name (some n) = iequals n (codes "content-length")

abbrev line_of : Option Bytes → Bytes → Bytes
line_of none value = []
line_of (some n) value = if is_hop_by_hop n then [] else n ++ (codes ": " ++ (value ++ line_end))

abbrev pub is_encoding : Header → Bool
is_encoding h = encoding_name h.name

abbrev pub is_length : Header → Bool
is_length h = length_name h.name

-- The header as a line, if it is one that is forwarded.
abbrev pub copied_line : Header → Bytes
copied_line h = line_of h.name h.value

unfoldable pub copied : List Header → Bytes
copied [] = []
copied (h ∷ hs) = copied_line h ++ copied hs

-- The values of the Content-Length headers.
unfoldable pub lengths : List Header → List Bytes
lengths [] = []
lengths (h ∷ hs) = if is_length h then h.value ∷ lengths hs else lengths hs

-- What a scan of headers says of their Content-Length headers.
abbrev LengthStep : Scan → List Bytes → Scan → Type 0
LengthStep s [] s' =
    (s'.saw_content_length ≡ s.saw_content_length) × (s'.content_length ≡ s.content_length)
LengthStep s (v ∷ vs) s' =
    (s.saw_content_length ≡ false)
    × (vs ≡ [])
    × (s'.saw_content_length ≡ true)
    × (parse_content_length v ≡ some s'.content_length)

record Scans (s : Scan) (hs : List Header) (s' : Scan) : Type 0 where
  encoded : s'.chunked ≡ false → (s.chunked ≡ false) × All (λ h. is_encoding h ≡ false) hs
  copies : s'.head ≡ s.head ++ copied hs
  counts : LengthStep s (lengths hs) s'

scan_named_lem :
    (name value : Bytes) (s s' : Scan)
    → scan_named name value s ≡ ok s'
    → (s'.chunked ≡ (if iequals name (codes "transfer-encoding") then true else s.chunked))
      × (s'.head ≡ (
          if is_hop_by_hop name
          then s.head
          else s.head ++ (name ++ (codes ": " ++ (value ++ line_end)))))
unfolding scan_named
scan_named_lem name value s s' h = ground (arith, Option-cases (parse_content_length value))

scan_named_length :
    (name value : Bytes) (s s' : Scan)
    → scan_named name value s ≡ ok s'
    → LengthStep s (if iequals name (codes "content-length") then value ∷ [] else []) s'
unfolding scan_named
scan_named_length name value s s' h = ground (arith, Option-cases (parse_content_length value))

LengthStep-join :
    (s m s' : Scan) (one vs : List Bytes)
    → LengthStep s one m
    → LengthStep m vs s'
    → LengthStep s (one ++ vs) s'
LengthStep-join s m s' [] [] h k = (k.0 ∙ h.0, k.1 ∙ h.1)
LengthStep-join s m s' [] (v ∷ vs) h k = (sym h.0 ∙ k.0, k.1, k.2, k.3)
LengthStep-join s m s' (v ∷ []) [] h k = (h.0, refl, k.0 ∙ h.2, h.3 ∙ ap some (sym k.1))
LengthStep-join s m s' (v ∷ []) (w ∷ vs) h k = absurd (true≢false (sym h.2 ∙ k.0))
LengthStep-join s m s' (v ∷ w ∷ one) vs h k = absurd (cc h.1)

scan_at :
    (o : Option Bytes) (value : Bytes) (s m : Scan)
    → elim o as (λ _. Result Reply Scan) [ none ↦ ok s | some name ↦ scan_named name value s ]
      ≡ ok m
    → (m.chunked ≡ (if encoding_name o then true else s.chunked))
      × (m.head ≡ s.head ++ line_of o value)
      × LengthStep s (if length_name o then value ∷ [] else []) m
scan_at none value s m h = (cc, ground (arith, append-nil s.head), (cc, cc))
scan_at (some name) value s m h =
    let k = scan_named_lem name value s m h in
    (k.0, ground (arith, k.1, append-nil s.head), scan_named_length name value s m h)

if_append :
    (b : Bool) (v : Bytes) (vs : List Bytes)
    → (if b then v ∷ [] else []) ++ vs ≡ (if b then v ∷ vs else vs)
if_append true v vs = refl
if_append false v vs = refl

scan_headers-Scans : (hs : List Header) (s s' : Scan) → scan_headers hs s ≡ ok s' → Scans s hs s'
unfolding scan_headers copied lengths
scan_headers-Scans [] s s' h =
    let e = ok-injective h in
    record {
      encoded = λ c. (ap (λ (x : Scan). x.chunked) e ∙ c, tt);
      copies = sym (ap (λ (x : Scan). x.head) e) ∙ sym (append-nil s.head);
      counts = (
        sym (ap (λ (x : Scan). x.saw_content_length) e),
        sym (ap (λ (x : Scan). x.content_length) e),
      );
    }
scan_headers-Scans (h ∷ hs) s s' e =
    let (m, f, g) = bind-eq-ok (scan_header h s) (λ m. scan_headers hs m) e in
    let k = scan_at h.name h.value s m (unfold scan_header in f) in
    let ih = scan_headers-Scans hs m s' g in
    record {
      encoded = λ c. ground (arith, k.0, ih.encoded c);
      copies =
          ih.copies
          ∙ ap (λ x. x ++ copied hs) k.1
          ∙ append_assoc s.head (copied_line h) (copied hs);
      counts =
          subst (λ vs. LengthStep s vs s') (if_append (is_length h) h.value (lengths hs))
            (LengthStep-join s m s' _ (lengths hs) k.2 ih.counts);
    }

-- What holds of a request that is forwarded.
pub record IsFramed (max_body : ℕ) (method path : Bytes) (hs : List Header) (f : Forward)
    : Type 0 where
  pub no_encoding : All (λ h. is_encoding h ≡ false) hs
  pub one_length :
      ((lengths hs ≡ []) × (f.content_length ≡ 0))
      ⊎ ((v : Bytes) × (lengths hs ≡ v ∷ []) × (parse_content_length v ≡ some f.content_length))
  pub fits : (max_body ≡ 0) ⊎ (f.content_length ≤ max_body)
  pub head_is :
      f.head
      ≡ (first_line method path).head
        ++ (copied hs ++ (codes "Connection: close" ++ (line_end ++ line_end)))

length_cases :
    (s s' : Scan) (vs : List Bytes)
    → s.content_length ≡ 0
    → LengthStep s vs s'
    → ((vs ≡ []) × (s'.content_length ≡ 0))
      ⊎ ((v : Bytes) × (vs ≡ v ∷ []) × (parse_content_length v ≡ some s'.content_length))
length_cases s s' [] z h = inl (refl, h.1 ∙ z)
length_cases s s' (v ∷ vs) z h = inr (v, ap (◌∷◌ v) h.1, h.3)

route_request_lem :
    (routes : List Route) (max_body : ℕ) (path : Bytes) (s : Scan) (f : Forward)
    → route_request routes max_body path s ≡ ok f
    → (s.chunked ≡ false)
      × ((max_body ≡ 0) ⊎ (s.content_length ≤ max_body))
      × (f.content_length ≡ s.content_length)
      × (f.head ≡ s.head ++ (codes "Connection: close" ++ (line_end ++ line_end)))
      × (match routes s.host path ≡ some f.backend)
unfolding route_request
route_request_lem routes max_body path s f h =
    ground (arith, Option-cases (match routes s.host path))

-- A request is forwarded only if it has no Transfer-Encoding header and at most one Content-Length
-- header; the body length is the value of that header, which is all digits, or 0 where there is none,
-- and is within the limit; and the head that goes to the backend is the request line, the headers that
-- are not hop-by-hop, as they came and in their order, and `Connection: close`.
pub proxy_request-IsFramed :
    (routes : List Route) (max_body : ℕ) (method path : Bytes) (hs : List Header) (f : Forward)
    → proxy_request routes max_body method path hs ≡ ok f
    → IsFramed max_body method path hs f
unfolding proxy_request
proxy_request-IsFramed routes max_body method path hs f h =
    let (s, e, g) =
      bind-eq-ok (scan_headers hs (first_line method path)) (route_request routes max_body path)
        h in
    let k = scan_headers-Scans hs (first_line method path) s e in
    let r = route_request_lem routes max_body path s f g in
    record {
      no_encoding = (k.encoded r.0).1;
      one_length = rw r.2 (length_cases (first_line method path) s (lengths hs) refl k.counts);
      fits = rw r.2 r.1;
      head_is =
          r.3
          ∙ ap (λ x. x ++ (codes "Connection: close" ++ (line_end ++ line_end))) k.copies
          ∙ append_assoc (first_line method path).head (copied hs) _;
    }
