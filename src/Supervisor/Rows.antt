-- ===== src/Supervisor/Rows.antt =====
-- The rows of the report on the services.
use castle_plus.Prelude.{
  ℕ, zero, suc, ◌+◌, ◌-◌, ◌<◌, ◌≤◌, ◌^◌, ◌≡◌, refl, sym, ap, subst, ◌∙◌, max, Bool, true, false,
  not, ◌&&◌, List, [], ◌∷◌, ◌++◌, append_assoc, Option, none, some, Bytes, codes, length, take,
  replicate, pad, length-append, take_all, All, is_digit, ◌==◌, if_both, arith,
}
use castle_plus.Prelude.Decimal.{decimal, decimal_digits, length-decimal}
use castle_plus.Ini.{lines}
use castle_plus.Log.Offsets.{longer, lines-longer}
use castle_plus.Service.{
  Service, Entry, ServiceState, stopped, running, backoff, failed, quarantined,
}
use castle_plus.Supervisor.Report.{
  state_text, health_text, pid_text, service_text, service_row, service_rows, services_header,
  render_services,
}

-- The text has no end of a line.
unfoldable pub is_one_line : Bytes → Bool
is_one_line [] = true
is_one_line (c ∷ cs) = not (c == b'\n') && is_one_line cs

is_one_line-append :
    (a b : Bytes) → is_one_line a ≡ true → is_one_line b ≡ true → is_one_line (a ++ b) ≡ true
unfolding is_one_line
is_one_line-append [] b h k = k
is_one_line-append (c ∷ cs) b h k =
    let rest = λ (e : is_one_line cs ≡ true). is_one_line-append cs b e k in ground (h, rest, arith)

is_one_line-replicate : (n : ℕ) → is_one_line (replicate n b' ') ≡ true
unfolding is_one_line replicate
is_one_line-replicate zero = refl
is_one_line-replicate (suc n) = is_one_line-replicate n

is_one_line-pad : (n : ℕ) (s : Bytes) → is_one_line s ≡ true → is_one_line (pad n s) ≡ true
unfolding pad
is_one_line-pad n s h =
    is_one_line-append s (replicate (n - length s) b' ') h (is_one_line-replicate (n - length s))

is_one_line_digits : (s : Bytes) → All (λ c. is_digit c ≡ true) s → is_one_line s ≡ true
unfolding is_one_line is_digit
is_one_line_digits [] h = refl
is_one_line_digits (c ∷ cs) h =
    let d = h.0 in let r = is_one_line_digits cs h.1 in ground (d, r, arith)

length-replicate : (n c : ℕ) → length (replicate n c) ≡ n
unfolding replicate
length-replicate zero c = refl
length-replicate (suc n) c = ap suc (length-replicate n c)

length-pad : (n : ℕ) (s : Bytes) → length (pad n s) ≡ max n (length s)
unfolding pad
length-pad n s =
    length-append s (replicate (n - length s) b' ')
    ∙ ap (length s +◌) (length-replicate (n - length s) b' ')
    ∙ omega arith

-- A text with no end of a line, and its end, are the first line of what follows.
lines_row :
    (row rest : Bytes) → is_one_line row ≡ true → lines (row ++ (b'\n' ∷ rest)) ≡ row ∷ lines rest
unfolding is_one_line
lines_row [] rest h = lines-longer b'\n' rest
lines_row (c ∷ cs) rest h =
    let n : (c == b'\n') ≡ false = ground (h, arith) in
    let k : is_one_line cs ≡ true = ground (h, arith) in
    lines-longer c (cs ++ (b'\n' ∷ rest))
    ∙ ap (λ b. longer c b (lines (cs ++ (b'\n' ∷ rest)))) n
    ∙ ap (longer c false) (lines_row cs rest k)

-- A service whose row fits: a short name on one line, and numbers that are in the range of their types.
pub record IsShort (s : Service) : Type 0 where
  pub one_line : is_one_line s.cfg.name ≡ true
  pub name_short : length s.cfg.name ≤ 100
  pub pid_in_range : (p : ℕ) → s.pid ≡ some p → p < 2 ^ 31
  pub restarts_in_range : s.restart_count < 2 ^ 31

state_text_lem :
    (st : ServiceState) → (is_one_line (state_text st) ≡ true) × (length (state_text st) ≤ 12)
unfolding state_text is_one_line
state_text_lem stopped = (refl, omega arith)
state_text_lem running = (refl, omega arith)
state_text_lem backoff = (refl, omega arith)
state_text_lem failed = (refl, omega arith)
state_text_lem quarantined = (refl, omega arith)

-- A text that takes at most `n` bytes of a line.
abbrev Fits : ℕ → Bytes → Type 0
Fits n t = (is_one_line t ≡ true) × (length t ≤ n)

health_text-Fits : (s : Service) → Fits 4 (health_text s)
unfolding health_text is_one_line
health_text-Fits s =
    if_both (Fits 4) (s.cfg.health_port == 0) (refl, omega arith)
      (if_both (Fits 4) s.health_known
        (if_both (Fits 4) s.healthy (refl, omega arith) (refl, omega arith)) (refl, omega arith))

decimal-Fits : (n : ℕ) → n < 2 ^ 31 → Fits 10 (decimal n)
decimal-Fits n h =
    (is_one_line_digits (decimal n) (decimal_digits n), (length-decimal 9 n (omega arith)).1)

pid_text-Fits : (o : Option ℕ) → ((p : ℕ) → o ≡ some p → p < 2 ^ 31) → Fits 11 (pid_text o)
unfolding pid_text is_one_line
pid_text-Fits none h = (refl, omega arith)
pid_text-Fits (some p) h =
    let f = decimal-Fits p (h p refl) in
    let e : decimal p ≡ take 11 (decimal p) = sym (take_all 11 (decimal p) (omega (arith, f.1))) in
    subst (Fits 11) e (f.0, omega (arith, f.1))

pad-Fits : (w n : ℕ) (s : Bytes) → Fits n s → Fits (max w n) (pad w s)
pad-Fits w n s f = (is_one_line-pad w s f.0, omega (arith, length-pad w s, f.1))

append-Fits : (m n : ℕ) (s t : Bytes) → Fits m s → Fits n t → Fits (m + n) (s ++ t)
append-Fits m n s t f g =
    (is_one_line-append s t f.0 g.0, omega (arith, length-append s t, f.1, g.1))

nil-Fits : Fits 0 []
unfolding is_one_line
nil-Fits = (refl, omega arith)

blank-Fits : (n : ℕ) (t : Bytes) → Fits n t → Fits (1 + n) (codes " " ++ t)
unfolding is_one_line
blank-Fits n t f = append-Fits 1 n (codes " ") t (refl, omega arith) f

service_text-Fits : (s : Service) → IsShort s → Fits 145 (service_text s)
unfolding service_text
service_text-Fits s h =
    let restarts =
      append-Fits 10 0 (decimal s.restart_count) []
        (decimal-Fits s.restart_count h.restarts_in_range) nil-Fits in
    let health =
      append-Fits 8 11 (pad 8 (health_text s)) _ (pad-Fits 8 4 _ (health_text-Fits s))
        (blank-Fits 10 _ restarts) in
    let pid =
      append-Fits 11 20 (pad 8 (pid_text s.pid)) _
        (pad-Fits 8 11 _ (pid_text-Fits s.pid h.pid_in_range)) (blank-Fits 19 _ health) in
    let state =
      append-Fits 12 32 (pad 12 (state_text s.state)) _ (pad-Fits 12 12 _ (state_text_lem s.state))
        (blank-Fits 31 _ pid) in
    append-Fits 100 45 (pad 20 s.cfg.name) _ (pad-Fits 20 100 _ (h.one_line, h.name_short))
      (blank-Fits 44 _ state)

-- Nothing of such a row is cut.
service_row_whole : (s : Service) → IsShort s → service_row s ≡ service_text s ++ (b'\n' ∷ [])
service_row_whole s h =
    let n = (service_text-Fits s h).1 in
    take_all 159 (service_text s ++ (b'\n' ∷ []))
      (omega (arith, length-append (service_text s) (b'\n' ∷ [])))

-- The texts of the rows.
abbrev pub texts : List Entry → List Bytes
texts [] = []
texts (e ∷ es) = service_text e.service ∷ texts es

service_rows-lines :
    (es : List Entry) → All (λ e. IsShort (Entry.service e)) es → lines (service_rows es) ≡ texts es
unfolding service_rows lines
service_rows-lines [] h = refl
service_rows-lines (e ∷ es) h =
    ap (λ r. lines (r ++ service_rows es)) (service_row_whole e.service h.0)
    ∙ ap lines (append_assoc (service_text e.service) (b'\n' ∷ []) (service_rows es))
    ∙ lines_row (service_text e.service) (service_rows es) (service_text-Fits e.service h.0).0
    ∙ ap (service_text e.service ∷◌) (service_rows-lines es h.1)

-- If every name stands on one line and has at most 100 bytes, the pids and the restart counts being in the range of
-- `int`, the report on the services has the header and then one whole line for each service, in order.
pub render_services-lines :
    (es : List Entry)
    → All (λ e. IsShort (Entry.service e)) es
    → lines (render_services es) ≡ services_header ∷ texts es
unfolding render_services is_one_line
render_services-lines es h =
    lines_row services_header (service_rows es) refl
    ∙ ap (services_header ∷◌) (service_rows-lines es h)
