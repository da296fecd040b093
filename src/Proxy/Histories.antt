-- ===== src/Proxy/Histories.antt =====
-- What holds of a proxied connection after any history of events, from its beginning on.
use castle_plus.Prelude.{
  ℕ, ◌≤◌, ◌≡◌, ◌≢◌, refl, ◌∙◌, true, false, List, [], ◌++◌, length, arith, inl, ◌⊎◌,
}
use castle_plus.Proxy.State.{reading_head, Io, Pair, new_pair, low}
use castle_plus.Proxy.Upload.{Site}
use castle_plus.Proxy.Events.{Event, run}
use castle_plus.Proxy.Steps.{Core, core, Step, Reach, here, next, Runs, start, event}
use castle_plus.Proxy.DriveSteps.{run-Runs}
use castle_plus.Proxy.Invariant.{Linked, Step-Linked, Kept, Step-Kept}
use castle_plus.Proxy.Forwarded.{Sent, Step-Sent}
use castle_plus.Proxy.Pace.{Paced, Step-Paced}

pub record IsSound (c : Core) : Type 0 where
  pub linked : Linked c
  pub kept : Kept c
  pub sent : Sent c
  pub paced : Paced c

Step-IsSound : {c d : Core} → Step c d → IsSound c → IsSound d
Step-IsSound s h = record {
  linked = Step-Linked s h.linked;
  kept = Step-Kept s h.linked h.kept;
  sent = Step-Sent s h.linked h.sent;
  paced = Step-Paced s h.linked h.paced;
}

Reach-IsSound : {c d : Core} → Reach c d → IsSound c → IsSound d
Reach-IsSound here h = h
Reach-IsSound (next r s) h = Step-IsSound s (Reach-IsSound r h)

Runs-IsSound : {c d : Core} → Runs c d → IsSound c → IsSound d
Runs-IsSound start h = h
Runs-IsSound (event n m r s) h =
    let k = Runs-IsSound r h in
    Reach-IsSound s (record { linked = k.linked; kept = k.kept; sent = k.sent; paced = k.paced })

new_pair-IsSound : (now : ℕ) (io : Io) → IsSound (core (new_pair now io))
new_pair-IsSound now io = record {
  linked = record { agree = refl; shut = λ _. refl; begun = λ h. absurd (cc h) };
  kept = record {
    whole = refl;
    fresh = λ _. (refl, refl, refl);
    first = λ _. refl;
    own = λ _. refl;
    one = inl refl;
  };
  sent = record {
    fresh = λ _. (refl, refl, refl);
    whole = λ h. absurd (cc h);
    through = λ h. absurd (cc h);
  };
  paced = record {
    synced = λ _. refl;
    upload = λ _ h. absurd (cc h);
    marked = λ h. absurd (omega arith);
    floor = λ h. absurd (cc h);
    blank = λ _. (refl, refl, refl);
  };
}

-- The connection, made at the instant `now`, after a history of events.
abbrev pub after : Site → ℕ → ℕ → Io → List (Event × Io) → Pair
after site timeout now io es = run site timeout es (new_pair now io)

run-IsSound :
    (site : Site) (timeout now : ℕ) (io : Io) (es : List (Event × Io))
    → IsSound (core (after site timeout now io es))
run-IsSound site timeout now io es =
    Runs-IsSound (run-Runs site timeout es (new_pair now io)) (new_pair-IsSound now io)

-- Whatever happens, what the client's socket has taken, followed by what stands in `out_`, is what has been read from the
-- backend's socket while it had a client, in order and each byte once, or a reply of castle's own in its place; while
-- the two are linked it is the former. What stands in `out_` of a connection that has closed stays there, unsent.
pub run_download :
    (site : Site) (timeout now : ℕ) (io : Io) (es : List (Event × Io))
    → let p = after site timeout now io es in
      (p.trace.to_client ++ p.http.out ≡ p.trace.replied ++ p.trace.delivered)
      × ((p.trace.replied ≡ []) ⊎ (p.trace.delivered ≡ []))
      × (p.http.backend ≡ true → p.trace.replied ≡ [])
run_download site timeout now io es =
    let k = (run-IsSound site timeout now io es).kept in (k.whole, k.one, k.own)

-- While the two are linked, a client whose reads are paused has a backend with at least `kBackpressureLow`
-- bytes to flush and the mark that makes it notify the client, and the backend's reads are paused exactly
-- while the client remembers to resume them.
pub run_paced :
    (site : Site) (timeout now : ℕ) (io : Io) (es : List (Event × Io))
    → let p = after site timeout now io es in
      p.back.client ≡ true
      → (p.http.read_paused ≡ true → (p.back.high_water_hit ≡ true) × (low ≤ length p.back.out))
        × (p.http.backend_paused ≡ p.back.read_paused)
run_paced site timeout now io es h =
    let s = run-IsSound site timeout now io es in
    (λ r. let w = s.paced.upload h r in (w, s.paced.floor w), s.paced.synced (s.linked.agree ∙ h))

-- After any history the two connections agree on whether they are linked; a closed connection has let go of
-- its backend, and one that still reads the head has none.
pub run_linked :
    (site : Site) (timeout now : ℕ) (io : Io) (es : List (Event × Io))
    → let p = after site timeout now io es in
      (p.http.backend ≡ p.back.client)
      × (p.http.closed ≡ true → p.http.backend ≡ false)
      × (p.http.backend ≡ true → p.http.state ≢ reading_head)
run_linked site timeout now io es =
    let s = run-IsSound site timeout now io es in (s.linked.agree, s.linked.shut, s.linked.begun)
