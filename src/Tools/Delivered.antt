-- ===== src/Tools/Delivered.antt =====
-- What a run of a tool has read from its stdout.
use mathlib.Core.List.{append_assoc, append-nil}
use zoo_keeper_server.Prelude.{
  ℕ, ◌≡◌, ◌≤◌, refl, sym, subst, ◌∙◌, ap, inl, inr, Bytes, Bool, true, false, not, ◌&&◌, some, List,
  [], ◌∷◌, ◌++◌, length, ltb, has_value, arith, Bool-cases, Option-cases, if◌then◌else◌, text,
}
use zoo_keeper_server.Api.{ok, err, ◌>>=◌, on_success, Expected-cases}
use zoo_keeper_server.Tools.Run.{Setup, stdin_payload, run_prepared_command_tool}
use zoo_keeper_server.Tools.Loop.{
  Ready, Polled, ready, poll_failed, poll_interrupted, poll_timeout, Turn, RunState, wait_step,
  try_wait, deadline_step, is_finished, has_pipes, stdin_step, stdout_step, stderr_step, poll_step,
  run_loop, loop_start,
}
use zoo_keeper_server.Tools.Capture.{max_stdout_bytes, CapturedStream, Reads}
use zoo_keeper_server.Json.{JsonApi}
use zoo_keeper_server.Tools.Prepare.{PreparedCommandTool}
use zoo_keeper_server.Tools.Output.{received, Holds, take_all, read_available-Holds}
use zoo_keeper_server.Tools.Finish.{run_prepared_command_tool_eq_ok}

abbrev is_readable : Polled → Bool
is_readable (ready r) = r.stdout_readable
is_readable _ = false

-- What a turn reads from stdout.
unfoldable pub turn_output : Turn → RunState → Bytes
turn_output turn s =
    if s.stdout_open && is_readable turn.poll then received turn.stdout_reads else []

-- What the turns read from stdout.
unfoldable pub stdout_of : ℕ → List Turn → RunState → Bytes
stdout_of size [] s = []
stdout_of size (turn ∷ turns) s = elim (wait_step turn s) [
  | err what ↦ []
  | ok waited ↦
      let late = deadline_step turn waited in
      if is_finished late then [] else elim (poll_step size turn late) [
        | err what ↦ []
        | ok next ↦ turn_output turn late ++ stdout_of size turns next
      ]
]

-- Two states with the same stdout.
record SameOutput (s t : RunState) : Type 0 where
  pub captured : t.stdout_capture ≡ s.stdout_capture
  pub still_open : t.stdout_open ≡ s.stdout_open

wait_step-SameOutput : (turn : Turn) (s t : RunState) → wait_step turn s ≡ ok t → SameOutput s t
unfolding wait_step
wait_step-SameOutput turn s t h = elim (Option-cases s.child) [
  | inr (status, e) ↦
      let same : s ≡ t = cc in
      record {
        captured = ap (λ (r : RunState). r.stdout_capture) (sym same);
        still_open = ap (λ (r : RunState). r.stdout_open) (sym same);
      }
  | inl e ↦ elim (Expected-cases (try_wait turn.waits)) [
    | inl (what, w) ↦ cc
    | inr (child, w) ↦
        let same : record s { child = child } ≡ t = cc in
        record {
          captured = ap (λ (r : RunState). r.stdout_capture) (sym same);
          still_open = ap (λ (r : RunState). r.stdout_open) (sym same);
        }
  ]
]

deadline_step-SameOutput : (turn : Turn) (s : RunState) → SameOutput s (deadline_step turn s)
unfolding deadline_step
deadline_step-SameOutput turn s =
    elim (Bool-cases (not (has_value s.child) && turn.past_deadline)) [
      | inl e ↦ rw e (record { captured = refl; still_open = refl })
      | inr e ↦ rw e (record { captured = refl; still_open = refl })
    ]

stderr_step-SameOutput :
    (r : Ready) (reads : Reads) (s t : RunState) → stderr_step r reads s ≡ ok t → SameOutput s t
unfolding stderr_step
stderr_step-SameOutput r reads s t h = ground arith

stdin_step-SameOutput :
    (size : ℕ) (turn : Turn) (r : Ready) (s t : RunState)
    → stdin_step size r turn.writes s ≡ ok t
    → SameOutput s t
unfolding stdin_step
stdin_step-SameOutput size turn r s t h = ground arith

stdout_step-Holds :
    (r : Ready) (reads : Reads) (seen : Bytes) (s t : RunState)
    → Holds max_stdout_bytes seen s.stdout_capture
    → stdout_step r reads s ≡ ok t
    → Holds max_stdout_bytes
        (seen ++ (if s.stdout_open && r.stdout_readable then received reads else []))
        t.stdout_capture
unfolding stdout_step
stdout_step-Holds r reads seen s t h e = elim (Bool-cases (s.stdout_open && r.stdout_readable)) [
  | inr closed ↦
      let same : s ≡ t = cc in
      rw closed (
        rw (append-nil seen)
          (subst (λ (v : RunState). Holds max_stdout_bytes seen v.stdout_capture) same h))
  | inl open_ ↦ elim (read_available-Holds reads max_stdout_bytes seen s.stdout_capture h) [
    | inr (what, f) ↦ cc
    | inl (still_open, c, f, holds, bound) ↦
        let same : record s { stdout_open = still_open; stdout_capture = c } ≡ t = cc in
        rw open_ (
          subst (λ (v : RunState). Holds max_stdout_bytes (seen ++ received reads) v.stdout_capture)
            same holds)
  ]
]

-- The state of a capture carries over.
carried :
    (seen : Bytes) (s t : RunState)
    → SameOutput s t
    → Holds max_stdout_bytes seen s.stdout_capture
    → Holds max_stdout_bytes seen t.stdout_capture
carried seen s t same h =
    subst (λ (c : CapturedStream). Holds max_stdout_bytes seen c) (sym same.captured) h

silent :
    (b : Bool) (reads : Reads) (seen : Bytes) (s t : RunState)
    → b ≡ false
    → s ≡ t
    → Holds max_stdout_bytes seen s.stdout_capture
    → Holds max_stdout_bytes (seen ++ (if b then received reads else [])) t.stdout_capture
silent b reads seen s t e same h = rw e (
    rw (append-nil seen)
      (subst (λ (v : RunState). Holds max_stdout_bytes seen v.stdout_capture) same h))

and_false : (b : Bool) → b && false ≡ false
and_false true = refl
and_false false = refl

-- The steps of a turn after `poll`.
polled_Holds :
    (size : ℕ) (turn : Turn) (r : Ready) (seen : Bytes) (s t : RunState)
    → Holds max_stdout_bytes seen s.stdout_capture
    → (stdin_step size r turn.writes s >>= λ s1.
        stdout_step r turn.stdout_reads s1 >>= λ s2. stderr_step r turn.stderr_reads s2)
      ≡ ok t
    → Holds max_stdout_bytes
        (seen ++ (if s.stdout_open && r.stdout_readable then received turn.stdout_reads else []))
        t.stdout_capture
polled_Holds size turn r seen s t h e =
    on_success (stdin_step size r turn.writes s) _ e (λ s1 first e1.
      on_success (stdout_step r turn.stdout_reads s1) _ e1 (λ s2 second third.
        let same = stdin_step-SameOutput size turn r s s1 first in
        let holds =
          stdout_step-Holds r turn.stdout_reads seen s1 s2 (carried seen s s1 same h) second in
        let kept = carried _ s2 t (stderr_step-SameOutput r turn.stderr_reads s2 t third) holds in
        subst
          (λ (b : Bool).
            Holds max_stdout_bytes
              (seen ++ (if b && r.stdout_readable then received turn.stdout_reads else []))
              t.stdout_capture)
          same.still_open kept))

answered_Holds :
    (size : ℕ) (turn : Turn) (p : Polled) (seen : Bytes) (s t : RunState)
    → Holds max_stdout_bytes seen s.stdout_capture
    → elim p [
      | poll_failed what ↦ err (text "Failed while polling tool pipes: " ++ what)
      | poll_interrupted ↦ ok s
      | poll_timeout ↦ ok s
      | ready r ↦ stdin_step size r turn.writes s >>= λ s1.
          stdout_step r turn.stdout_reads s1 >>= λ s2. stderr_step r turn.stderr_reads s2
    ]
      ≡ ok t
    → Holds max_stdout_bytes
        (seen ++ (if s.stdout_open && is_readable p then received turn.stdout_reads else []))
        t.stdout_capture
answered_Holds size turn (poll_failed what) seen s t h e = cc
answered_Holds size turn poll_interrupted seen s t h e =
    silent _ turn.stdout_reads seen s t (and_false s.stdout_open) (cc) h
answered_Holds size turn poll_timeout seen s t h e =
    silent _ turn.stdout_reads seen s t (and_false s.stdout_open) (cc) h
answered_Holds size turn (ready r) seen s t h e = polled_Holds size turn r seen s t h e

poll_step-Holds :
    (size : ℕ) (turn : Turn) (seen : Bytes) (s t : RunState)
    → Holds max_stdout_bytes seen s.stdout_capture
    → poll_step size turn s ≡ ok t
    → Holds max_stdout_bytes (seen ++ turn_output turn s) t.stdout_capture
unfolding poll_step turn_output
poll_step-Holds size turn seen s t h e = elim (Bool-cases (has_pipes size s)) [
  | inr shut ↦
      let closed : s.stdout_open && is_readable turn.poll ≡ false = ground arith in
      silent _ turn.stdout_reads seen s t closed (cc) h
  | inl pipes ↦ answered_Holds size turn turn.poll seen s t h (rw pipes at e)
]

run_loop-Holds :
    (size : ℕ) (turns : List Turn) (seen : Bytes) (s t : RunState)
    → Holds max_stdout_bytes seen s.stdout_capture
    → run_loop size turns s ≡ some (ok t)
    → Holds max_stdout_bytes (seen ++ stdout_of size turns s) t.stdout_capture
unfolding run_loop stdout_of
run_loop-Holds size [] seen s t h e = cc
run_loop-Holds size (turn ∷ turns) seen s t h e = elim (Expected-cases (wait_step turn s)) [
  | inl (what, w) ↦ cc
  | inr (waited, w) ↦
      let late = deadline_step turn waited in
      let before =
        carried seen waited late (deadline_step-SameOutput turn waited)
          (carried seen s waited (wait_step-SameOutput turn s waited w) h) in
      elim (Bool-cases (is_finished late)) [
        | inl f ↦
            let same : late ≡ t = cc in
            rw (w, stdout_of)
              (rw f (
                rw (append-nil seen) (
                  subst (λ (v : RunState). Holds max_stdout_bytes seen v.stdout_capture) same
                    before)))
        | inr f ↦ elim (Expected-cases (poll_step size turn late)) [
          | inl (what, p) ↦ cc
          | inr (next, p) ↦
              let rest =
                run_loop-Holds size turns (seen ++ turn_output turn late) next t
                  (poll_step-Holds size turn seen late next before p) cc in
              rw (w, stdout_of)
                (rw f (
                  rw (p, stdout_of)
                    (rw (← append_assoc seen (turn_output turn late) (stdout_of size turns next))
                      rest)))
        ]
      ]
]

start_Holds : Holds max_stdout_bytes [] loop_start.stdout_capture
start_Holds = record { kept = refl; cut = refl }

within : (n : ℕ) → ltb max_stdout_bytes n ≡ false → n ≤ max_stdout_bytes
within n h = ground arith

whole_lem :
    (seen : Bytes) (c : CapturedStream)
    → Holds max_stdout_bytes seen c
    → c.truncated ≡ false
    → (c.data_ ≡ seen) × (length seen ≤ max_stdout_bytes)
whole_lem seen c h whole =
    let small = within (length seen) (sym h.cut ∙ whole) in
    (h.kept ∙ take_all max_stdout_bytes seen small, small)

module _ {J R I : Type 0} (json : JsonApi J R I) where
  -- When a run gives back an output, it is what everything that the turns of the loop read from
  -- stdout parses as, and that is no longer than the limit.
  pub run_prepared_command_tool-stdout_of :
      (setup : Setup) (turns : List Turn) (prepared : PreparedCommandTool J) (arguments output : J)
      → run_prepared_command_tool json setup turns prepared arguments ≡ some (ok output)
      → let written = stdout_of (length (stdin_payload json arguments)) turns loop_start in
        (json.parse written ≡ ok output) × (length written ≤ max_stdout_bytes)
  run_prepared_command_tool-stdout_of setup turns prepared arguments output h =
      let size = length (stdin_payload json arguments) in
      let (s, ended, _, good) =
        (run_prepared_command_tool_eq_ok json setup turns prepared arguments output h).1 in
      let (same, small) =
        whole_lem (stdout_of size turns loop_start) s.stdout_capture
          (run_loop-Holds size turns [] loop_start s start_Holds ended) good.whole in
      (subst (λ (b : Bytes). json.parse b ≡ ok output) same good.parsed, small)
