-- ===== src/Tools/Finish.antt =====
-- What a successful run of a tool rests on.
use zoo_keeper_server.Prelude.{
  ℕ, ◌≡◌, refl, subst, ◌∙◌, ap, inl, inr, Bytes, true, false, ◌==◌, Option, none, some, List, [],
  ◌∷◌, length, arith, Bool-cases, Option-cases,
}
use zoo_keeper_server.Api.{ok, err, fail_if, fail_if-passes, on_success, Expected-cases}
use zoo_keeper_server.Json.{JsonApi, is_object}
use zoo_keeper_server.Tools.Prepare.{PreparedCommandTool}
use zoo_keeper_server.Tools.Run.{
  Setup, set_up, check_status, parse_output, read_result, after_loop, stdin_payload,
  run_prepared_command_tool,
}
use zoo_keeper_server.Tools.Loop.{
  Status, exited, signaled, other, Turn, RunState, loop_start, wait_step, deadline_step,
  is_finished, poll_step, run_loop,
}
use zoo_keeper_server.Tools.Capture.{CapturedStream}

run_loop-IsFinished :
    (size : ℕ) (turns : List Turn) (s s' : RunState)
    → run_loop size turns s ≡ some (ok s')
    → is_finished s' ≡ true
unfolding run_loop
run_loop-IsFinished size [] s s' h = cc
run_loop-IsFinished size (turn ∷ turns) s s' h =
    elim (Expected-cases (wait_step turn s)) as (λ _. is_finished s' ≡ true) [
      | inl (what, e) ↦ cc
      | inr (waited, e) ↦
          let late = deadline_step turn waited in
          elim (Bool-cases (is_finished late)) as (λ _. is_finished s' ≡ true) [
            | inl f ↦
                let same : late ≡ s' = cc in subst (λ (t : RunState). is_finished t ≡ true) same f
            | inr f ↦
                elim (Expected-cases (poll_step size turn late)) as (λ _. is_finished s' ≡ true) [
                  | inl (what, p) ↦ cc
                  | inr (next, p) ↦ run_loop-IsFinished size turns next s' cc
                ]
          ]
    ]

check_status_eq_ok :
    (child : Option Status) (c : CapturedStream) {u : Unit {0}}
    → check_status child c ≡ ok u
    → child ≡ some (exited 0)
unfolding check_status
check_status_eq_ok none c h = cc
check_status_eq_ok (some (signaled n)) c h = cc
check_status_eq_ok (some other) c h = cc
check_status_eq_ok (some (exited code)) c h = elim (Bool-cases (code == 0)) [
  | inl e ↦ let zero_code : code ≡ 0 = ground arith in rw zero_code refl
  | inr e ↦ let bad : fail_if true _ ≡ ok tt = rw e at h in cc
]

module _ {J R I : Type 0} (json : JsonApi J R I) where
  -- A run that ended in time, with status 0 and a stdout that was not cut, which is this object.
  pub record Succeeded (s : RunState) (output : J) : Type 0 where
    pub in_time : s.timed_out ≡ false
    pub whole : s.stdout_capture.truncated ≡ false
    pub status : s.child ≡ some (exited 0)
    pub parsed : json.parse s.stdout_capture.data_ ≡ ok output
    pub object : is_object (json.view output) ≡ true

  parse_output_eq_ok :
      (b : Bytes) (output : J)
      → parse_output json b ≡ ok output
      → (json.parse b ≡ ok output) × (is_object (json.view output) ≡ true)
  unfolding parse_output
  parse_output_eq_ok b output h =
      elim (Expected-cases (json.parse b))
        as (λ _. (json.parse b ≡ ok output) × (is_object (json.view output) ≡ true)) [
          | inl (what, e) ↦ cc
          | inr (j, e) ↦
              elim (Bool-cases (is_object (json.view j)))
                as (λ _. (json.parse b ≡ ok output) × (is_object (json.view output) ≡ true)) [
                  | inr o ↦ cc
                  | inl o ↦
                      let same : j ≡ output = cc in
                      (
                        e ∙ ap (λ (v : J). ok v) same,
                        subst (λ (v : J). is_object (json.view v) ≡ true) same o,
                      )
                ]
        ]

  after_loop-Succeeded :
      (timeout_ms : ℕ) (s : RunState) (output : J)
      → after_loop json timeout_ms s ≡ ok output
      → Succeeded s output
  unfolding after_loop read_result
  after_loop-Succeeded timeout_ms s output h =
      elim (Bool-cases s.timed_out) as (λ _. Succeeded s output) [
        | inl late ↦ cc
        | inr in_time ↦ elim (Expected-cases (read_result json s)) as (λ _. Succeeded s output) [
          | inl (what, e) ↦ cc
          | inr (j, e) ↦
              let read : read_result json s ≡ ok output = cc in
              on_success (fail_if s.stdout_capture.truncated _) _ read (λ _ whole h1.
                on_success (check_status s.child s.stderr_capture) _ h1 (λ _ status h2.
                  let parsed = parse_output_eq_ok s.stdout_capture.data_ output h2 in
                  record {
                    in_time = in_time;
                    whole = fail_if-passes _ _ whole;
                    status = check_status_eq_ok s.child s.stderr_capture status;
                    parsed = parsed.0;
                    object = parsed.1;
                  }))
        ]
      ]

  -- Every call before the loop succeeded, and the loop ended, with the process waited for and both
  -- of its output pipes at their end, in a success.
  abbrev pub RanWell : Setup → List Turn → PreparedCommandTool J → J → J → Type 0
  RanWell setup turns prepared arguments output =
      (set_up setup prepared.config.working_directory ≡ ok tt)
      × ((s : RunState) × (run_loop (length (stdin_payload json arguments)) turns loop_start
            ≡ some (ok s))
          × (is_finished s ≡ true)
          × Succeeded s output)

  -- When a run gives back an output, then every call before the loop succeeded, the loop ended with
  -- the process waited for and both of its output pipes at their end, the process ended in time with
  -- status 0, what it wrote to stdout was not cut at the limit, and the output is the JSON object
  -- which that text parses as.
  pub run_prepared_command_tool_eq_ok :
      (setup : Setup) (turns : List Turn) (prepared : PreparedCommandTool J) (arguments output : J)
      → run_prepared_command_tool json setup turns prepared arguments ≡ some (ok output)
      → RanWell setup turns prepared arguments output
  unfolding run_prepared_command_tool
  run_prepared_command_tool_eq_ok setup turns prepared arguments output h =
      let size = length (stdin_payload json arguments) in
      let Goal = RanWell setup turns prepared arguments output in
      elim (Expected-cases (set_up setup prepared.config.working_directory)) as (λ _. Goal) [
        | inl (message, e) ↦ cc
        | inr (u, e) ↦ elim (Bool-cases (json.dump_throws arguments)) as (λ _. Goal) [
          | inl t ↦ cc
          | inr t ↦ elim (Option-cases (run_loop size turns loop_start)) as (λ _. Goal) [
            | inl r ↦ cc
            | inr (err message, r) ↦ cc
            | inr (ok s, r) ↦
                let good : after_loop json prepared.config.timeout_ms s ≡ ok output = cc in
                (
                  e,
                  (
                    s,
                    r,
                    run_loop-IsFinished size turns loop_start s r,
                    after_loop-Succeeded prepared.config.timeout_ms s output good,
                  ),
                )
          ]
        ]
      ]
