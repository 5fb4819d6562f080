-- ===== src/Cf/Text.antt =====
-- The sizes of what `execute` and `executeMany` record.

use cf_herdr_poc.Base.{
  map_text, ℕ, ◌-◌, ◌≤◌, String, Bytes, inl, inr, Option, none, some, List, [], ◌∷◌, Err, arith,
  length, drop, length-append, length-take, length-drop, ltb, Bool-cases, Option-cases,
}
use cf_herdr_poc.Model.{Operation}
use cf_herdr_poc.Sanitize.{blank_control}
use cf_herdr_poc.Cf.{bounded, cap_summary, truncation_marker}
use cf_herdr_poc.Cf.Execute.{
  Provider, Platform, Shell, Answer, refused, answered, command_display, append_summary,
  sanitize_output, append_command, merge_operations, conclude, execute, execute_loop, noted,
  tolerated, execute_many, started_operation,
}

pub length-bounded : (s : Bytes) → length (bounded s) ≤ 1024
unfolding bounded
length-bounded s =
    let clean = map_text blank_control s in
    elim (Bool-cases (ltb 1024 (length clean))) [
      | inl p ↦ rw p (omega (arith, length-take 1024 clean))
      | inr p ↦ rw p (ground arith)
    ]

pub length-cap_summary : (s : Bytes) → length (cap_summary s) ≤ 4096
unfolding cap_summary
length-cap_summary s = elim (Bool-cases (ltb 4096 (length s))) [
  | inl p ↦ rw p (
      omega (
        arith,
        length-append truncation_marker (drop (length s - 4071) s),
        length-drop (length s - 4071) s,
      ))
  | inr p ↦ rw p (ground arith)
]

-- The limits on the text of an operation.
pub record IsBounded (op : Operation) : Type 0 where
  pub command : length op.command ≤ 1024
  pub summary : length op.summary ≤ 4096

module _ {W : Type 0} (platform : Platform W) (p : Provider W) where
  merge-IsBounded : (a b : Operation) → IsBounded (merge_operations platform a b)
  unfolding merge_operations append_summary append_command
  merge-IsBounded a b = record { command = length-bounded _; summary = length-cap_summary _ }

  conclude-IsBounded :
      (name : String) (op : Operation) (n : ℕ) (c : Option Err) (a : Answer)
      → IsBounded op
      → IsBounded (conclude platform p name op n c a).0
  unfolding conclude sanitize_output
  conclude-IsBounded name op n c (refused t) h = record { command = h.command; summary = h.summary }
  conclude-IsBounded name op n c (answered out none) h = record {
    command = h.command;
    summary = length-cap_summary _;
  }
  conclude-IsBounded name op n c (answered out (some e)) h = record {
    command = h.command;
    summary = length-cap_summary _;
  }

  -- Whatever the runner does, the operation of a command has a command text of at most 1024 and a
  -- summary of at most 4096 bytes.
  pub execute-IsBounded :
      (name : String) (args : List String) (s : Shell W)
      → IsBounded (execute platform p name args s).1
  unfolding execute command_display
  execute-IsBounded name args s =
      conclude-IsBounded name (started_operation platform p name args (platform.now s.world)) _ _ _
        (record { command = length-bounded _; summary = omega arith })

  loop-IsBounded :
      (name : String) (n : ℕ) (cs : List (List String)) (r : Operation) (s : Shell W)
      → IsBounded r
      → IsBounded (execute_loop platform p name n cs r s).1
  unfolding execute_loop append_summary append_command
  loop-IsBounded name n [] r s h = record { command = h.command; summary = h.summary }
  loop-IsBounded name n (c ∷ cs) r s h =
      let (t, op, output, e) = execute platform p name c s in
      let next = noted platform p r op in
      let fits : IsBounded next = record {
        command = length-bounded _;
        summary = length-cap_summary _;
      } in
      let rest = loop-IsBounded name n cs next t fits in
      elim (Option-cases e) [
        | inl q ↦ rw (q, execute_loop) rest
        | inr q ↦ elim (Bool-cases (tolerated platform p name q.0)) [
          | inl y ↦ rw (q.1, execute_loop) (rw y rest)
          | inr y ↦
              rw (q.1, execute_loop)
                (rw y (record { command = fits.command; summary = fits.summary }))
        ]
      ]

  -- Whatever the runner does, the operation that a row of commands is recorded in has a command
  -- text of at most 1024 and a summary of at most 4096 bytes.
  pub execute_many-IsBounded :
      (name : String) (commands : List (List String)) (s : Shell W)
      → IsBounded (execute_many platform p name commands s).1
  unfolding execute_many
  execute_many-IsBounded name commands s =
      loop-IsBounded name _ commands _ s (record { command = omega arith; summary = omega arith })
