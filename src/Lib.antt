-- ===== src/Lib.antt =====
-- Verification of cicd-squabbler, the agent that turns a red or stuck merge gate into an honest
-- green, yellow or red. The files below model the pure core of the program,
-- crates/squabble-core, and of crates/squabble-fight the reading of workflow files, the plan that is
-- made of a gate and the one move that edits files; what talks to GitHub and prints is around them.
--
-- The parts and the files that model them:
--   Gate       crates/squabble-core/src/gate.rs: a merge gate as the required checks and the runs
--              reported for the head; `for_context` selects the run that decides a context and
--              `evaluate` colours the gate.
--   Moves      crates/squabble-core/src/moves.rs: the legitimate moves, who resolves each, and the
--              texts that describe them (Moves/Describe).
--   Outcome    crates/squabble-core/src/outcome.rs: the three terminal results and the report.
--   Diagnose   crates/squabble-core/src/lib.rs: from the unsatisfied checks of a gate to one move
--              for each.
--   Admission  crates/squabble-core/src/admission.rs: whether a request for runner time is admitted,
--              queued, quarantined or denied, and what it reserves.
--   Polarity   crates/squabble-core/src/polarity.rs: whether a green check measured anything.
--   Execution  crates/squabble-core/src/execution.rs: what a concluded job's steps say of it.
--   Done       crates/squabble-core/src/done.rs: whether a pull request is done, from its state.
--   Chains     crates/squabble-core/src/chains.rs: the names and pins of upstream repositories, what
--              a source returned for one, the graph that scans are recorded in (Graph), the
--              references that are confirmed (Confirmed), the landing order (Landing), the cycles
--              by Tarjan's algorithm (Cycles), the critical path (Critical), the routes into a
--              consumer (Routes), and the report of `analyse` with its findings (Findings,
--              Analyse). A BTreeMap or BTreeSet is a list in the order of its keys (Keys), and equal
--              names are those that are equal without regard to ASCII case. The rounds of the
--              landing order have as fuel one more than the number of repositories, since each lands
--              at least one; the loop of the confirmed edges has the number of edges, since each
--              round confirms one more; the visits of the search for cycles have the number of
--              repositories and the following of calls one more than the number of edges, since none
--              is entered twice; the walk back along the critical path has the number of
--              repositories that were weighed.
--   Startup    crates/squabble-core/src/startup.rs: the caller's allow-list, the coordinates that a
--              workflow uses, the cause and the move for a run that started no job, and the
--              report of them (Reports).
--   Inbox      crates/squabble-core/src/inbox.rs: which notification threads are finished.
--   Board      crates/squabble-core/src/board.rs: where an open pull request goes on the board
--              (`classify`), the dates that it is judged by (Dates), and the text of the board
--              (Rows, Render). The loop that cuts the lists has as fuel ten rounds: 400 is halved to zero
--              in nine.
--   Workflows  crates/squabble-fight/src/workflows.rs: the facts that are read from the text of a
--              workflow file (Tokens, Parse, Policy, Filter), the posture of the repository's
--              Actions, and the move that a red check gets from both.
--   Fight      crates/squabble-fight/src/lib.rs: `plan_with_policy`, which classifies the
--              unsatisfied checks with Workflows, lets Diagnose fill the gaps, puts the moves into
--              the sections of the report with Outcome and adds what `structural_scan` finds
--              (Scan). Apply models crates/squabble-fight/src/apply.rs over a store of texts.
--              Extract, Graphs and Local model crates/squabble-fight/src/chains.rs: the references of
--              a workflow file, the graph of Chains that snapshots are folded into, and the snapshot
--              of a checkout, over what its file system answers. Context models
--              crates/squabble-fight/src/context.rs and Triage crates/squabble-fight/src/gate_triage.rs
--              and execution.rs: what the directives of a repository declare, read from their text
--              for Polarity and Execution.
-- Diagnose, Execution and Done read the gate of Gate; Polarity proposes moves of Moves, which
-- Outcome projects into the report; Startup uses the pins of Chains.
-- A child of a part proves what its name says and Samples holds the tests and the examples.
--
-- How the code is read. A String is the list of its code points and `str_len` counts the bytes of
-- its UTF-8 form. A struct is a record, an enum a data type with its variants in snake_case, and a
-- method takes its receiver as an argument. u64, u32 and usize are natural numbers and i64 is an
-- integer: the checked arithmetic of a reservation and the parsing of a number have their bounds
-- written out, and the days, counts and sizes that are computed besides stay far below them. A map
-- that the code only reads, or only counts in, is the function its `get` computes. An iterator chain
-- is a recursion on a list, so few loops have fuel: those of Chains and the rendering of the board
-- (above), and the printing of a number, which has as fuel one more than the number itself, since a
-- number has no more digits than that. Where the code may panic the model
-- returns an Option, and none is the panic. Files are a function from paths to texts, and a write
-- that fails leaves what a parameter says; serde's reading of a YAML string is a parameter too.
-- Floating-point numbers (the rates of Polarity) and their printed form are parameters.
--
-- Not modelled: serialization; of crates/squabble-fight the walk over the directory of workflows that
-- the plan reads, and startup.rs, which reads the answers of GitHub on runs that started no job and
-- attributes them; and the crates squabble-forge, squabble-cli and squabble-app, which call GitHub,
-- read arguments and print.
pub mod Prelude
pub mod Gate
pub mod Moves
pub mod Outcome
pub mod Diagnose
pub mod Admission
pub mod Polarity
pub mod Execution
pub mod Done
pub mod Chains
pub mod Startup
pub mod Inbox
pub mod Workflows
pub mod Fight
pub mod Board
