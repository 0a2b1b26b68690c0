-- ===== src/Lib.antt =====
-- Verification of the solver core of resolvo, a SAT-based package solver.
--
-- The solver keeps a trail of decisions (src/solver/decision_tracker.rs) over a map of the assigned
-- values (src/solver/decision_map.rs). Clauses (src/solver/clause.rs) watch two of their literals;
-- src/solver/watch_map.rs links the clauses that watch one literal into a list, whose heads are in a
-- chunked map (src/utils/mapping.rs). When a literal turns false, propagation walks its list with a
-- cursor, and for each clause finds another literal to watch, to whose list the clause then moves, or
-- decides the literal that is left. A conflict is resolved with the reasons of the decisions into a
-- learnt clause, at the first level into the clauses that are reported. Requirements may hold under a
-- condition (src/solver/conditions.rs), and wait in a map of deferred requirements
-- (src/solver/mod.rs) until a disjunct of it holds. The candidates of a package are variables
-- (src/solver/variable_map.rs) of which the clauses of src/solver/binary_encoding.rs let at most one
-- be true.
--
-- Modules:
--   Prelude          names and helpers that all modules share; Outcome has the result of code that
--                    may panic
--   Mapping          src/utils/mapping.rs: insert, get_or_insert_with, unset, get, the iterator
--   DecisionMap      src/solver/decision_map.rs: set, reset, value, level; `set_decision` is `set`
--   DecisionTracker  src/solver/decision_tracker.rs, src/solver/decision.rs: try_add_decision,
--                    undo_last, undo_until, next_unpropagated, take_sync_floor, clear
--   Literal, Clause  src/solver/clause.rs: literals, clauses and their constructors (Build,
--                    Watched), the search for another literal to watch
--   WatchMap         src/solver/watch_map.rs: start_watching, and the cursor with next and update
--   Conditions       src/solver/conditions.rs, src/conditional_requirement.rs
--   Clauses          the clauses of src/solver/mod.rs and add_clause
--   Propagation      propagate_impl, decide_assertions and decide_learned of src/solver/mod.rs; what
--                    they only read is the `Problem`, what they change the `SolverState`
--   Analysis         the loops of `analyze` of src/solver/mod.rs, which resolve clauses along the trail
--   Learning         `analyze`, `learn_from_conflict` and `analyze_unsolvable` of src/solver/mod.rs,
--                    with the fields that they read and change in a `Solver`
--   AtMostOnce       src/solver/binary_encoding.rs: the clauses by which at most one variable is true
--   VariableMap      src/solver/variable_map.rs: variables, their origins, and those of the solvables
--   Gates            src/solver/mod.rs: force_stuck_gates
--   Deferred         the deferred requirements of src/solver/mod.rs
--   Tests            runs at concrete inputs
--
-- Ids are natural numbers, by their index. Machine integers are written out where they can wrap: the
-- `i32` of a decision and the `u32` of a literal; lengths and indices (`usize`) are unbounded. A
-- failed `unwrap`, `expect`, index or `unreachable` is the outcome `panic` of a `Run`; an unchecked
-- access that is undefined behaviour out of bounds is a panic as well, except in the iterator of
-- src/utils/mapping.rs, where it reads no value. The conversion of an index to a `u32` id, which
-- panics when there are too many, always succeeds here. What the source mutates through references
-- is passed along: a cursor comes with the state of the map and of the clauses that it borrows.
--
-- Fuel: the loop of `undo_until` has one unit more than the trail is long; the conversion of
-- conditions takes fuel as an argument, and the height of the condition is enough. In propagation the
-- walk over one list takes fuel, of which the length of the list is enough, and so does the outer
-- loop, of which the number of variables and one is. The loops of `analyze` have one unit more than
-- the trail is long, and the recursion of `analyze_unsolvable_clause` one more than the clause's id,
-- since a learnt clause was learnt from clauses before it. The loop that allocates helpers has one
-- unit more than there are variables, and takes at most one round. The other loops are structural
-- recursion.
--
-- The interner that resolves conditions and indexmap's map of the deferred requirements are
-- parameters, the latter with the laws of reading after writing and after removing; so is the map
-- from the ids of the provider, `IdMap` of src/solver_id.rs, whose storage the provider selects.
--
-- Not modelled: the main loop of src/solver/mod.rs and the activity scores, which only order the
-- decisions; the decision queue (src/solver/decide_queue.rs), the encoder (src/solver/encoding.rs) and
-- the cache; ids, arenas and the pool; the report of conflicts (src/conflict.rs), snapshots, display
-- code, diagnostics and the C++ bindings, which are output or glue.
pub mod Prelude
pub mod Mapping
pub mod Literal
pub mod DecisionMap
pub mod DecisionTracker
pub mod Clause
pub mod WatchMap
pub mod Conditions
pub mod Deferred
pub mod Clauses
pub mod Propagation
pub mod Analysis
pub mod Learning
pub mod AtMostOnce
pub mod VariableMap
pub mod Gates
pub mod Tests
