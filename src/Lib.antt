-- ===== src/Lib.antt =====
-- The proof engines of ch3_fv_examples/01_proof_engines: signals, words, ternary simulation, the
-- Tseitin encoding, the CDCL solver, the unrolling of bounded model checking, the step query of
-- induction, resolution proofs with interpolants, the reduction of liveness to safety, and localization
-- abstraction.
--
-- A design is a transition system over signals, a DAG of gates (circuit.py). An engine encodes the
-- signals of each time frame into clauses of the solver (circuit.py `tseitin`, cdcl.py `Solver`)
-- and asks the solver for a model. The model follows these files function by function:
--   * Circuit/Sig: circuit.py `Sig`, CONST, VAR, NOT, AND, OR, XOR, XNOR, IMPLIES, IFF, ITE. The
--     class counter `Sig._n` is threaded: a constructor is a function of the counter. Circuit/Meaning
--     is the Boolean value of a signal, Circuit/Gates collects what the constructors mean, and
--     Circuit/Numbering says that ids are unambiguous, which caches by `Sig.id` rest on.
--   * Circuit/Word: the `bv_` operations on LSB-first words, with child modules for the value of a
--     word, the adder family, the multiplier, and comparison and choice.
--   * Circuit/Count: `count_gates`.
--   * Circuit/Ternary: `ternary_eval`, its explicit stack and its memo. The loop takes fuel; that
--     enough fuel exists is a theorem (the bound is the length of the run that the proof builds).
--     A Python exception (a missing key) is the outcome `failed`.
--   * Sat/Literal and Sat/Solver: cdcl.py literals and the solver's state, new_var, value,
--     add_clause, _attach, _enqueue, _decision_level, _new_decision_level and _cancel_until. A
--     method is a function from the state to a result and a new state, or to `none` where Python
--     raises. Clauses are shared objects, so watch lists hold indices into a store of clauses.
--   * Sat/Propagate: cdcl.py `_propagate`, its watch lists and the swaps inside the shared clauses. Each
--     round reads one literal of the trail, which holds each variable once, so it runs on as many
--     rounds as there are variables and one more.
--   * Sat/Analyze: `_bump`, `_decay`, `_analyze` and `_record`. The loop of `_analyze` runs down the
--     trail; it raises where Python's index would go below the trail's start.
--   * Sat/Solve: new_vars, `_pick_branch`, `_assumption_core`, `_restart_next`, `solve`, model and
--     get_value. The number of rounds of `solve` is a parameter, and so is the comparison of floats,
--     since only the order of decisions depends on it. The stack of `_assumption_core` takes each
--     variable once. Sat/Solve/Grows and Sat/Solve/Branch are about what propagation keeps and when
--     branching gives up.
--   * Tseitin: circuit.py `_true_lit` and `tseitin`, over that solver. The memo by `Sig.id` and the
--     solver are the state of an encoding.
--   * Frame: circuit.py `TransitionSystem`, fresh_frame, next_env, assert_init, bad_lit and tie. A
--     frame's dictionary is a map from names to literals, and its memo. Frame/Runs says what a run of
--     a system is, apart from any encoding.
--     Frame/Words has bv_var, add_state_bv and read_bv, which name the bits of a word `x[0]`, `x[1]`.
--   * Bmc: bmc.py `tie`, `unroll` and the query that a round of `bmc` gives to the solver, with child
--     modules for a step, the unrolling, and the query. Frames are objects that later calls change
--     (their memo grows); the functions return them as the calls leave them.
--     Bmc/Loop is the loop of `bmc` over depths, with the solver's search as an argument, which
--     Bmc/Answers and Kinduction/Answers take to be `solve` of Sat/Solve; the rows that `trace` decodes
--     are left out.
--   * Kinduction: kinduction.py `one_step_inductive` up to its call of `solve`.
--     Kinduction/Loop is the loop of `k_induction`, its step queries included, and Kinduction/Answers is
--     about its answers; Kinduction/Chain, Kinduction/Proved and Kinduction/Window are about its step
--     query, from the frames to runs of any length.
--   * Ic3: ic3.py, in child modules for the cubes of a model and their lifting, the obligations, and the
--     search. A frozenset is a list, and the frames are a list of lists of clauses. The search and the
--     two calls of heapq are arguments; the loops of obligations and of bad cubes take fuel that the
--     caller gives, and a run that exhausts it has no answer. Ic3/Frames says which states the frames
--     allow, Ic3/Converged and Ic3/Generalized are about `_propagate` and `_generalize`, Ic3/Blocking
--     and Ic3/Reached about `_block`, Ic3/Drops and Ic3/Lift about lifting, and Ic3/Simulated about its simulations.
--   * WordCheck: word.py over the terms of smt.py: widths, and in child modules the blaster, which turns
--     terms into words of gates and reads memories by the stores on them, and the engines `wbmc` and
--     `w_kinduction`. The blaster's solver, memo, dictionaries and the counter of signals are one
--     threaded state. The search under assumptions is an argument. A set of names is listed in the
--     order in which the names were declared.
--   * Interp: interp.py `resolve`, `dpll_prove` and `mcmillan`. A frozenset is a list without
--     repetitions, the dictionary of a proof a list of entries. Each round of `rec` takes one fuel and
--     sets a variable, so as many as there are variables and one more are enough; `itp` descends to
--     older entries, so the number of entries and one more are enough.
--   * Liveness: liveness.py `apply_assumptions` and `liveness_to_safety`, over the systems of Frame and
--     the constructors of Circuit. Liveness/Monitors says what each added register computes,
--     Liveness/Augmented that the result has them all, Liveness/Loops what a loop of a run is, and
--     Liveness/Guarded is about `apply_assumptions`.
--   * Cegar: cegar.py `localize`, `_abs_cex`, `_simulate`, `_Frontier` and `cegar`, in child modules for
--     the counterexample, the replay and the loop; and circuit.py `support`, whose loop takes as many
--     rounds as the signal has nodes. The check of an abstraction is an argument of the loop, and
--     Cegar/Checked gives it IC3.
--     The simulations and the searches take fuel that the caller gives, and the loop of `cegar` as many
--     rounds as `max_rounds`.
--   * MulSampler: appF_synthesize_constraints/02_constructive_samplers/tier2_mul/ref.py, a sampler
--     apart from the engines: its shift registers, its draw by division and its loop.
--   * BddSampler: appF_synthesize_constraints/02_constructive_samplers/tier1_bdd/build_bdd.py, the
--     diagram of a constraint with a count at each node, and `unrank`, which decodes a number to a
--     solution. The constraint and ORDER are arguments; those of the source are in
--     BddSampler/Constraint. The tables `nodes` and `unique` are threaded; `build` recurses on the levels
--     left. BddSampler/Ranks numbers the solutions of a truth table apart from any diagram.
--   * Prelude: the shared library names, and lemmas on lists, numbers and bits.
--
-- Python's ints are natural numbers where the code uses them as sizes, ids and constants, and the
-- signed ℤ of Sat/Literal for literals. Floats of the activity heuristic are kept as the
-- operations that made them. The tracing calls under `T.on` and the label table `names` are left
-- out, since nothing the solver computes reads them. `trace` and `itp_mc`, the other
-- engines, the printers of ic3.py, the SystemVerilog front end and the generators of the appendices
-- are not modelled; of circuit.py, neither is sig_str, a printer. The bitwise xor of MulSampler
-- runs over as many bits as the sum of its arguments, and no number has more bits than its value.
pub mod Prelude
pub mod Circuit
pub mod Sat
pub mod Tseitin
pub mod Frame
pub mod Bmc
pub mod Kinduction
pub mod MulSampler
pub mod Interp
pub mod Liveness
pub mod Cegar
pub mod Ic3
pub mod WordCheck
pub mod BddSampler
