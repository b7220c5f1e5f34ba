-- ===== src/Lib.antt =====
-- A verification library for the RTL pipeline: its expression interpreter, its obligation kernel,
-- its refinement engine with the rules, its cycle-accurate simulator, its bridge between specs and
-- TLA+ text, its compiler from that text to Verilog, its vector check and its stage graph.
--
-- The pipeline turns a description of hardware into Verilog. Agents propose, and the deterministic
-- code modelled here decides: the kernel discharges the obligations of a loop that a derivation
-- introduces, the engine applies the rules that a picker chooses until a spec can become RTL, the
-- simulator computes the outputs that the generated hardware must have, and the
-- graph routes a run through its stages. The kernel and the simulator both evaluate expressions
-- with the interpreter; the graph takes what the stages answer as an argument of a step.
--
-- Expr: pipeline/cocotb/spec_sim.py, `_tokenize`, `_Interp` and `_eval`.
--   Expr/Value    the values, X for `None`, and the operations of the levels, masked to 32 bits
--   Expr/Token    the tokens, their spelling, and what the parser asks of the next one
--   Expr/Interp   `expr`, `_or`, `_and`, `_cmp`, `_add`, `_mul`, `_unary` and `_primary`
--   Expr/Lexer    `_TOKEN_RE`, `_tokenize` and `_eval`
--   Expr/Grammar  the grammar of the comment in that file, as trees with a meaning of their own
--   Expr/Steps, Expr/Total, Expr/Grammar/*, Expr/Lexer/Unlex   proofs
-- Kernel: pipeline/refinement/obligations.py.
--   Kernel          `_apply_init`, `_step_body`, `_portable`
--   Kernel/Domain   `_input_domain`, `_product`, `_product_lists`
--   Kernel/Check    `_check_O1`, `_check_O2`, `_check_O3` and the Python kernel
--   Kernel/Backend  `_resolve_backend` and `discharge_loop_obligations`
--   Kernel/Loop     the derivation's loop as a relation with no bound on its rounds
--   Kernel/Failure  what can be wrong with a derivation, case by case
--   Kernel/Sound, Kernel/Blame, Kernel/Verdict, Kernel/Refute, Kernel/Domain/*   proofs
-- Sim: pipeline/cocotb/spec_sim.py, `SpecSimulator`: `_mask`, `_recompute_comb`, `_set_inputs`,
--   `_edge`, `_is_reset_asserted` and `run`.
--   Sim/Build   `__init__`
--   Sim/Settle, Sim/Commit, Sim/Edge, Sim/Rows, Sim/Composed   proofs
-- Bridge: pipeline/refinement/bridge.py: `_compose_clocked_actions` and what it composes, the
--   branches and steps of an action, as text. The simulator's clocked updates are such a
--   composition, its left sides split into name and index.
--   Bridge/LeftSide  `_INDEXED_LHS_RE` and `_lhs_base`
--   Bridge/Forward   `formal_spec_to_engine_spec`, on pipeline/schemas/tla_schema.py
--   Bridge/Inputs    `_scan_identifiers`, `_free_inputs`, `_free_input_width`
--   Bridge/RtlText   `engine_spec_to_rtl_tla`, as lines
--   Bridge/AbstractText   `engine_spec_to_abstract_tla` and `_tla_primed_update`, as lines
--   Bridge/Drivers, Bridge/Text, Bridge/Priority, Bridge/Declared, Bridge/Mentions, Bridge/Signals
--     proofs
-- Compiler2: pipeline/compilers/compiler2.py, `RTLTLACompiler`: `_classify` and what it asks.
--   Compiler2/Text       regular expressions and substitutions on texts, as functions
--   Compiler2/Variables  `extract_variables`, `_range`
--   Compiler2/Translate  `_split_if_then_else`, `_translate_basic`, `translate_expr`
--   Compiler2/Parse      `_extract_block`, `_join_conjuncts`, `_split_reset_else`, the two parsers
--   Compiler2/Emit       `_undeclared_inputs`, `compile`, `compile_tla_to_verilog`
--   Compiler2/Banlist    `_strip_comments`, `verify_banlist`
--   Compiler2/Drivers, Compiler2/Ports, Compiler2/Declared, Compiler2/RightSide, Compiler2/Fuel,
--     Compiler2/Trim, Compiler2/Ternary  proofs
-- VectorCheck: pipeline/cocotb/vector_check.py, `_reconstruct_refined_spec`, `_compare` and
--   `apply_spec_derived_vectors`, over the engine's replay and the simulator.
--   VectorCheck/Agreement, VectorCheck/Refined   proofs
-- Spec: pipeline/refinement/rules/base.py, the dict of a spec as records.
-- Engine: pipeline/refinement/engine.py: `run`, `_backtrack`, `_replay_chain`, `_validate_pick` and
--   `_renumber_steps`, for any spec, parameters and registry. The rounds of `run` are functions by
--   its early returns: `attempt`, `judge`, `apply_choice`, `recover`, `consider`, `commit_step`.
--   Engine/Rounds       a property of the loop's variables through a round, way by way
--   Engine/Replay, Engine/Refused, Engine/Invariants   proofs
-- Rules: pipeline/refinement/rules/ and `is_rtl_style`: what the rules share, and a module for each
--   rule with its `is_applicable` and `apply`; Rules/IfChain is `_subst`, `_top_kw` and
--   `_parse_if_chain`, Rules/Registry is `TIER1_RULES`, with the kernel as an argument.
--   Rules/Inversion     what a rule that returned has done
--   Rules/Names, Rules/Audits, Rules/Installed, Rules/Pass, Rules/Formal, Rules/Again   proofs
-- Graph: pipeline/graph.py, pipeline/state.py and pipeline/nodes/.
--   Graph/Nodes   what a node writes, by its guards and by what the outside answers
--   Graph/Route   the routers
--   Graph         the nodes and edges of `build_graph`, as a step function
--   Graph/Halt, Graph/Safe   proofs
-- Prelude: what these share: dictionaries in insertion order, results with Python's exceptions,
--   numbers in decimal, and lists and Boolean tests over the native numbers. Examples: concrete runs.
--
-- Fuel. The parser has one unit more than there are tokens, since each call of `expr` takes one;
-- the tokenizer and the substitution have the characters of their text, and each step takes one;
-- the number of digits of n is at most n. The loops of the kernel and the settling of the
-- simulator have the bounds that the code gives them: `max_iters`, and one round more than there
-- are combinational definitions. The second compiler has the characters of a text, and each call on
-- a part of it takes one. The engine has the rounds of `max_steps` and rolls back at most
-- MAX_BACKTRACK_DEPTH steps; an IF chain loses characters in each round of its parser.
--
-- Numbers are unsigned. Arithmetic is masked to 32 bits as in the code, so no operation makes a
-- negative number; a negative number in a stimulus and a negative width are not modelled. A value
-- that the first agent expects is such a number, X or a list of these. Text is ASCII. The limit that
-- LangGraph sets to the nodes of a run is the library's. Not modelled: the compiled kernel (an
-- argument of Kernel/Backend, of which nothing is assumed), the compiled cycle engine, the superseded
-- `_negate_guard` and `_clocked_update_exprs` of the bridge, the rule picker, the first compiler, the
-- generated test bench, the agents, files and processes.
pub mod Prelude
pub mod Expr
pub mod Kernel
pub mod Graph
pub mod Sim
pub mod Bridge
pub mod Compiler2
pub mod Engine
pub mod Rules
pub mod Spec
pub mod VectorCheck
pub mod Examples
