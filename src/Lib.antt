-- ===== src/Lib.antt =====
-- A verification library of finance-context-builder, which turns Excel workbooks of financial models
-- into a context document and a formula graph.
--
-- The pipeline is parse, compile, layout, relations, graph, build, render. Cells are named by a sheet
-- and an A1 address (Excel); compile keeps an index of the cells it has seen as runs of rows (Formulas).
--
-- Base holds what the other modules share: tests on numbers, lists, dictionaries, equality as an
-- interface, Python text as code points, and the Unicode character classes as a parameter.
-- Excel/Columns and Excel/Addresses follow src/finance_context/excel/a1.py (col_to_index,
-- index_to_col with its cache, in_grid, parse_addr, format_addr, is_derived_addr).
-- Formulas/Spans follows _merge_spans, _span_has, _span_overlap and _first_span_row of
-- src/finance_context/formulas/csr.py. Formulas/RunTables and Formulas/Known follow the class
-- KnownNodes of src/finance_context/formulas/known.py, and canonical_node_id of formulas/stage.py.
-- Excel/ZipGuard follows src/finance_context/excel/zip_guard.py: a ContextError is a value, and the
-- file is given by its size, the kind that Excel/Ole2 finds and the members of its archive. A part that
-- gets as far as the ratio has at most 2^29 bytes, so the rounded float quotient reaches the whole
-- limit exactly where the sizes do.
-- Excel/Ole2 follows src/finance_context/excel/ole2.py on the bytes of the file, which does not change
-- while it is read; the fuel of its loops is what the code counts down. The sectors that can be read
-- are fewer than the rounds of the loop over the directory.
-- Formulas/Syntax has the tokens and trees, and Formulas/Parser follows the class _Parser of
-- src/finance_context/formulas/parse.py: a parser takes the tokens that are left and returns a tree
-- and the tokens after it. Floats, references and the case of letters are parameters. The fuel of
-- each loop is the number of tokens that are left, since a round takes one; a result of its own says
-- that fuel ran out, and the code has no counterpart of it. The four loops of left-associative
-- operators have one shape in the source and are one definition.
-- Formulas/Characters, References, Scan and Tokenizer follow src/finance_context/formulas/scan.py: the
-- Unicode classes are parameters, a reading of a number that float refuses is the value value_error,
-- and the fuel of the loop is the length of the text, since a round takes a character or fails.
-- Formulas/Shift, Template, Edges and Engine follow shift_parsed and FormulaEngine of
-- src/finance_context/formulas/engine.py, and the template and the edges of
-- src/finance_context/formulas/render.py. The print of a float is a parameter.
-- Formulas/Usage has SheetUsage and the present cells of a rectangle; str.casefold is a parameter.
-- Formulas/RangeNodes has the range nodes of formulas/csr.py. Graph/Segments, Graph/Intervals and
-- Graph/CoverIndex follow _cover, _Intervals and CoverIndex of src/finance_context/graph/ranges.py. A
-- Python list that a loop updates in place is a function from the index there. Each round of _cover
-- and of covering pops a segment of a binary tree of n leaves, which has 2 n - 1 of them.
-- Graph/Trace and Graph/Walk follow trace_graph of src/finance_context/graph/trace.py: the edges, the
-- cells and the index are given as read from the files, and what the class _Ranges answers is the
-- interface Ranges. Its fuel is the number of starts and of the neighbours of all nodes, since a node
-- is entered once. Graph/Refs follows parse_node_id of src/finance_context/graph/refs.py and
-- _resolve_origin; what the context file says of a label is an argument. Graph/RangeViews follows
-- _Ranges and CellGrid.members and fills the interface; the present cells of the book and of the index
-- and calendar_lag are arguments, and the memo of members is left out.
-- Layout/Adjacency follows src/finance_context/layout/adjacency.py: a dict whose values are None is
-- the list of its keys, and expand_range, range_node_for and present_count are arguments.
--
-- Jobs/Bus follows src/finance_context/adapters/memory_bus.py (MemoryJobBus, JobProgress): the bus is
-- a dictionary of records, the operations that change it are an Action, and a run of the bus is a list
-- of actions, in the order in which they take the lock.
-- Jobs/Child follows watch_child, _with_oom and _oom_increased of src/finance_context/jobqueue/spawn.py:
-- what a round of the loop sees of the clock, the process and the cgroup is its input. Jobs/Worker
-- follows the decisions of src/finance_context/jobqueue/jobs.py (execute_job, _requeue_shared_cache,
-- _finish) and mark_job_failed of src/finance_context/app/pipeline.py on meta.json and the queue's job.
-- Jobs/Horse follows on_horse_killed with _refreshed_meta and _mark_from_meta: the documents meta.json
-- are a function from their directories, a write that is not made leaves them, and session_job_dir is
-- an argument. Generations and counters are natural numbers.
--
-- Rows, columns and counters are the native numbers. The loops of index_to_col and str divide their
-- number, so that number is fuel enough; a binary search ends within the length of its list. Numerals
-- longer than the limit of Python's int and str conversions (4300 digits) are not modelled. Where
-- the code raises ValueError the model returns none. Python's sort is insertion sort on pairs.
-- Recursion has a stack without a bound: where Python's recursion limit is reached, as by a formula with
-- a thousand signs or parentheses within one another, the code raises RecursionError and the model goes
-- on. A list read at an index is an error in the model for the payloads of _Intervals; its tree is a
-- function of all slots, and IndexError of the tree is not represented.
-- Not modelled: regular expressions with IGNORECASE, file and process input and output, and the
-- parts that the list of components names.
pub mod Base
pub mod Excel
pub mod Formulas
pub mod Graph
pub mod Layout
pub mod Jobs
