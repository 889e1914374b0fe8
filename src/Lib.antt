-- ===== src/Lib.antt =====
-- Verification of Praelector, an audiobook maker: the engine's core, from the chapters of a
-- book and the spans of a text to the plan of an export.
--
-- Base holds what the other modules share: native numbers with Boolean tests, lists measured by them,
-- integers, and texts as lists of code points with Python's `strip`, `split`, `find` and `rfind`.
--
-- Domain (engine/src/praelector/domain, errors.py): the enumerations and their texts; Domain.Errors,
-- the error codes, and failures as values of `Result` (an `AppError` is its code and detail, its
-- message is only logged); Domain.Json, the values of Python's `json` module; Domain.Hashing,
-- `text_hash` and `render_key`, with BLAKE2s, NFC, UTF-8 and the JSON print as the record `Digest`;
-- Domain.Ids, the identifiers of ids.py, with the clock and the random bits given.
--
-- Spans (engine/src/praelector/text): suggestion.py, apply.py and spoken.py. A batch of accepted
-- suggestions rewrites a block and leaves spans (`apply_block`; `_shift_suggestion` is in Spans.Shift),
-- from which the block is spoken (`spoken_form`). Python's `sorted` is the stable insertion sort of
-- Base.Sort.
--
-- Sentences (engine/src/praelector/text/segment.py): `RegexSentenceSegmenter` and the guard for
-- abbreviations. Its regular expression is a scan; Unicode's tables are the record `Characters`. A
-- loop over characters is recursion on how many are left.
--
-- Voices (engine/src/praelector/voices): `assign_slot` of assignment.py.
--
-- Plain (engine/src/praelector/text/plain.py): splitting a chapter's text into blocks, and which of the
-- old blocks each of them is. Plain.Matching is `SequenceMatcher.ratio` of Python's difflib, as a
-- fraction; `get_matching_blocks` is on fuel, the length of the first text, which is enough because
-- each step matches at least one character. Unicode's normal form C is a parameter.
--
-- Store (engine/src/praelector/store): the chapters of the open project.
--   Store.Rows, Store.Session: the rows of tables.py, in the order of their insertion, and
--   `session_scope` of db.py. A session maps a project, which is its database and its manifest, to a
--   value or a failure and the project as it is then; a failure rolls the database back, but not the
--   manifest, which is a file. A query reads what was written before it.
--   Store.Ordinals, Store.Versions: the helpers of `ChapterStore` (chapters.py) on the order of the
--   chapters and the versions of the blocks, with the constraints that the database checks, which are
--   the unique ordinals and the primary keys of chapters and blocks; a violation raises.
--   Store.Outline: what the store promises, a list of chapters with their blocks, when the rows stand
--   for one, and `snapshot` (Versions.History), the text at a revision.
--   Store.Tree (`split` in Tree.Split), Store.Texts, Store.Replace, Store.Readings: the operations.
--   Times and new identifiers are arguments. An offset is natural, as the request's validation
--   demands. One database holds one project, whose row is always there, and a commit succeeds.
--
-- Jobs (engine/src/praelector/jobs): a job is queued, rendered chunk by chunk, and muxed.
--   Jobs.State: `transition`, `recover` and `stage_for` of state.py; State.Reach is reachability by
--   events and restarts.
--   Jobs.Record and Jobs.Log: `JobRecord` and `JobLog` of checkpoint.py. The state is `Files`, the two
--   files of a job's directory; an operation takes the clock's reading and returns the files and a
--   result. Log.History also cuts each operation short between its two writes, as a crash does, and
--   runs lists of operations, crashes and restarts. A line of the log is written whole or not at all.
--   Jobs.Planner: `spoken_runs` of planner.py, from the blocks and their spans to the runs.
--   Jobs.Chunker and Jobs.Plan: `plan_runs`, `_pieces` and `_split_oversized` of chunker.py. The
--   recursion of `_split_oversized` is on fuel, one more than the length of its text, and a
--   call never runs out of it. The sentence segmenter is a parameter.
--   Jobs.Cursor, Jobs.Admission, Jobs.Scheduler: cursor.py, admission.py, scheduler.py. The gate that
--   `dispatch` changes is passed through the loop.
--   Jobs.Chunks: `commit_chunk` of commit.py and `chunk_reusable` of reuse.py over the files at their
--   paths; what the probe measures and how long a sidecar's text is are parameters.
--   Jobs.Catalog: catalog.py and create.py, a directory of jobs as a list of children, each with its
--   record where one can be read.
--   Jobs.Manager: `JobManager` of manager.py, its slot in front of the job directories and of the audio
--   files, both part of its state. Deleting a file succeeds. `render` is not modelled.
--
-- Mux (engine/src/praelector/mux): chapters.py and metadata.py. A duration is a float, given as
-- whether it is negative and its rounded milliseconds; a path is the text of its POSIX form.
--
-- Gpu (engine/src/praelector/gpu): Gpu.Budget is budget.py; settings and overrides are integers, memory
-- a driver reports is natural. Gpu.Monitor is `VramMonitor` of monitor.py; its clock counts in units
-- in which the interval is whole, and the probe is the reading that it returns.
--
-- Not modelled: the ebook parsers and `commit_epub`, the detectors of text, SQLite, ffmpeg, the worker processes,
-- the web API, the desktop shell and the user interface, which are input and output or glue over
-- third-party code. A float is stored as its bits and never computed with. Reading a record back
-- refuses some values that Python would convert and that the program never writes.
pub mod Base
pub mod Domain
pub mod Spans
pub mod Voices
pub mod Sentences
pub mod Plain
pub mod Store
pub mod Jobs
pub mod Mux
pub mod Gpu
pub mod Tests
