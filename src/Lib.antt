-- ===== src/Lib.antt =====
-- obicall fuses sensor readings: workers run providers that read sensors, a journal admits and
-- stores the readings, two redundant brokers compute candidate results from them, and a gate
-- commits results and decides which broker is the owner. This library models the C code of the
-- core, src/core and include/obicall, the state and the handlers of the processes of the gate and
-- the journal, src/gate and src/journal, and how the supervisor watches its children,
-- src/supervisor, with the theorems that make them correct.
--
-- Parts and files:
-- - Common: names of the libraries that are passed on, Boolean tests, lists that are measured by
--   native numbers, signed integers (int64_t, int32_t), and lemmas on `|`, `&` and `^`.
-- - Status: include/obicall/status.h. A function that returns a status is a function to `Result`:
--   `ok` with its output parameters, or `err` with the status. Pointers are never null in the
--   model, so the checks for null pointers are not modelled. StatusCode has the numbers and the
--   texts.
-- - Cursor: src/core/wire_cursor.h. Cursor.Write has `wcursor_t` and the `wc_*` functions,
--   Cursor.Read `rcursor_t` and the `rc_*` functions, with the `ok` flag in the cursor and the
--   arithmetic of offsets on uint32_t written out. `Writes` (Cursor.Writes) says what bytes a
--   writer appends, and `Reads` (Cursor.Reads, Cursor.Codec) what a reader makes of bytes, of a
--   part of them and of a failed cursor. Cursor.RoundTrip joins the two.
-- - Observation, FusionResult, Checkpoint: `obicall_observation_t`, `obicall_result_t` and
--   `obicall_checkpoint_t`. A double is its bit pattern, an array of `char` its bytes, a fixed
--   array a list that a record `Is...` bounds. Observation.Validate is src/core/observation.c:
--   finiteness and comparisons are computed on the bit patterns (Observation.Doubles), and the
--   rounding operations of the hardware are an argument (`Arithmetic`). The callback's issues are
--   a list.
-- - Wire: src/core/wire.c. Wire.Header has the frame header, Wire.Observation, Wire.FusionResult
--   and Wire.Checkpoint the payloads, Wire.Event the events, Wire.Control the nine control
--   messages, one module each, and Wire.ControlMessage all of them as one type, as the macro in
--   include/obicall/wire.h declares them. A decoder is given the list of its input bytes, so
--   `in_len` is their number.
-- - Digest: src/core/digest.c. Both functions are executable; the loops are recursion on the
--   bytes, on the table of constants, or on fuel: the number of input bytes in an update, since
--   each round takes one at least, and 64 zero bytes of padding, since the buffer has 64 bytes.
-- - Gate: src/core/gate.c. Gate.State has the records of include/obicall/gate.h, Gate.Publish
--   `obicall_gate_decide_publish`, Gate.Promote `obicall_gate_promote` and
--   `obicall_gate_shadow_promotable`, Gate.Codec and Gate.Persist the stored state. Gate.Marks
--   and Gate.HighWater relate the slots to the abstract view, a last committed window for each
--   pipeline; Gate.Decision and Gate.Run have the theorems on one call and on sequences of calls.
--   The file is the list of its bytes, and what `fwrite`, `fflush` and `fsync` return is an
--   argument (`Device`). The digest of a result is over bytes of the host, taken to be
--   little-endian, and where a count of the result is above its array it ends with the array; the
--   code reads on there, but no decoded result has such a count.
-- - Journal: src/core/journal.c. Journal.Admit has the admission of one observation on a sensor's
--   track, Journal.Session runs of admissions, Journal.Record and Journal.Header the records of
--   the file, and Journal.Stored what is read of an appended record. The differences on int64_t
--   in `obicall_journal_admit` are taken not to overflow. A file is again a list of bytes.
-- - Dgt: src/core/dgt.c. Dgt.Policy has the policy table, its validation without the text of an
--   issue, and an action's worst loss; Dgt.Select has `obicall_dgt_select_action`, and
--   Dgt.Eligible what holds of the action that it selects. A flag behind the 16 of the eligibility
--   counts as not set, a row of the losses behind its array as out of range, and columns end with
--   the row: the code reads behind the arrays there, for a table that is not valid. The theorem is
--   on tables whose counts are within their arrays (`IsPolicyTable`).
-- - Json: src/core/json_min.c. Json.Scan has `skip_string` and `scan_value`, Json.Lookup the
--   lookups in objects and arrays, Json.Decode the decoding of a text. A buffer is the list of its
--   bytes, of which there are fewer than 2^31, so that offsets fit `int`; -1 and 0 are `none`. The
--   loops run on as much fuel as the buffer has bytes: each round goes on by one byte at least, and
--   Json.Fuel (objects) and Json.Rounds (arrays and texts) show that more fuel changes nothing.
-- - Manifest: src/core/manifest.c. Manifest.Parse has `obicall_manifest_parse_json`, Manifest.Load
--   the loading of a directory, which is the list of what `readdir` returns, Manifest.Resolve
--   `obicall_manifest_resolve` and Manifest.Rank `obicall_manifest_rank_alternatives`, with the
--   order of the alternatives in Manifest.Rank.Order. The loops of
--   the resolution run on as much fuel as there are manifests, since each is put on the stack and
--   in the queue once at most; Manifest.Resolve.Plan shows that this is enough. `strtod` is an
--   argument (`Strtod`). A text in an array without a terminator is taken to end with the array.
-- - GateDaemon: src/gate/gate_main.c, over Gate and Wire. GateDaemon.Context has the state of the
--   process and `persist_locked`, GateDaemon.Promotion `evaluate_promotion_locked`,
--   GateDaemon.Handlers the answers to frames. What the system makes of the files is an argument
--   (`Disk`), and so is the time. The owner in the state is one of the three ids: another
--   one, with which the code reads behind `brokers`, is taken as the second broker. Of the fields of
--   `gate_ctx_t`, those that no handler reads are left out (see `GateCtx`). GateDaemon.Run has
--   sequences of frames, as sequences of the gate's events of Gate.Run.
-- - JournalDaemon: src/journal/journal_main.c, over Journal and Wire. JournalDaemon.Submit has the
--   admission of what a worker submits, JournalDaemon.Replay what a subscribed broker is sent. The
--   mutex is held in each of these, so a run is a sequence of steps (JournalDaemon.Subscription).
-- - Supervisor: src/supervisor/supervisor.c. Supervisor.Monitor has `supervisor_monitor_tick` and
--   the functions that suspend, resume and stop children; what the system answers for a child is an
--   argument (`Seen`).
--
-- Sizes of structs (`sizeof_observation`, `sizeof_fusion_result`, `sizeof_checkpoint`,
-- `sizeof_gate_state`) are those with 8-byte alignment of 64-bit fields. 64-bit sums wrap in the
-- model where they do in the code; differences of times on int64_t are taken not to overflow.
--
-- Not modelled: the estimator and the comparison of replica results (floating point), the
-- processes of the brokers and the workers, the start of the supervisor's children and the
-- configuration that it reads, the sockets, threads and arguments of the gate's and the journal's
-- processes, the texts of messages, the loading of a directory on Windows, the plugins, the command
-- line and the operating system layer.
pub mod Checkpoint
pub mod Common
pub mod Cursor
pub mod Dgt
pub mod Digest
pub mod FusionResult
pub mod Gate
pub mod GateDaemon
pub mod Journal
pub mod JournalDaemon
pub mod Json
pub mod Manifest
pub mod Observation
pub mod Status
pub mod StatusCode
pub mod Supervisor
pub mod Wire
