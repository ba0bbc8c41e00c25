-- ===== src/Lib.antt =====
-- MIE decoder: the Rust implementation (rust/src), from the bytes of a recording to the rows of
-- a table.
--
-- The program reads a file of 16-bit little-endian words, finds the first record behind a header,
-- checks and decodes record after record, looks for the next good one where a check fails, adds to
-- each message the time since the last one of its key, and filters the stream. Several files are
-- merged by time into one stream, the rows of one time are put in order, and the rows are written as
-- CSV.
--
-- Parts and files (the paths are below rust/src):
--   Common          lists, words and Boolean tests over the native numbers; no code of the program.
--   Models          models.rs: enumerations and word records; Calendar, DataWords, Timestamp and
--                   Message model the types of these names with their methods, Text the
--                   renderings of a timestamp.
--   Error           error.rs: MieError, its kinds and the predicates on them.
--   Decode          decode.rs: Read (read_u16, read_u16_array), Fields (the four field decoders),
--                   Classify (classify_message_format, classify_mode_code), Invariants (the checks
--                   before and after extraction, the anomalies), Probe (probe_timestamp_format), Mux
--                   (mux_from_filename).
--   Sync            sync.rs: Validate (validate_record and its stages), Scan (find_first_record,
--                   recover_sync, diagnose_header_scan_failure, is_homogeneous_payload).
--   Delta           delta.rs: DeltaTracker.
--   Filter          filter.rs: FilterConfig and the adapter Filtered.
--   Order           order.rs: sort_run and the adapter Ordered; Chunks, Groups and Sorted treat the
--                   sort, Rows the runs that the adapter gives, Served and Stream its calls.
--   Merge           merge.rs: Inputs (read_manifest, glob_match), Dedup (DedupWindow), State
--                   (MergedRecordIter, new and the builders), Step (advance, next). Priming treats
--                   the loop of new, Ascends and InOrder the order of time, Complete which records
--                   are given, Opened the merge of whole files.
--   Writer          writer.rs: the text of a CSV row; Rows is a reader of such rows, Cells and
--                   Written treat what it reads. Stream models the loops of write_csv and
--                   write_csv_split over a sink, Split and its child how the second one parts
--                   the records.
--   Reader          reader.rs: the iterator RecordIter. State is its record, Payload models
--                   extract_payload (Layout treats the places of the words), Step the branches of decode_one, Decode decode_one and next,
--                   Next and its children what a run of the iterator does. Open models the
--                   reader's iter, from the bytes of a file to the iterator; Begin and Doubt treat
--                   where the decode begins.
--   Config          config.rs: Text (what it takes from the standard library), Number (the scans of
--                   a number; Count, Accepted, Grammar and Literal treat what they accept), Toml
--                   (Value parses a value, Doc the lines, Get is TomlDoc; Unique treats the keys,
--                   Quoted the strings), Names (the texts of
--                   single settings, with from_name_ci of models.rs and Level::parse of log.rs),
--                   Settings (DecoderConfig and with_overrides), Schema, Steps and Sections (the
--                   sections of the file; InRange, Bounds, Keeps and Loaded treat the ranges of
--                   the settings).
--   Cli             cli.rs: Values (the values of single options), Decode (parse_decode and
--                   build_config_overrides), Run (resolve_config, resolve_time_render, the start of
--                   run_decode, the exit codes); Accepted, Settled and Joined treat the arguments
--                   that are accepted, the settings of a run, and the two spellings of a value.
--   Examples        runs on concrete bytes.
--
-- Correspondence. A file is a list of bytes, a slice with a range a read that gives none outside of
-- it. Paths, manifests and rows are lists of character codes where their text counts. A machine
-- integer is a natural number; where the source's arithmetic could pass its width the wrap, the
-- saturation or the failed check is written out. A `&mut self` method takes the state and returns
-- it. An early return is a branch. The counter that the iterator shares with the reader is the
-- field sync_losses_atomic. What an inner iterator gives is the list of its items. The binary heap
-- of the merge is the ascending list of its entries; what it keeps of a file in five vectors is one
-- record; the sequence numbers are not wrapped, since they count the records of one file. Hash maps
-- are association lists, hash sets are lists.
--
-- Loops. The loop of next runs on fuel: file_len + 1 rounds, enough because every round that goes
-- on moves the offset forward within the file. The scans run on fuel too, one round for each byte
-- of the window, of which a round takes two. The loop of the ordering adapter runs on the number
-- of items that are left and 2, each round taking one; that of the merge on the unread items, the
-- heap entries and 1, each round taking an entry off the heap and at most one item from a file; the
-- wildcard match on (name + 1) times (pattern + 1) rounds, since a return to the star moves its
-- mark on. The scan of digits has a round for each byte. parse_value and parse_array call one another
-- without a limit in the source; the model has the depth of the stack as a parameter, and what exceeds
-- it, an abort of the process, is the value stack_overflow, which the callers pass on like an error. The other loops go along a list or count
-- down.
--
-- Configuration. An error of config.rs keeps its case and, in the file's syntax, its line, and not
-- its text. The fields `&mut cfg` that a section sets are the steps of a list. A warning about an
-- unknown key is an entry of the list that warn_unknown_keys gives. f64 and the Unicode table of
-- to_uppercase are the parameters of the record Std, with the depth of the stack; nothing is assumed
-- of them.
--
-- Command line. The arms of the match on a flag are the rows of a table; the loop over the tokens
-- goes along their list, of which a flag with a value takes two. The text of the configuration file
-- is an argument of the run.
--
-- Parameters. The f64 type of DELTA and the operations on it that the source uses are the record
-- Floats of Models.Timestamp; nothing is assumed of them. The text of a DELTA in a row is a
-- parameter; the row theorem assumes that it has no comma, quote, line feed or carriage return. Whether the day
-- advisory is logged is an argument of the steps.
--
-- Not modelled: log lines and the texts of errors; mapping a file and its options (reader.rs,
-- MieFileReader::with_options); listing a directory (merge.rs, expand_glob); the files of writer.rs
-- and their commits; opening the configuration file (config.rs, load_config); of cli.rs the global
-- options, the help, the count and dump commands and what opens files; dump.rs, a listing for
-- inspection; the Python and C++ ports.
pub mod Common
pub mod Models
pub mod Error
pub mod Decode
pub mod Sync
pub mod Delta
pub mod Filter
pub mod Order
pub mod Merge
pub mod Writer
pub mod Config
pub mod Cli
pub mod Reader
mod Examples
