-- ===== src/Lib.antt =====
-- The CIF API (libcif): a C library that reads, holds and writes crystallographic files in the
-- formats CIF 1.1 and CIF 2.0.
--
-- The parts of the program and where they are modelled (paths are from the repository's root):
--   * src/cif.h, the result codes: Code.
--   * src/utils.c, names and keys: Names.Utf16 (cif_has_disallowed_chars), Names.Convert
--     (cif_unicode_normalize, cif_fold_case, cif_normalize) and Names.Valid (cif_is_valid_name,
--     cif_normalize_name, cif_normalize_item_name, cif_normalize_table_index); Reserved
--     (cif_is_reserved_string); Analysis (cif_analyze_string, which chooses delimiters).
--   * src/ciffile.c, the text blocks of the writer: Writer.Fold (fold_line) and Writer.Text
--     (write_text); Writer.Columns (write_newline, write_literal, ENSURE_SPACED, write_quoted: the
--     column that the writer records). The writer's output is the list of code units.
--   * src/parser.c, the scanner: Scanner.Classes (INIT_V2_SCANNER, SET_V1, CLASS_OF), Scanner.State
--     (struct scanner_s, its macros for the position and the callbacks), Scanner.Buffer
--     (get_first_char and get_more_chars, over a character source), Scanner.Units (SCAN_UCHAR),
--     Scanner.Runs (scan_ws, scan_to_ws, scan_to_eol, scan_unquoted), Scanner.Delimited
--     (scan_delim_string, scan_triple_delim_string, scan_text), Scanner.Keywords and Scanner.Tokens
--     (next_token), and Scanner.Decode (decode_text).
--   * src/parser.c, the parser of values: Parser.Steps (the switches over a token, with the
--     recovery from errors) and Parser.Values (parse_value, parse_list, parse_table).
--   * src/parser.c, the parser above values: Parser.World (what the steps work on, and how they end),
--     Parser.Storage (the storage and the handlers that it calls, as parameters), Parser.Items
--     (parse_item), Parser.Packets (parse_loop_packets), Parser.Loops (parse_loop and
--     parse_loop_header), Parser.Containers (parse_container) and Parser.Blocks (parse_cif).
--     Parser.Settles and Parser.Quiet follow the same division, with what each part leaves of the
--     input and of the storage.
--   * TextBlock and Parser.Quoted put the two together: the writer's block and its quoted string,
--     read by the scanner and by parse_item.
--   * src/map.c, the maps behind packets and tables: Map, on the entries of Hash; Packet with
--     src/packet.c (cif_packet_create and the operations on packets), and Value.Keyed (tables).
--     An entry tells whether its two keys are one allocation, as in a packet made from names in
--     normal form; setting an item under another spelling then frees the hash key, and what is read
--     there is a parameter (stale). The theorems on setting items ask that the keys be apart.
--   * src/value.c: Value (kinds, creation, cleaning, copies), Value.Listed (the elements of lists),
--     Value.Quoting (cif_value_set_quoted), Value.Numbers (cif_value_parse_numb and
--     format_text_decimal), and Array (the loops that move elements); Buffer
--     (cif_buf_write and cif_buf_read, the byte buffers that values are serialized into).
--   * src/cif.c, the traversal with callbacks: Walk (cif_walk and the walkers below it).
--
-- Strings are lists of UTF-16 code units without their NUL. Functions that return a code and pass a
-- value back through a pointer return a Result. What the program does not define itself is an
-- argument: Icu has the calls of ICU with their documented behaviour, Hash.Uthash the macros of
-- uthash, and a map's normalizer is the function pointer of the source. The error callback is a
-- function of all the calls so far, so that it may keep a state of its own; the callbacks for white
-- space, keywords and data names, which return nothing, are the record of their calls. The state of a loop is a
-- record, and the loop a function by recursion on the rest of its input.
--
-- Fuel: the retry loop of the conversions has fuel 2, which is enough, since the second buffer has
-- the length that ICU asked for; the segments of a line have its length as fuel, since each takes
-- at least one code unit; the lines of a block have its length; and the loop that closes the gap of
-- a removed element has the size of the list. The loop that expands a buffer has the fuel that its
-- caller gives: it ends in its first round or not at all. The loop of next_token has one round more
-- than the input has code units, since each round but the last takes one. The parse of a value has
-- three for each code unit of the input, and one: a list, a table and an entry each take a call, and
-- between two of the same kind a token is consumed. parse_cif has one for each code unit of the
-- input, and two: each data block, each save frame and each round of a container consumes a token, and
-- a loop has its own, one more than the input that is left.
--
-- The scans take the input behind next_char, as get_more_chars delivers it, for their argument;
-- Scanner.Buffer has the buffer by itself.
--
-- Not modelled: allocation failures, but for that of the scanner's buffer; failures of the
-- output stream; the storage in SQLite (src/container.c, src/loop.c, src/pktitr.c), whose
-- results the walk takes as its document, and which the parser takes as a parameter;
-- cif_parse_internal, which opens the input and chooses the version of CIF; the rest of the
-- writer; the conversions between doubles and digits and the scientific notation in src/value.c,
-- whose `int` exponents are natural numbers of any size here; the macros that serialize values; the program in src/tools. In Value, a list's elements
-- beyond its size do not exist, but for the one slot that an insertion opens.
pub mod Base
pub mod Code
pub mod Icu
pub mod Names
pub mod Chars
pub mod Reserved
pub mod Scanner
pub mod Parser
pub mod Writer
pub mod TextBlock
pub mod Hash
pub mod Array
pub mod Map
pub mod Value
pub mod Packet
pub mod Buffer
pub mod Walk
pub mod Analysis
mod Tests
