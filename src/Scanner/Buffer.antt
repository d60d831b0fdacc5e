-- ===== src/Scanner/Buffer.antt =====
-- The scanner's buffer in src/parser.c: `get_first_char` and `get_more_chars`, which convert the
-- line terminators of each chunk of input to line feeds, move what is kept of the buffer to its
-- front and double its size. The character source is a parameter, as is what `malloc` can give.
pub mod Lines
pub mod Room
pub mod Refill
use cif_api.Base.{
  ℕ, ◌+◌, ◌-◌, ◌*◌, Bool, true, false, not, none, some, List, [], ◌∷◌, ◌++◌, ltb, leb, ◌==◌,
  if◌then◌else◌, UString, length, take, drop, line_length,
}
use cif_api.Chars.{nl, cr}
use cif_api.Code.{Code, Result, ok, err, memory_error, disallowed_initial_char, ◌>>=◌}
use cif_api.Scanner.Classes.{Dialect, class_of}
use cif_api.Scanner.State.{Report, fault, Callback}
use cif_api.Scanner.Units.{is_no_class}

abbrev pub is_nl_next : UString → Bool
is_nl_next [] = false
is_nl_next (c ∷ cs) = c == nl

-- `u_memmove(dest, trail, length)`, of a line onto the cells before it that are free: what the
-- cells hold afterwards.
abbrev pub moved_line : UString → UString → UString
moved_line gap line = line ++ drop (length line) (gap ++ line)

-- The second loop. The cells of the chunk are, in order, the lines up to `dest`, the gap up to
-- `trail`, the current line up to `lead`, and the rest; the last argument is `nread`.
unfoldable pub convert_lines : UString → UString → UString → UString → ℕ → UString × ℕ
convert_lines done gap line [] nread = (done ++ moved_line gap line, nread)
convert_lines done gap line (c ∷ rest) nread =
    let next_line =
      convert_lines (done ++ line) (drop (length line) (gap ++ line) ++ (c ∷ [])) [] rest
        (nread - 1) in
    let at_bare = convert_lines done gap (line ++ (nl ∷ [])) rest nread in
    let at_other = convert_lines done gap (line ++ (c ∷ [])) rest nread in
    if c == cr then (if is_nl_next rest then next_line else at_bare) else at_other

-- The first loop, which ends at the first CR LF; the cells before `lead` are the first argument.
unfoldable pub convert_first : UString → UString → ℕ → UString × ℕ
convert_first done [] nread = (done, nread)
convert_first done (c ∷ rest) nread =
    let at_pair = convert_lines done (c ∷ []) [] rest nread in
    let at_bare = convert_first (done ++ (nl ∷ [])) rest nread in
    let at_other = convert_first (done ++ (c ∷ [])) rest nread in
    if c == cr then (if is_nl_next rest then at_pair else at_bare) else at_other

-- What a chunk adds to the buffer: its cells below the new limit.
abbrev pub transferred : UString → UString
transferred chunk = let (cells, nread) = convert_first [] chunk (length chunk) in take nread cells

-- `BUF_SIZE_INITIAL` and `BUF_MIN_FILL`
abbrev pub buf_min_fill : ℕ
buf_min_fill = line_length + 2

abbrev pub buf_size_initial : ℕ
buf_size_initial = 64 * (line_length + 2)

-- `buffer` has the units below `buffer_limit`; the pointers count from its start.
pub record Window : Type 0 where
  pub buffer : UString
  pub buffer_size : ℕ
  pub text_start : ℕ
  pub tvalue_start : ℕ
  pub next_char : ℕ
  pub at_eof : Bool

-- What both functions return: `CIF_OK`, `CIF_EOF` or another code.
pub data Fill : Type 0 where
  filled end_of_file : Fill
  failed : Code → Fill

-- The current characters at the front of a buffer of the given size
abbrev pub moved : ℕ → Window → Window
moved size w =
    let current_chars = w.next_char - w.text_start in
    record w {
      buffer = take current_chars (drop w.text_start w.buffer);
      buffer_size = size;
      text_start = 0;
      tvalue_start = w.tvalue_start - w.text_start;
      next_char = current_chars;
    }

module _ (allocates : ℕ → Bool) where
  -- The first part of `get_more_chars`
  unfoldable pub make_room : Window → Result Window
  make_room w =
      let extended =
        if allocates (w.buffer_size * 2)
        then ok (moved (w.buffer_size * 2) w)
        else err memory_error in
      if leb (length w.buffer) w.text_start
      then ok (record w { buffer = []; text_start = 0; tvalue_start = 0; next_char = 0 })
      else if ltb w.buffer_size (length w.buffer + buf_min_fill)
      then (if ltb ((w.next_char - w.text_start) * 2) w.buffer_size
          then ok (moved w.buffer_size w)
          else extended)
      else ok w

-- The second part of `get_more_chars`, behind the reading
abbrev pub append_chunk : Result UString → Window → Fill × Window
append_chunk (err code) w = (failed code, w)
append_chunk (ok []) w = (end_of_file, record w { at_eof = true })
append_chunk (ok (c ∷ cs)) w = (filled, record w { buffer = w.buffer ++ transferred (c ∷ cs) })

module _ {Source : Type 0} (read_func : Source → ℕ → Result UString × Source) where
  -- The reading, unless the end was reached before
  abbrev pub read_more : Source → Window → Result UString × Source
  read_more source w =
      if w.at_eof then (ok [], source) else read_func source (w.buffer_size - length w.buffer)

  abbrev pub fill_room : Source → Window → Result Window → (Fill × Window) × Source
  fill_room source w (err code) = ((failed code, w), source)
  fill_room source w (ok v) =
      let (chunk, source') = read_more source v in (append_chunk chunk v, source')

  -- `get_more_chars`
  unfoldable pub get_more_chars : (ℕ → Bool) → Source → Window → (Fill × Window) × Source
  get_more_chars allocates source w = fill_room source w (make_room allocates w)

-- `CIF1_MAX_CHAR`
abbrev cif1_max_char : ℕ
cif1_max_char = 0x7e

-- `UCHAR_BOM`
abbrev bom : ℕ
bom = 0xfeff

-- The first character is one that may stand there.
abbrev is_initial : Dialect → ℕ → Bool
is_initial d c = if ltb cif1_max_char c then c == bom else not (is_no_class (class_of d c))

-- An empty buffer, with the given units below its limit
abbrev holding : UString → Window → Window
holding units w = record w { buffer = units }

-- The second character, behind a CR: a line feed is consumed. The units that were read behind it
-- stay above the limit.
abbrev pub after_cr : Result UString → Window → Fill × Window
after_cr (err code) w = (failed code, w)
after_cr (ok []) w = (filled, record w { at_eof = true; buffer = nl ∷ [] })
after_cr (ok (c ∷ cs)) w = (filled, holding (if c == nl then nl ∷ [] else nl ∷ (c ∷ [])) w)

module _ {Source : Type 0} (read_func : Source → ℕ → Result UString × Source) (callback : Callback)
    (d : Dialect) where
  -- The call of `error_callback` at line 1, column 0
  abbrev report_initial : ℕ → Window → List Report → Fill × Window
  report_initial c w reports =
      elim (callback (fault disallowed_initial_char 1 0 (c ∷ []) ∷ reports)) [
        | none ↦ (filled, holding (c ∷ []) w)
        | some stop ↦ (failed stop, w)
      ]

  abbrev pub first_read : Result UString → Source → Window → List Report → (Fill × Window) × Source
  first_read (err code) source w reports = ((failed code, w), source)
  first_read (ok []) source w reports = ((end_of_file, record w { at_eof = true }), source)
  first_read (ok (c ∷ cs)) source w reports =
      let (second, source') = read_func source (w.buffer_size - 1) in
      if not (is_initial d c)
      then (report_initial c w reports, source)
      else if c == cr
      then (after_cr second w, source')
      else ((filled, holding (c ∷ []) w), source)

  -- `get_first_char`
  unfoldable pub get_first_char : Source → Window → List Report → (Fill × Window) × Source
  get_first_char source w reports =
      let (first, source') = read_func source 1 in
      first_read first source' (record w { tvalue_start = 0 }) reports
