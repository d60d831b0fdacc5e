-- ===== src/Tests/Parsers.antt =====
-- Concrete inputs for the theorems on the structure that the parser of src/parser.c reads.
use cif_api.Base.{
  ◌++◌, arith, ◌≡◌, ◌≢◌, ◌+◌, true, false, none, some, List, [], ◌∷◌, UString, length, refl,
}
use cif_api.Chars.{sp, sq}
use cif_api.Code.{ok, nosuch_item}
use cif_api.Value.{char, Value, ℤ}
use cif_api.Walk.{Flow}
use cif_api.Scanner.Classes.{Class, Dialect, class_of}
use cif_api.Scanner.Classes.Standard.{standard}
use cif_api.Scanner.State.{Scanner, Callback, TokenType, metaclass_of, general_meta}
use cif_api.Scanner.Tokens.Quoted.{blank}
use cif_api.Writer.Columns.Quoted.{write_quoted}
use cif_api.Parser.Items.{parse_item}
use cif_api.Parser.Quoted.{parse_item-write_quoted}
use cif_api.Tests.Scanners.{two_words, two_words-Readable}
use cif_api.Parser.Storage.{Storage, Handlers}
use cif_api.Parser.World.{World, Outcome, going}
use cif_api.Parser.Blocks.{parse_cif, result_of}
use cif_api.Parser.Quiet.{IsReading}
use cif_api.Parser.Quiet.Checks.{parse_cif-unstored}
use cif_api.Parser.Settles.Total.{parse_cif_total}
use cif_api.Tests.{plain_icu, list_hash}

-- A storage that keeps the items in a list, and lets everything else succeed
abbrev Items : Type 0
Items = List (UString × Value)

abbrev listed : Storage Items UString (Unit {0})
listed = record {
  create_block = λ code lenient st. (ok code, st);
  get_block = λ code st. (ok code, st);
  create_frame = λ block code lenient st. (ok code, st);
  get_frame = λ block code st. (ok code, st);
  get_item_loop = λ block name st. (some nosuch_item, st);
  set_value = λ block name value st. (none, (name, value) ∷ st);
  create_loop = λ block category names st. (ok tt, st);
  add_packet = λ loop packet st. (none, st);
  prune = λ block st. (none, st);
}

-- Handlers that let the parse go on
abbrev idle : Handlers Items UString (Unit {0})
idle = record {
  cif_start = λ reports st. (Flow.continue, st);
  cif_end = λ reports st. (Flow.continue, st);
  container_start = λ is_block block reports st. (Flow.continue, st);
  container_end = λ is_block block reports st. (Flow.continue, st);
  loop_start = λ block names reports st. ((Flow.continue, none), st);
  loop_end = λ loop reports st. (Flow.continue, st);
  packet_start = λ reports st. (Flow.continue, st);
  packet_end = λ packet reports st. (Flow.continue, st);
  item = λ name value reports st. (Flow.continue, st);
}

abbrev ignore : Callback
ignore = λ reports. none

abbrev cif2 : Dialect
cif2 = standard 2

-- `data_a _b c`
abbrev one_item : UString
one_item =
    b'd' ∷ (b'a' ∷ (b't' ∷ (b'a' ∷ (b'_' ∷ (b'a' ∷ (sp ∷ (b'_' ∷ (b'b' ∷ (sp ∷ (b'c' ∷ []))))))))))

abbrev at_start : World Items
at_start = record {
  scanner = record {
    back = [];
    ttype = TokenType.end;
    tvalue_start = 0;
    tvalue_length = 0;
    line = 1;
    column = 0;
    skip_depth = 0;
    input_error = none;
    reports = [];
  };
  input = one_item;
  store = [];
}

replacement_general : metaclass_of cif2 0xfffd ≡ general_meta
unfolding class_of
replacement_general = refl

parse_cif_total_example :
    (parse_cif listed idle plain_icu
        (list_hash Value)
        ignore
        cif2
        (record { line_unfolding = true; prefix_removing = true })
        (λ n. false)
        (ℤ.pos 1)
        true
        (length one_item + 2)
        at_start
      ≢ none)
    × ((v : World Items)
        → parse_cif listed idle plain_icu
            (list_hash Value)
            ignore
            cif2
            (record { line_unfolding = true; prefix_removing = true })
            (λ n. false)
            (ℤ.pos 1)
            true
            (length one_item + 2)
            at_start
          ≡ some (going tt v)
        → length v.scanner.back + length v.input ≡ 0)
parse_cif_total_example =
    parse_cif_total listed idle plain_icu (list_hash Value) ignore cif2
      (record { line_unfolding = true; prefix_removing = true }) (λ n. false) (ℤ.pos 1) true
      at_start replacement_general refl

sp-ws : class_of cif2 sp ≡ Class.ws
unfolding class_of
sp-ws = refl

-- ` 'b c' `
abbrev before_value : World Items
before_value = record at_start {
  input = sp ∷ ((write_quoted two_words sq blank).output ++ (sp ∷ []));
}

parse_item-write_quoted_example :
    (t : Scanner) × (parse_item listed idle plain_icu
        (list_hash Value)
        ignore
        cif2
        (record { line_unfolding = true; prefix_removing = true })
        (some one_item)
        (some one_item)
        before_value
      ≡ some (
          going tt (record {
            scanner = t;
            input = sp ∷ [];
            store = (one_item, char two_words true) ∷ [];
          })))
    × (t.back ≡ [])
    × (t.skip_depth ≡ 0)
parse_item-write_quoted_example =
    parse_item-write_quoted listed idle plain_icu (list_hash Value) ignore cif2
      (record { line_unfolding = true; prefix_removing = true }) one_item one_item sp sq two_words
      sp [] before_value two_words-Readable (unfold two_words in omega arith) sp-ws refl refl refl
      (λ reports. refl) refl

idle-IsReading : IsReading idle
idle-IsReading = record {
  cif_start_reads = λ reports st. refl;
  cif_end_reads = λ reports st. refl;
  container_start_reads = λ is_block block reports st. refl;
  container_end_reads = λ is_block block reports st. refl;
  loop_start_reads = λ block names reports st. refl;
  loop_end_reads = λ loop reports st. refl;
  packet_start_reads = λ reports st. refl;
  packet_end_reads = λ packet reports st. refl;
  item_reads = λ name value reports st. refl;
}

parse_cif-unstored_example :
    (o : Outcome Items (Unit {0})) × (parse_cif listed idle plain_icu
        (list_hash Value)
        ignore
        cif2
        (record { line_unfolding = true; prefix_removing = true })
        (λ n. false)
        (ℤ.pos 1)
        false
        (length one_item + 2)
        at_start
      ≡ some o)
    × ((result_of listed idle plain_icu
          (list_hash Value)
          ignore
          cif2
          (record { line_unfolding = true; prefix_removing = true })
          (λ n. false)
          (ℤ.pos 1)
          false
          o).1
        ≡ [])
parse_cif-unstored_example =
    parse_cif-unstored listed idle plain_icu (list_hash Value) ignore cif2
      (record { line_unfolding = true; prefix_removing = true }) (λ n. false) (ℤ.pos 1) at_start
      idle-IsReading replacement_general refl
