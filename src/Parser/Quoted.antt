-- ===== src/Parser/Quoted.antt =====
-- A string that the writer (src/ciffile.c) puts between quotes is stored by `parse_item` of
-- src/parser.c.
use cif_api.Base.{
  ℕ, suc, ◌+◌, ◌-◌, ◌*◌, ◌≤◌, true, false, none, some, List, [], ◌∷◌, ◌++◌, UString, length, ltb,
  if◌then◌else◌, ◌≡◌, refl, ap, ◌∙◌, arith, line_length,
}
use cif_api.Icu.{Icu}
use cif_api.Hash.{Uthash}
use cif_api.Value.{Value, char}
use cif_api.Walk.{Flow}
use cif_api.Scanner.Classes.{Class, Dialect, class_of}
use cif_api.Scanner.State.{Scanner, Callback, Report, consume_token}
use cif_api.Scanner.Decode.{Protocols}
use cif_api.Scanner.Tokens.{next_token}
use cif_api.Scanner.Tokens.Quoted.{Readable, blank}
use cif_api.Scanner.Tokens.Spaced.{
  spaced_token, next_token-spaced, tvalue-spaced_token, skip_depth-spaced_token,
}
use cif_api.Writer.Columns.Quoted.{write_quoted}
use cif_api.Parser.Steps.{value_step}
use cif_api.Parser.Values.{parse_value}
use cif_api.Parser.Storage.{Storage, Handlers}
use cif_api.Parser.World.{World, going, deeper, higher, next, follow, set_input, of_result}
use cif_api.Parser.Items.{item_value, store_item, parse_item, a_value}

deeper-awake : (s : Scanner) → s.skip_depth ≡ 0 → deeper s ≡ s
deeper-awake s awake =
    let still : ltb 0 s.skip_depth ≡ false = ground arith in
    ap (λ b. if b then record s { skip_depth = s.skip_depth + 1 } else s) still

module _ {Store Container Loop : Type 0} (storage : Storage Store Container Loop)
    (handlers : Handlers Store Container Loop) (icu : Icu) (hash : Uthash Value)
    (callback : Callback) (d : Dialect) (p : Protocols) where
  a_value-spaced :
      (b delim : ℕ) (text : UString) (s : Scanner) (input : UString) (store : Store)
      → a_value storage handlers icu hash callback d p
          (record { scanner = spaced_token b delim text s; input = input; store = store })
        ≡ some (
            going (char text true) (record {
              scanner = consume_token (spaced_token b delim text s);
              input = input;
              store = store;
            }))
  unfolding parse_value next_token value_step
  a_value-spaced b delim text s input store =
      let m = length (spaced_token b delim text s).back + length input in
      let more : 3 * m + 1 ≡ suc (3 * m) = omega arith in
      rw (more, tvalue-spaced_token b delim text s) refl

  -- Where the scanner is between tokens and nothing is skipped, at a blank that what `write_quoted`
  -- writes at the start of a line follows, for a text of allowed code units with neither the delimiter
  -- nor a line terminator, that fits on a line, and then white space; and where the handler for items
  -- goes on and the storage takes the value: `parse_item` stores the text as a quoted string under the
  -- name, in what the handler left of the storage, and ends between tokens before the white space.
  pub parse_item-write_quoted :
      (container : Container) (name : UString) (b delim : ℕ) (text : UString) (w : ℕ)
      (rest : UString) (world : World Store) {st st' : Store}
      → Readable d delim text w
      → length text + 2 ≤ line_length
      → class_of d b ≡ Class.ws
      → world.scanner.back ≡ []
      → world.scanner.skip_depth ≡ 0
      → world.input ≡ b ∷ ((write_quoted text delim blank).output ++ (w ∷ rest))
      → ((reports : List Report)
          → handlers.item (some name) (char text true) reports world.store ≡ (Flow.continue, st))
      → storage.set_value container name (char text true) st ≡ (none, st')
      → (t : Scanner) × (parse_item storage handlers icu hash callback d p
            (some container)
            (some name)
            world
          ≡ some (going tt (record { scanner = t; input = w ∷ rest; store = st' })))
        × (t.back ≡ [])
        × (t.skip_depth ≡ 0)
  unfolding parse_item store_item item_value
  parse_item-write_quoted container name b delim text w rest world readable fits white start awake
        input kept stored =
      let t = spaced_token b delim text world.scanner in
      let quiet : t.skip_depth ≡ 0 = skip_depth-spaced_token b delim text world.scanner ∙ awake in
      let taken : next callback d world
          ≡ some (going tt (record { scanner = t; input = w ∷ rest; store = world.store })) =
        ap (λ cs. follow set_input (of_result (next_token callback d world.scanner cs) world)) input
        ∙ ap (λ r. follow set_input (of_result r world))
            (next_token-spaced callback d world.scanner b delim text w rest readable fits white
              start awake) in
      (
        higher (consume_token t),
        rw
            (
              taken,
              deeper-awake t quiet,
              a_value-spaced b delim text world.scanner (w ∷ rest) world.store,
            )
            (rw (kept t.reports, stored) refl),
        refl,
        ap (λ n. n - 1) quiet,
      )
