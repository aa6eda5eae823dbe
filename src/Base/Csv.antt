-- ===== src/Base/Csv.antt =====
-- Python's csv module in its default dialect: `reader` over a text whose lines end in "\n", the rows
-- of `DictReader`, and `DictWriter`. No bound on the length of a field.
pub mod Laws
pub mod Fields
use Prim.Native.Nat.{ℕ}
use Prim.Native.Char.{Char, code}
use Prim.Native.String.{String}
use mathlib.Core.Bool.{not, Bool, true, false, ◌&&◌, ◌||◌}
use mathlib.Core.Option.{Option, none, some}
use mathlib.Core.List.{List, [], ◌∷◌, ◌++◌}
use mathlib.Core.Path.{◌≡◌, refl}
use whatsapp_commerce_bot.Base.Tests.{◌==◌, str_eq, if◌then◌else◌}

-- The states of _csv.c. A field that is read is kept with its last character first.
pub data Mode : Type 0 where
  start_record start_field in_field in_quoted quote_in_quoted eat_crnl : Mode

-- The rows before, the fields of the row before the current one, both newest first, and the field.
pub record Scan : Type 0 where
  pub mode : Mode
  pub rows : List (List String)
  pub fields : List String
  pub chars : List Char

abbrev pub text_of : List Char → String → String
text_of [] s = s
text_of (c ∷ cs) s = text_of cs (String.◌∷◌ c s)

abbrev pub reversed_onto {ℓ} : {A : Type ℓ} → List A → List A → List A
reversed_onto [] ys = ys
reversed_onto (x ∷ xs) ys = reversed_onto xs (x ∷ ys)

abbrev pub add_char : Mode → Char → Scan → Scan
add_char m c s = record s { mode = m; chars = c ∷ s.chars }

abbrev pub save_field : Mode → Scan → Scan
save_field m s = record s { mode = m; fields = text_of s.chars "" ∷ s.fields; chars = [] }

-- The row is complete.
abbrev pub save_row : Scan → Scan
save_row s = record {
  mode = start_record;
  rows = reversed_onto s.fields [] ∷ s.rows;
  fields = [];
  chars = [];
}

abbrev pub is_newline : Char → Bool
is_newline c = (code c == 10) || (code c == 13)

abbrev pub start_of_field : Char → Scan → Scan
start_of_field c s =
    if is_newline c
    then save_field eat_crnl s
    else if code c == 34
    then record s { mode = in_quoted }
    else if code c == 44
    then save_field start_field s
    else add_char in_field c s

-- One character; `none` is the csv.Error of a character behind a "\r" that ends a row.
unfoldable pub step : Mode → Char → Scan → Option Scan
step start_record c s =
    if is_newline c then some (record s { mode = eat_crnl }) else some (start_of_field c s)
step start_field c s = some (start_of_field c s)
step in_field c s =
    if is_newline c
    then some (save_field eat_crnl s)
    else if code c == 44
    then some (save_field start_field s)
    else some (add_char in_field c s)
step in_quoted c s =
    if code c == 34
    then some (record s { mode = quote_in_quoted })
    else some (add_char in_quoted c s)
step quote_in_quoted c s =
    if code c == 34
    then some (add_char in_quoted c s)
    else if code c == 44
    then some (save_field start_field s)
    else if is_newline c
    then some (save_field eat_crnl s)
    else some (add_char in_field c s)
step eat_crnl c s = if is_newline c then some s else none

-- The end of a line, behind its "\n" or at the end of the text.
unfoldable pub end_line : Mode → Scan → Scan
end_line start_record s = save_row s
end_line start_field s = save_row (save_field start_record s)
end_line in_field s = save_row (save_field start_record s)
end_line in_quoted s = s
end_line quote_in_quoted s = save_row (save_field start_record s)
end_line eat_crnl s = save_row s

unfoldable pub after_char : Char → Scan → Scan
unfolding end_line
after_char c s = if code c == 10 then end_line s.mode s else s

-- The end of the text: a last line without "\n", or a quoted field that is still open.
unfoldable pub finish : Bool → Scan → Scan
unfolding end_line
finish at_line_start s = elim s.mode [
  | in_quoted ↦ save_row (save_field start_record s)
  | other ↦ if at_line_start then s else end_line other s
]

abbrev pub read_char : Char → Option Scan → Option Scan
unfolding step after_char
read_char c none = none
read_char c (some s) = elim (step s.mode c s) [ none ↦ none | some s' ↦ some (after_char c s') ]

unfoldable pub scan : Bool → Option Scan → String → Option (List (List String))
unfolding step after_char finish
scan at_line_start none s = none
scan at_line_start (some state) String.[] =
    some (reversed_onto (finish at_line_start state).rows [])
scan at_line_start (some state) (String.◌∷◌ c s) = scan (code c == 10) (read_char c (some state)) s

abbrev pub initial : Scan
initial = record { mode = start_record; rows = []; fields = []; chars = [] }

-- `list(csv.reader(io.StringIO(text)))`; `none` is a csv.Error.
unfoldable pub read_csv : String → Option (List (List String))
unfolding scan
read_csv text = scan true (some initial) text

-- `csv.writer`: a field is quoted if it has a comma, a quote or a character of the line's end in it;
-- a row of one empty field is quoted too. Each function writes in front of what follows.
unfoldable pub is_plain : String → Bool
is_plain String.[] = true
is_plain (String.◌∷◌ c s) =
    not ((code c == 44) || (code c == 34) || (code c == 13) || (code c == 10)) && is_plain s

unfoldable pub plain_onto : String → String → String
plain_onto String.[] rest = rest
plain_onto (String.◌∷◌ c s) rest = String.◌∷◌ c (plain_onto s rest)

unfoldable pub quoted_onto : String → String → String
quoted_onto String.[] rest = String.◌∷◌ "\"" rest
quoted_onto (String.◌∷◌ c s) rest =
    let more = quoted_onto s rest in String.◌∷◌ c (if code c == 34 then String.◌∷◌ c more else more)

unfoldable pub field_onto : String → String → String
field_onto s rest = if is_plain s then plain_onto s rest else String.◌∷◌ "\"" (quoted_onto s rest)

abbrev pub line_end : String → String
line_end rest = String.◌∷◌ "\r" (String.◌∷◌ "\n" rest)

unfoldable pub row_onto : List String → String → String
unfolding field_onto
row_onto [] rest = line_end rest
row_onto (s ∷ []) rest = field_onto s (line_end rest)
row_onto (s ∷ t ∷ r) rest = field_onto s (String.◌∷◌ "," (row_onto (t ∷ r) rest))

-- The rows that `writeheader` and `writerow` write; of a row of one field the field is not empty.
unfoldable pub write_csv : List (List String) → String
unfolding row_onto
write_csv [] = ""
write_csv (r ∷ rs) = row_onto r (write_csv rs)

write_test :
    write_csv (("a\"b" ∷ "" ∷ []) ∷ ("1, 2" ∷ "x" ∷ []) ∷ []) ≡ "\"a\"\"b\",\r\n\"1, 2\",x\r\n"
unfolding write_csv field_onto is_plain plain_onto quoted_onto
write_test = refl

read_test :
    read_csv "name,price\r\n\"a \"\"b\"\", c\",2\n,\n\nx"
    ≡ some (
        ("name" ∷ "price" ∷ []) ∷ ("a \"b\", c" ∷ "2" ∷ []) ∷ ("" ∷ "" ∷ []) ∷ [] ∷ ("x" ∷ []) ∷ [])
unfolding read_csv
read_test = refl
