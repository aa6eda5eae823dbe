-- ===== src/Onboarding.antt =====
-- admin/onboarding_wizard.py: `_parse_csv_products`, on the decoded text of the file, which the portal's
-- import shares.
use whatsapp_commerce_bot.Base.{
  ℕ, suc, String, Bool, false, ◌&&◌, ◌||◌, Option, none, some, List, [], ◌∷◌, str_eq, if◌then◌else◌,
}
use whatsapp_commerce_bot.Base.Int.{ℤ, pos}
use whatsapp_commerce_bot.Base.Text.{strip}
use whatsapp_commerce_bot.Base.Decimal.{Decimal, decimal_of}
use whatsapp_commerce_bot.Base.Numeral.{int}
use whatsapp_commerce_bot.Base.Csv.{read_csv}
use whatsapp_commerce_bot.Portal.{
  FormError, or_null, not_utf8, no_header, row_name_required, row_bad_price, row_bad_stock,
}

-- A product that the caller is to create.
pub record Parsed : Type 0 where
  pub name : String
  pub price : Decimal
  pub description : Option String
  pub image_url : Option String
  pub sku : Option String
  pub stock_quantity : ℤ
  pub category : Option String

-- `row.get(key)` of a DictReader's row: of two columns with one name the later counts, and a short
-- row has None behind its end.
unfoldable pub row_get : List String → List String → String → Option String
row_get [] row key = none
row_get (f ∷ fs) [] key = none
row_get (f ∷ fs) (v ∷ vs) key = elim (row_get fs vs key) [
  | some later ↦ some later
  | none ↦ if str_eq f key then some v else none
]

-- `(row.get(key) or default).strip()`
abbrev filled : String → Option String → String
filled default none = default
filled default (some String.[]) = default
filled default (some (String.◌∷◌ c s)) = String.◌∷◌ c s

unfoldable pub cell : String → List String → List String → String → String
cell default header row key = strip (filled default (row_get header row key))

abbrev stock_cell : String → Option ℤ
stock_cell String.[] = some (pos 0)
stock_cell (String.◌∷◌ c s) = int (String.◌∷◌ c s)

-- A row's product, or what is wrong with it, the first fault alone.
pub data RowResult : Type 0 where
  product : Parsed → RowResult
  faulty : FormError → RowResult

abbrev with_stock : ℕ → List String → List String → String → Decimal → Option ℤ → RowResult
with_stock i header row name price none = faulty (row_bad_stock i)
with_stock i header row name price (some stock) = product (record {
  name = name;
  price = price;
  description = or_null (cell "" header row "description");
  image_url = or_null (cell "" header row "image_url");
  sku = or_null (cell "" header row "sku");
  stock_quantity = stock;
  category = or_null (cell "" header row "category");
})

abbrev with_price : ℕ → List String → List String → String → Option Decimal → RowResult
with_price i header row name none = faulty (row_bad_price i)
with_price i header row name (some price) =
    with_stock i header row name price (stock_cell (cell "0" header row "stock_quantity"))

abbrev with_name : ℕ → List String → List String → String → RowResult
with_name i header row String.[] = faulty (row_name_required i)
with_name i header row (String.◌∷◌ c s) =
    with_price i header row (String.◌∷◌ c s) (decimal_of (cell "" header row "price"))

unfoldable pub parse_row : ℕ → List String → List String → RowResult
parse_row i header row = with_name i header row (cell "" header row "name")

pub record Import : Type 0 where
  pub products : List Parsed
  pub errors : List FormError

abbrev add_result : RowResult → Import → Import
add_result (product p) rest = record rest { products = p ∷ rest.products }
add_result (faulty e) rest = record rest { errors = e ∷ rest.errors }

abbrev nothing_read : Import
nothing_read = record { products = []; errors = [] }

-- The rows from the i-th on; `DictReader` passes over rows without a field, which have no number.
unfoldable pub parse_rows : ℕ → List String → List (List String) → Import
unfolding parse_row
parse_rows i header [] = nothing_read
parse_rows i header ([] ∷ rows) = parse_rows i header rows
parse_rows i header ((v ∷ vs) ∷ rows) =
    add_result (parse_row i header (v ∷ vs)) (parse_rows (suc i) header rows)

unfoldable pub has_column : String → List String → Bool
has_column key [] = false
has_column key (f ∷ fs) = str_eq f key || has_column key fs

abbrev refused_file : FormError → Import
refused_file e = record { products = []; errors = e ∷ [] }

unfoldable pub parse_table : List (List String) → Import
unfolding parse_rows has_column
parse_table [] = refused_file no_header
parse_table (header ∷ rows) =
    if has_column "name" header && has_column "price" header
    then parse_rows 2 header rows
    else refused_file no_header

-- `_parse_csv_products`: of the text that the bytes decode to, if they do; `none` is a csv.Error.
unfoldable pub parse_csv_products : Option String → Option Import
unfolding read_csv parse_table
parse_csv_products none = some (refused_file not_utf8)
parse_csv_products (some text) = elim (read_csv text) [
  | none ↦ none
  | some rows ↦ some (parse_table rows)
]
