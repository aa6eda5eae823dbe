-- ===== src/Base/Csv/Laws.antt =====
-- The csv module's reader on what its writer writes.
use Prim.Native.Char.{Char, code}
use Prim.Native.String.{String}
use mathlib.Core.Path.{◌≡◌, refl, sym, ap, ◌∙◌}
use mathlib.Core.Logic.{inl, inr}
use mathlib.Core.Bool.{Bool, true, false}
use mathlib.Core.Option.{some}
use mathlib.Core.List.{List, [], ◌∷◌}
use native.Mathlib.Omega.{arith}
use whatsapp_commerce_bot.Base.Tests.{◌==◌, Bool-cases}
use whatsapp_commerce_bot.Base.Lists.{All}
use whatsapp_commerce_bot.Base.Csv.{
  Mode, start_record, start_field, in_field, in_quoted, quote_in_quoted, eat_crnl, text_of,
  reversed_onto, step, end_line, after_char, finish, read_char, scan, read_csv, is_plain,
  plain_onto, field_onto, line_end, row_onto, write_csv, is_newline,
}
use whatsapp_commerce_bot.Base.Csv.Fields.{
  at, onto, text_of-onto, scan-line_start, scan-cons, read_first, plain_head, scan-plain,
  scan-quoted, end_mode, is_end, end_mode-is_end,
}

module _ (rows : List (List String)) where
  read_comma :
      (m : Mode) (fields : List String) (cs : List Char)
      → is_end m ≡ true
      → read_char "," (some (at m rows fields cs))
        ≡ some (at start_field rows (text_of cs "" ∷ fields) [])
  unfolding step after_char
  read_comma start_field fields cs h = refl
  read_comma in_field fields cs h = refl
  read_comma quote_in_quoted fields cs h = refl
  read_comma start_record fields cs h = cc
  read_comma in_quoted fields cs h = cc
  read_comma eat_crnl fields cs h = cc

  read_return :
      (m : Mode) (fields : List String) (cs : List Char)
      → is_end m ≡ true
      → read_char "\r" (some (at m rows fields cs))
        ≡ some (at eat_crnl rows (text_of cs "" ∷ fields) [])
  unfolding step after_char
  read_return start_field fields cs h = refl
  read_return in_field fields cs h = refl
  read_return quote_in_quoted fields cs h = refl
  read_return start_record fields cs h = cc
  read_return in_quoted fields cs h = cc
  read_return eat_crnl fields cs h = cc

  read_line_feed :
      (fields : List String)
      → read_char "\n" (some (at eat_crnl rows fields []))
        ≡ some (at start_record (reversed_onto fields [] ∷ rows) [] [])
  unfolding step after_char end_line
  read_line_feed fields = refl

  read_opening :
      (fields : List String)
      → read_char "\"" (some (at start_field rows fields [])) ≡ some (at in_quoted rows fields [])
  unfolding step after_char
  read_opening fields = refl

  scan-plain_field :
      (s : String) (fields : List String) (b b' : Bool) (d : Char) (rest : String)
      → is_plain s ≡ true
      → scan b (some (at start_field rows fields [])) (plain_onto s (String.◌∷◌ d rest))
        ≡ scan b'
            (some (
              at
                (elim s [ String.[] ↦ start_field | String.◌∷◌ c t ↦ in_field ])
                rows
                fields
                (onto s [])))
            (String.◌∷◌ d rest)
  unfolding plain_onto onto
  scan-plain_field String.[] fields b b' d rest h = scan-line_start b b' _ d rest
  scan-plain_field (String.◌∷◌ c s) fields b b' d rest h =
      let (here, later) = plain_head rows fields c s h in
      scan-cons b _ c _ _ (read_first rows fields c here)
      ∙ scan-plain rows fields s (c ∷ []) _ b' d rest later

  scan-field :
      (s : String) (fields : List String) (b b' : Bool) (d : Char) (rest : String)
      → scan b (some (at start_field rows fields [])) (field_onto s (String.◌∷◌ d rest))
        ≡ scan b' (some (at (end_mode s) rows fields (onto s []))) (String.◌∷◌ d rest)
  unfolding field_onto
  scan-field s fields b b' d rest = elim (Bool-cases (is_plain s)) [
    | inl plain ↦ rw plain (scan-plain_field s fields b b' d rest plain)
    | inr special ↦
        rw special
          (scan-cons b _ "\"" _ _ (read_opening fields) ∙ scan-quoted rows fields s [] _ b' d rest)
  ]

  scan-cell :
      (s : String) (fields : List String) (b : Bool) (rest : String)
      → scan b (some (at start_field rows fields [])) (field_onto s (String.◌∷◌ "," rest))
        ≡ scan false (some (at start_field rows (s ∷ fields) [])) rest
  scan-cell s fields b rest =
      scan-field s fields b b "," rest
      ∙ scan-cons b _ "," rest _ (read_comma (end_mode s) fields (onto s []) (end_mode-is_end s))
      ∙ ap (λ x. scan false (some (at start_field rows (x ∷ fields) [])) rest) (text_of-onto s [])

  scan-last_cell :
      (s : String) (fields : List String) (b : Bool) (rest : String)
      → scan b (some (at start_field rows fields [])) (field_onto s (line_end rest))
        ≡ scan true (some (at start_record (reversed_onto (s ∷ fields) [] ∷ rows) [] [])) rest
  scan-last_cell s fields b rest =
      scan-field s fields b b "\r" _
      ∙ scan-cons b _ "\r" _ _ (read_return (end_mode s) fields (onto s []) (end_mode-is_end s))
      ∙ scan-cons false _ "\n" rest _ (read_line_feed _)
      ∙ ap
          (λ x.
            scan true (some (at start_record (reversed_onto (x ∷ fields) [] ∷ rows) [] [])) rest)
          (text_of-onto s [])

  scan-row :
      (s : String) (r fields : List String) (b : Bool) (rest : String)
      → scan b (some (at start_field rows fields [])) (row_onto (s ∷ r) rest)
        ≡ scan true
            (some (at start_record (reversed_onto (reversed_onto (s ∷ r) fields) [] ∷ rows) [] []))
            rest
  unfolding row_onto
  scan-row s [] fields b rest = scan-last_cell s fields b rest
  scan-row s (t ∷ r) fields b rest =
      scan-cell s fields b (row_onto (t ∷ r) rest) ∙ scan-row t r (s ∷ fields) false rest

reversed_twice :
    (xs ys zs : List String)
    → reversed_onto (reversed_onto xs ys) zs
      ≡ reversed_onto ys (reversed_onto (reversed_onto xs []) zs)
reversed_twice [] ys zs = refl
reversed_twice (x ∷ xs) ys zs =
    reversed_twice xs (x ∷ ys) zs ∙ ap (reversed_onto ys) (sym (reversed_twice xs (x ∷ []) zs))

reversed_back : (xs : List String) → reversed_onto (reversed_onto xs []) [] ≡ xs
reversed_back [] = refl
reversed_back (x ∷ xs) = reversed_twice xs (x ∷ []) [] ∙ ap (λ ys. x ∷ ys) (reversed_back xs)

-- A row of at least two fields does not start with an end of line.
abbrev pub IsWide : List String → Type 0
IsWide [] = ⊥
IsWide (s ∷ []) = ⊥
IsWide (s ∷ t ∷ r) = Unit

module _ (rows : List (List String)) where
  read_start :
      (c : Char)
      → is_newline c ≡ false
      → read_char c (some (at start_record rows [] []))
        ≡ read_char c (some (at start_field rows [] []))
  unfolding step after_char
  read_start c h = ground arith

  scan-start :
      (c : Char) (s : String) (b : Bool)
      → is_newline c ≡ false
      → scan b (some (at start_record rows [] [])) (String.◌∷◌ c s)
        ≡ scan b (some (at start_field rows [] [])) (String.◌∷◌ c s)
  unfolding scan
  scan-start c s b h = ap (λ o. scan (code c == 10) o s) (read_start c h)

  plain_no_newline :
      (c : Char) (s : String) → is_plain (String.◌∷◌ c s) ≡ true → is_newline c ≡ false
  unfolding is_plain
  plain_no_newline c s h = ground arith

  scan-first_field :
      (s rest : String) (b : Bool)
      → scan b (some (at start_record rows [] [])) (field_onto s (String.◌∷◌ "," rest))
        ≡ scan b (some (at start_field rows [] [])) (field_onto s (String.◌∷◌ "," rest))
  unfolding field_onto plain_onto
  scan-first_field String.[] rest b = elim (Bool-cases (is_plain "")) [
    | inl plain ↦ rw plain (scan-start "," rest b refl)
    | inr special ↦ rw special (scan-start "\"" _ b refl)
  ]
  scan-first_field (String.◌∷◌ c s) rest b = elim (Bool-cases (is_plain (String.◌∷◌ c s))) [
    | inl plain ↦ rw plain (scan-start c _ b (plain_no_newline c s plain))
    | inr special ↦ rw special (scan-start "\"" _ b refl)
  ]

  scan-wide_row :
      (r : List String) (rest : String)
      → IsWide r
      → scan true (some (at start_record rows [] [])) (row_onto r rest)
        ≡ scan true (some (at start_record (r ∷ rows) [] [])) rest
  scan-wide_row [] rest wide = absurd wide
  scan-wide_row (s ∷ []) rest wide = absurd wide
  scan-wide_row (s ∷ t ∷ r) rest wide =
      unfold row_onto in
      scan-first_field s (row_onto (t ∷ r) rest) true
      ∙ scan-row rows s (t ∷ r) [] true rest
      ∙ ap (λ x. scan true (some (at start_record (x ∷ rows) [] [])) rest)
          (reversed_back (s ∷ t ∷ r))

scan-end :
    (rows : List (List String))
    → scan true (some (at start_record rows [] [])) "" ≡ some (reversed_onto rows [])
unfolding scan finish
scan-end rows = refl

scan-write_csv :
    (rs rows : List (List String))
    → All IsWide rs
    → scan true (some (at start_record rows [] [])) (write_csv rs) ≡ some (reversed_onto rows rs)
unfolding write_csv
scan-write_csv [] rows wide = scan-end rows
scan-write_csv (r ∷ rs) rows (wide, wides) =
    scan-wide_row rows r (write_csv rs) wide ∙ scan-write_csv rs (r ∷ rows) wides

-- Rows of at least two fields are read back as they were written, whatever characters they hold.
pub read_csv-write_csv :
    (rs : List (List String)) → All IsWide rs → read_csv (write_csv rs) ≡ some rs
unfolding read_csv
read_csv-write_csv rs wide = scan-write_csv rs [] wide
