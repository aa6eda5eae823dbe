-- ===== src/Base/Csv/Fields.antt =====
-- How the csv module's reader goes through a field that its writer wrote.
use Prim.Native.Char.{Char, code}
use Prim.Native.String.{String}
use mathlib.Core.Path.{◌≡◌, refl, ap, ◌∙◌}
use mathlib.Core.Logic.{inl, inr}
use mathlib.Core.Bool.{Bool, true, false}
use mathlib.Core.Option.{Option, none, some}
use mathlib.Core.List.{List, [], ◌∷◌}
use native.Mathlib.Omega.{arith}
use whatsapp_commerce_bot.Base.Tests.{◌==◌, if◌then◌else◌, Bool-cases}
use whatsapp_commerce_bot.Base.Csv.{
  Mode, start_record, start_field, in_field, in_quoted, quote_in_quoted, eat_crnl, Scan, text_of,
  step, end_line, after_char, read_char, scan, is_plain, plain_onto, quoted_onto,
}

abbrev pub at : Mode → List (List String) → List String → List Char → Scan
at m rows fields chars = record { mode = m; rows = rows; fields = fields; chars = chars }

-- The characters of a field in the order in which they are kept.
unfoldable pub onto : String → List Char → List Char
onto String.[] cs = cs
onto (String.◌∷◌ c s) cs = onto s (c ∷ cs)

pub text_of-onto : (s : String) (cs : List Char) → text_of (onto s cs) "" ≡ text_of cs s
unfolding onto
text_of-onto String.[] cs = refl
text_of-onto (String.◌∷◌ c s) cs = text_of-onto s (c ∷ cs)

-- Before a character, it does not matter whether a line starts.
pub scan-line_start :
    (b b' : Bool) (o : Option Scan) (c : Char) (s : String)
    → scan b o (String.◌∷◌ c s) ≡ scan b' o (String.◌∷◌ c s)
unfolding scan
scan-line_start b b' none c s = refl
scan-line_start b b' (some r) c s = refl

pub scan-cons :
    (b : Bool) (r : Scan) (c : Char) (s : String) (o : Option Scan)
    → read_char c (some r) ≡ o
    → scan b (some r) (String.◌∷◌ c s) ≡ scan (code c == 10) o s
unfolding scan
scan-cons b r c s o e = ap (λ x. scan (code c == 10) x s) e

module _ (rows : List (List String)) (fields : List String) where
  read_plain :
      (c : Char) (cs : List Char)
      → is_plain (String.◌∷◌ c "") ≡ true
      → read_char c (some (at in_field rows fields cs)) ≡ some (at in_field rows fields (c ∷ cs))
  unfolding is_plain step after_char
  read_plain c cs h = ground arith

  pub read_first :
      (c : Char)
      → is_plain (String.◌∷◌ c "") ≡ true
      → read_char c (some (at start_field rows fields [])) ≡ some (at in_field rows fields (c ∷ []))
  unfolding is_plain step after_char
  read_first c h = ground arith

  read_quoted :
      (c : Char) (cs : List Char)
      → (code c == 34) ≡ false
      → read_char c (some (at in_quoted rows fields cs)) ≡ some (at in_quoted rows fields (c ∷ cs))
  unfolding step after_char end_line
  read_quoted c cs h = ground arith

  read_quote :
      (c : Char) (cs : List Char)
      → (code c == 34) ≡ true
      → read_char c (some (at in_quoted rows fields cs)) ≡ some (at quote_in_quoted rows fields cs)
  unfolding step after_char
  read_quote c cs h = ground arith

  read_second_quote :
      (c : Char) (cs : List Char)
      → (code c == 34) ≡ true
      → read_char c (some (at quote_in_quoted rows fields cs))
        ≡ some (at in_quoted rows fields (c ∷ cs))
  unfolding step after_char
  read_second_quote c cs h = ground arith

  pub plain_head :
      (c : Char) (s : String)
      → is_plain (String.◌∷◌ c s) ≡ true
      → (is_plain (String.◌∷◌ c "") ≡ true) × (is_plain s ≡ true)
  unfolding is_plain
  plain_head c s h = (ground arith, ground arith)

  pub scan-plain :
      (s : String) (cs : List Char) (b b' : Bool) (d : Char) (rest : String)
      → is_plain s ≡ true
      → scan b (some (at in_field rows fields cs)) (plain_onto s (String.◌∷◌ d rest))
        ≡ scan b' (some (at in_field rows fields (onto s cs))) (String.◌∷◌ d rest)
  unfolding plain_onto onto
  scan-plain String.[] cs b b' d rest h = scan-line_start b b' _ d rest
  scan-plain (String.◌∷◌ c s) cs b b' d rest h =
      let (here, later) = plain_head c s h in
      scan-cons b _ c _ _ (read_plain c cs here) ∙ scan-plain s (c ∷ cs) _ b' d rest later

  pub scan-quoted :
      (s : String) (cs : List Char) (b b' : Bool) (d : Char) (rest : String)
      → scan b (some (at in_quoted rows fields cs)) (quoted_onto s (String.◌∷◌ d rest))
        ≡ scan b' (some (at quote_in_quoted rows fields (onto s cs))) (String.◌∷◌ d rest)
  unfolding quoted_onto onto
  scan-quoted String.[] cs b b' d rest =
      scan-cons b _ "\"" _ _ (read_quote "\"" cs refl) ∙ scan-line_start _ b' _ d rest
  scan-quoted (String.◌∷◌ c s) cs b b' d rest = elim (Bool-cases (code c == 34)) [
    | inl quote ↦ rw quote (
        scan-cons b _ c _ _ (read_quote c cs quote)
        ∙ scan-cons _ _ c _ _ (read_second_quote c cs quote)
        ∙ scan-quoted s (c ∷ cs) _ b' d rest)
    | inr other ↦
        rw other (scan-cons b _ c _ _ (read_quoted c cs other) ∙ scan-quoted s (c ∷ cs) _ b' d rest)
  ]

-- Where a field that was written has been read up to its end.
abbrev pub end_mode : String → Mode
end_mode s =
    if is_plain s
    then (elim s [ String.[] ↦ start_field | String.◌∷◌ c t ↦ in_field ])
    else quote_in_quoted

abbrev pub is_end : Mode → Bool
is_end start_field = true
is_end in_field = true
is_end quote_in_quoted = true
is_end start_record = false
is_end in_quoted = false
is_end eat_crnl = false

pub end_mode-is_end : (s : String) → is_end (end_mode s) ≡ true
end_mode-is_end String.[] = elim (Bool-cases (is_plain "")) [
  | inl h ↦ rw h refl
  | inr h ↦ rw h refl
]
end_mode-is_end (String.◌∷◌ c s) = elim (Bool-cases (is_plain (String.◌∷◌ c s))) [
  | inl h ↦ rw h refl
  | inr h ↦ rw h refl
]
