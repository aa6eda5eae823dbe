-- ===== src/Strings.antt =====
-- core/strings.py: `t` and `status_label`, over the table of texts.
pub mod Table
pub mod Filled
use Prim.Native.Char.{Char, code}
use Prim.Native.String.{◌++◌ as str_append}
use whatsapp_commerce_bot.Base.{
  ◌≡◌, refl, String, Bool, true, false, ◌&&◌, ◌||◌, Option, none, some, List, [], ◌∷◌, ◌++◌, str_eq,
  ◌==◌, is_empty, is_some, if◌then◌else◌,
}
use whatsapp_commerce_bot.Db.{
  Status, browsing, pending_payment, paid, failed, cancelled, fulfilled, Lang, en, hi,
}
use whatsapp_commerce_bot.Strings.Table.{
  Entry, menu_texts, product_texts, order_texts, payment_texts, coupon_texts,
}

unfoldable pub find_entry : String → List Entry → Option Entry
find_entry key [] = none
find_entry key (e ∷ es) = if str_eq e.key key then some e else find_entry key es

-- `_STRINGS.get(key)`
unfoldable pub get_entry : String → Option Entry
unfolding find_entry menu_texts product_texts order_texts payment_texts coupon_texts
get_entry key =
    find_entry key
      (menu_texts ++ (product_texts ++ (order_texts ++ (payment_texts ++ coupon_texts))))

abbrev or_text : String → String → String
or_text String.[] s = s
or_text (String.◌∷◌ c r) s = String.◌∷◌ c r

-- `entry.get(lang) or entry.get(DEFAULT_LANG) or key`
unfoldable pub template : Entry → Lang → String → String
template e en key = or_text e.en key
template e hi key = or_text e.hi (or_text e.en key)

-- The keyword arguments of a call, as `format` writes them.
unfoldable pub argument : String → List (String × String) → Option String
argument name [] = none
argument name ((k, v) ∷ args) = if str_eq k name then some v else argument name args

-- `str.format`: the name of the field that the place is in, if it is in one. The table has no doubled
-- braces, no format after a field's name and no brace alone.
abbrev pub next_place : Char → Option String → Option String
next_place c none = if code c == 123 then some "" else none
next_place c (some name) = if code c == 125 then none else some (str_append name (String.◌∷◌ c ""))

abbrev pub put_char : Char → Option String → Option String
put_char c none = none
put_char c (some s) = some (String.◌∷◌ c s)

abbrev pub put_text : Option String → Option String → Option String
put_text (some v) (some s) = some (str_append v s)
put_text (some v) none = none
put_text none s = none

abbrev pub write_place :
    List (String × String) → Char → Option String → (rest : Option String) → Option String
write_place args c none rest = if code c == 123 then rest else put_char c rest
write_place args c (some name) rest =
    if code c == 125 then put_text (argument name args) rest else rest

-- `none` is a KeyError, for a field that is not among the arguments, or a ValueError.
unfoldable pub fill : List (String × String) → Option String → String → Option String
unfolding argument
fill args place String.[] = if is_some place then none else some ""
fill args place (String.◌∷◌ c s) = write_place args c place (fill args (next_place c place) s)

-- `t`
abbrev formatted : List (String × String) → String → Option String
formatted args s = if is_empty args then some s else fill args none s

unfoldable pub t : String → Lang → List (String × String) → Option String
unfolding get_entry template fill
t key lang args = elim (get_entry key) [
  | none ↦ some key
  | some e ↦ formatted args (template e lang key)
]

-- `status_label`, over its table.
unfoldable pub status_label : Status → Lang → String
status_label browsing en = "Browsing"
status_label browsing hi = "ब्राउज़ हो रहा है"
status_label pending_payment en = "Pending Payment"
status_label pending_payment hi = "भुगतान लंबित"
status_label paid en = "Paid"
status_label paid hi = "भुगतान हो गया"
status_label failed en = "Failed"
status_label failed hi = "असफल"
status_label cancelled en = "Cancelled"
status_label cancelled hi = "रद्द"
status_label fulfilled en = "Fulfilled"
status_label fulfilled hi = "पूर्ण"
