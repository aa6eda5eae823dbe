-- ===== src/MessageWebhook/Payload.antt =====
-- core/whatsapp.py: `parse_incoming_message` and `extract_phone_number_id`, on what `json.loads` gives.
use whatsapp_commerce_bot.Base.{String, Bool, false, Option, none, some, str_eq, if◌then◌else◌}
use whatsapp_commerce_bot.Base.Int.{ℤ}

-- A value of JSON; a number that is not whole is kept by its whole part.
mutual
  pub data Json : Type 0 where
    null : Json
    bool : Bool → Json
    number : ℤ → Json
    fraction : ℤ → Json
    string : String → Json
    array : Items → Json
    object : Fields → Json

  pub data Items : Type 0 where
    end : Items
    item : Json → Items → Items

  pub data Fields : Type 0 where
    empty : Fields
    field : String → Json → Fields → Fields

-- Of two fields of one name the later counts.
unfoldable pub value_of : String → Fields → Option Json
value_of key empty = none
value_of key (field k v fs) = elim (value_of key fs) [
  | some later ↦ some later
  | none ↦ if str_eq k key then some v else none
]

-- `.get(key)` and `.get(key, default)`; `none` is an AttributeError.
unfoldable pub get_or : Json → String → Json → Option Json
get_or default key (object fs) = elim (value_of key fs) [ none ↦ some default | some v ↦ some v ]
get_or default key null = none
get_or default key (bool b) = none
get_or default key (number n) = none
get_or default key (fraction n) = none
get_or default key (string s) = none
get_or default key (array js) = none

-- What `parse_incoming_message` returns: values of the message as they stand in it, of any type.
pub data Incoming : Type 0 where
  text : Json → Incoming
  interactive_reply : (id title : Json) → Incoming
  audio : Incoming
  order : (catalog_id : Json) → (product_items : Items) → Incoming
  unsupported : Incoming

infixl 5 ◌then_read◌
abbrev ◌then_read◌ : {A B : Type 0} → Option A → (A → Option B) → Option B
none then_read f = none
(some a) then_read f = f a

abbrev is_string : String → Json → Bool
is_string s (string r) = str_eq r s
is_string s null = false
is_string s (bool b) = false
is_string s (number n) = false
is_string s (fraction n) = false
is_string s (array js) = false
is_string s (object fs) = false

-- `message.get(key, {})`
abbrev part : String → Json → Option Json
part key j = get_or (object empty) key j

-- `order.get("product_items", [])`, with the test that it is a list.
abbrev order_of : (catalog_id product_items : Json) → Incoming
order_of catalog_id (array js) = order catalog_id js
order_of catalog_id null = unsupported
order_of catalog_id (bool b) = unsupported
order_of catalog_id (number n) = unsupported
order_of catalog_id (fraction n) = unsupported
order_of catalog_id (string s) = unsupported
order_of catalog_id (object fs) = unsupported

abbrev read_order : Json → Option Incoming
read_order ordered = get_or (array end) "product_items" ordered then_read λ items.
    get_or (string "") "catalog_id" ordered then_read λ id. some (order_of id items)

abbrev tapped_reply : Json → Option Incoming
tapped_reply reply = get_or (string "") "id" reply then_read λ id.
    get_or (string "") "title" reply then_read λ title. some (interactive_reply id title)

unfoldable pub parse_interactive : Json → Option Incoming
parse_interactive interactive = get_or null "type" interactive then_read λ itype.
    if is_string "list_reply" itype
    then part "list_reply" interactive then_read tapped_reply
    else if is_string "button_reply" itype
    then part "button_reply" interactive then_read tapped_reply
    else some unsupported

-- `none` is the AttributeError of a part that is no object.
unfoldable pub parse_incoming_message : Json → Option Incoming
parse_incoming_message message = get_or null "type" message then_read λ msg_type.
    if is_string "text" msg_type
    then (part "text" message then_read get_or (string "") "body" then_read λ s. some (text s))
    else if is_string "interactive" msg_type
    then part "interactive" message then_read parse_interactive
    else if is_string "audio" msg_type
    then some audio
    else if is_string "order" msg_type
    then part "order" message then_read read_order
    else some unsupported

-- `none` is an AttributeError.
unfoldable pub extract_phone_number_id : Json → Option Json
extract_phone_number_id change = part "metadata" change then_read get_or null "phone_number_id"
