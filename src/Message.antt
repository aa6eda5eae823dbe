-- ===== src/Message.antt =====
-- What the bot sends, before its texts are rendered: core/whatsapp.py's four kinds of message, whose
-- texts are calls of `t` (core/strings.py) with their arguments, and merchants' own content.
use whatsapp_commerce_bot.Base.{ℕ, String, Option, List}
use whatsapp_commerce_bot.Base.Int.{ℤ}
use whatsapp_commerce_bot.Db.{Status, Lang}

-- A keyword argument of `t`: `money` goes through `_fmt_money`, `moment` through `_fmt_datetime`,
-- `status_of` through `status_label`.
pub data Arg : Type 0 where
  text : String → Arg
  number : ℕ → Arg
  integer : ℤ → Arg
  money : ℕ → Arg
  percent : ℕ → Arg
  moment : ℕ → Arg
  status_of : Status → Arg
  names : List String → Arg

-- A piece of a text: a call of `t`, a literal or merchant's text, an amount, the line
-- "{quantity} x {name} — {amount}", a status by `status_label`, a line break, or the first characters
-- of a piece.
pub data Part : Type 0 where
  say : String → Lang → List (String × Arg) → Part
  raw : String → Part
  amount : ℕ → Part
  line : ℕ → String → ℕ → Part
  label : Status → Lang → Part
  newline : Part
  clip : ℕ → Part → Part

pub record Button : Type 0 where
  pub id : String
  pub title : Part

pub record Row : Type 0 where
  pub id : String
  pub title : Part
  pub description : List Part

pub record Section : Type 0 where
  pub title : Part
  pub rows : List Row

pub record NativeSection : Type 0 where
  pub title : Part
  pub product_items : List String

pub data Message : Type 0 where
  text : List Part → Message
  buttons : (body : List Part) → (header_image_url : Option String) → List Button → Message
  list : (body button : Part) → List Section → Message
  product_list :
      (catalog_id : String) → List NativeSection → (body : Part) → (header_text : String) → Message

-- A message as it is posted, to a number in the form that the API wants.
pub record Sent : Type 0 where
  pub to : String
  pub message : Message

-- What `parse_incoming_message` of core/whatsapp.py makes of a webhook's message. A quantity is what
-- the JSON holds: nothing, a whole number, another number by its whole part, a text, or a value of
-- another kind.
pub data Quantity : Type 0 where
  missing : Quantity
  whole : ℤ → Quantity
  real : ℤ → Quantity
  text : String → Quantity
  other : Quantity

pub record NativeItem : Type 0 where
  pub product_retailer_id : Option String
  pub quantity : Quantity

pub data Reply : Type 0 where
  text : String → Reply
  interactive_reply : (id title : String) → Reply
  audio : Reply
  order : List NativeItem → Reply
  unsupported : Reply
