-- ===== src/Tests/Texts.antt =====
-- A text that is filled in, and a tap that is read.
use whatsapp_commerce_bot.Base.{◌≡◌, refl, some, [], ◌∷◌}
use whatsapp_commerce_bot.Db.{en}
use whatsapp_commerce_bot.Strings.{t}
use whatsapp_commerce_bot.MessageWebhook.Payload.{
  string, object, empty, field, get_or, value_of, interactive_reply, parse_interactive,
  parse_incoming_message,
}

t_test : t "only_n_left" en (("n", "3") ∷ []) ≡ some "Sorry, only 3 left in stock."
unfolding t
t_test = refl

tapped_test :
    parse_incoming_message (
      object (
        field "type" (string "interactive") (
          field "interactive"
            (object (
              field "type"
                (string "list_reply")
                (field "list_reply" (object (field "id" (string "product_7") empty)) empty)))
            empty)))
    ≡ some (interactive_reply (string "product_7") (string ""))
unfolding parse_incoming_message get_or value_of parse_interactive
tapped_test = refl
