-- ===== src/Tests/Conversation.antt =====
-- The conversation's and the webhooks' theorems on the small shop.
use whatsapp_commerce_bot.Base.{◌≡◌, refl, true, none, some, [], ◌∷◌, arith}
use whatsapp_commerce_bot.Base.Text.{strip, lower_is_in}
use whatsapp_commerce_bot.Base.Table.{select_one}
use whatsapp_commerce_bot.Db.{paid, Lang, hi}
use whatsapp_commerce_bot.Db.Isolation.{holdings}
use whatsapp_commerce_bot.Db.Products.{get_product}
use whatsapp_commerce_bot.Db.Orders.{get_order}
use whatsapp_commerce_bot.Message.{Reply, interactive_reply}
use whatsapp_commerce_bot.Sessions.{
  State, cart, product_detail, apply_coupon, has_expired, Session, default_session, empty_context,
}
use whatsapp_commerce_bot.Sessions
use whatsapp_commerce_bot.Sessions.Laws.{get-set}
use whatsapp_commerce_bot.World.{World}
use whatsapp_commerce_bot.Db.{Coupon, Database, percentage}
use whatsapp_commerce_bot.Db.Checkout.{applied_coupon}
use whatsapp_commerce_bot.Flow.Prompts.{coupon_preview}
use whatsapp_commerce_bot.Flow.Preview.{shown, coupon_preview-applied_coupon}
use whatsapp_commerce_bot.Flow.Dispatch.{chosen_language, is_reset, handle_incoming}
use whatsapp_commerce_bot.Flow.Shop.{tapped, handle_product_detail}
use whatsapp_commerce_bot.Flow.Webhooks.{handle_payment_success, handle_payment_failure}
use whatsapp_commerce_bot.Flow.Webhooks.Delivery.{
  marked, receipt_to, handle_payment_success-confirms,
}
use whatsapp_commerce_bot.Flow.Webhooks.Repeats.{redelivery_idle}
use whatsapp_commerce_bot.Flow.Invariant.Own.{session_now}
use whatsapp_commerce_bot.Flow.Invariant.Isolation.{
  handle_incoming-holdings, handle_incoming-sessions,
}
use whatsapp_commerce_bot.Flow.Invariant.Language.{language_now, handle_incoming-language}
use whatsapp_commerce_bot.Flow.Invariant.Twice.{checkout_tap-twice}
use whatsapp_commerce_bot.Flow.Invariant.Resets.{restarted, handle_incoming-reset}
use whatsapp_commerce_bot.Flow.Invariant.Adds.{Added, handle_product_detail-Added}
use whatsapp_commerce_bot.Tests.{phone, env, shop, shop_tenant, mango, pending, looking, world}

abbrev tap : Reply
tap = interactive_reply "checkout" "Checkout"

abbrev after : Reply → World → World
after reply w = (handle_incoming env phone 1 "Spice Shop" reply w).1

at_cart : session_now env phone 1 (world cart) ≡ record { state = cart; context = looking }
unfolding Sessions.get has_expired
at_cart = refl

handle_incoming-holdings_example :
    holdings 2 (after tap (world cart)).db ≡ holdings 2 (world cart).db
handle_incoming-holdings_example =
    handle_incoming-holdings env phone 1 "Spice Shop" 2 (omega arith) tap (world cart)

handle_incoming-sessions_example :
    Sessions.get 5000 2 phone (after tap (world cart)).sessions
    ≡ Sessions.get 5000 2 phone (world cart).sessions
handle_incoming-sessions_example =
    handle_incoming-sessions env phone 1 "Spice Shop" 2 phone refl 5000 tap (world cart)

no_choice : (other : Lang) → chosen_language (tapped tap) ≡ some other → other ≡ hi
unfolding chosen_language
no_choice other e = cc

speaks : language_now env phone 1 hi (world cart) ≡ some hi
unfolding Sessions.get has_expired
speaks = refl

handle_incoming-language_example : language_now env phone 1 hi (after tap (world cart)) ≡ some hi
handle_incoming-language_example =
    handle_incoming-language env phone 1 hi "Spice Shop" tap (world cart) no_choice speaks

in_cart : (session_now env phone 1 (world cart)).state ≡ cart
unfolding Sessions.get has_expired
in_cart = refl

checkout_tap-twice_example : (after tap (after tap (world cart))).db ≡ (after tap (world cart)).db
checkout_tap-twice_example =
    checkout_tap-twice env phone 1 "Spice Shop" "Checkout" (world cart) in_cart

menu : is_reset (Reply.text "  MENU ") ≡ true
unfolding is_reset strip lower_is_in
menu = refl

handle_incoming-reset_example :
    (session_now env phone 1 (after (Reply.text "  MENU ") (world cart))
      ≡ restarted env phone 1 "Spice Shop" (session_now env phone 1 (world cart)).context.language)
    × ((after (Reply.text "  MENU ") (world cart)).db ≡ shop)
handle_incoming-reset_example =
    handle_incoming-reset env phone 1 "Spice Shop" "  MENU " (world cart) menu

found_mango : get_product 1 1 shop ≡ some mango
unfolding get_product select_one
found_mango = refl

handle_product_detail-Added_example : Added env phone 1 looking mango (
    session_now env phone 1
      (handle_product_detail env phone 1 looking
        (interactive_reply "add_to_cart" "Add")
        (world product_detail)).1)
handle_product_detail-Added_example =
    handle_product_detail-Added env phone 1 looking mango 1 "Add" (world product_detail) refl
      found_mango refl

found_order : get_order 1 7 shop ≡ some pending
unfolding get_order select_one
found_order = refl

handle_payment_success-confirms_example :
    (handle_payment_success env 1 7 (some "pay_1") (some "upi") (world cart) ≡ (
      tt,
      record (world cart) {
        db = (marked env 1 7 (some "pay_1") (some "upi") (world cart)).1;
        sent = receipt_to env 1 7 (some "pay_1") (some "upi") (world cart) pending ∷ [];
      },
    ))
    × (get_order 1 7 (handle_payment_success env 1 7 (some "pay_1") (some "upi") (world cart)).1.db
        ≡ some (record pending {
          status = paid;
          payment_gateway_reference = some "pay_1";
          payment_method = some "upi";
          paid_at = some 5000;
        }))
handle_payment_success-confirms_example =
    handle_payment_success-confirms env 1 7 (some "pay_1") (some "upi") (world cart) (tt, tt)
      pending found_order

redelivery_idle_example :
    (handle_payment_success env 1 7 none none
        (handle_payment_success env 1 7 (some "pay_1") (some "upi") (world cart)).1
      ≡ (tt, (handle_payment_success env 1 7 (some "pay_1") (some "upi") (world cart)).1))
    × (handle_payment_failure env shop_tenant 7 true
          (handle_payment_success env 1 7 (some "pay_1") (some "upi") (world cart)).1
        ≡ (tt, (handle_payment_success env 1 7 (some "pay_1") (some "upi") (world cart)).1))
    × (handle_payment_failure env shop_tenant 7 true
          (handle_payment_failure env shop_tenant 7 true (world cart)).1
        ≡ (tt, (handle_payment_failure env shop_tenant 7 true (world cart)).1))
redelivery_idle_example =
    redelivery_idle env env shop_tenant 7 (some "pay_1") none (some "upi") none true true
      (world cart)

-- Read half an hour and a second later, the session has run out.
get-set_example :
    Sessions.get 6801 1 phone (Sessions.set 5000 1 phone cart looking []) ≡ default_session
unfolding has_expired
get-set_example = get-set 5000 6801 1 1 phone phone cart looking []

abbrev save10 : Coupon
save10 = record {
  id = 1;
  tenant_id = 1;
  code = "SAVE10";
  discount_type = percentage;
  discount_value = 1000;
  is_active = true;
  expires_at = some "2026-01-31";
  created_at = 1;
}

abbrev shop_with_coupon : Database
shop_with_coupon = record shop { coupons = record { rows = save10 ∷ []; next_id = 2 } }

coupon_preview-applied_coupon_example :
    coupon_preview env 1 hi 50000 (some "SAVE10") shop_with_coupon
    ≡ shown hi 50000 (applied_coupon env.clock 1 (some "SAVE10") 50000 shop_with_coupon)
coupon_preview-applied_coupon_example =
    coupon_preview-applied_coupon env 1 hi 50000 (some "SAVE10") shop_with_coupon
