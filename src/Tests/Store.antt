-- ===== src/Tests/Store.antt =====
-- The repository's theorems on the small shop.
use whatsapp_commerce_bot.Base.{
  ◌+◌, ◌++◌, ◌*◌, ◌≤◌, ◌≡◌, refl, inl, none, some, List, [], ◌∷◌, map, All, arith,
}
use whatsapp_commerce_bot.Base.Int.{pos}
use whatsapp_commerce_bot.Base.Table.{Unique, select_one}
use whatsapp_commerce_bot.Db.{Order, failed, fulfilled, pending_payment, percentage, hi}
use whatsapp_commerce_bot.Db.Orders.{get_order, paid_row, mark_order_paid, mark_order_failed}
use whatsapp_commerce_bot.Db.Orders.States.{
  Event, pays, fails, fulfils, step, run, IsSettled, Agrees, run-IsSettled, run-Agrees,
}
use whatsapp_commerce_bot.Db.Orders.Repeats.{Move, step-Move, fulfilled_taken_back}
use whatsapp_commerce_bot.Db.Coupons.{round_half_even, compute_discount}
use whatsapp_commerce_bot.Db.Coupons.Discount.{round_half_even_near, compute_discount-le}
use whatsapp_commerce_bot.Db.Checkout.{take_stock, checkout_cart}
use whatsapp_commerce_bot.Db.Checkout.Stock.{
  product_id_of, after_sale, take_stock-after_sale, IsStocked, take_stock-IsStocked,
}
use whatsapp_commerce_bot.Db.Checkout.Placed.{IsFresh}
use whatsapp_commerce_bot.Db.Checkout.Atomic.{Checked, checkout_cart-Checked}
use whatsapp_commerce_bot.Db.Products.{ProductFields, create_product}
use whatsapp_commerce_bot.Db.Products.Created.{created, create_product-created}
use whatsapp_commerce_bot.Payments.{build_reference_id, parse_reference_id}
use whatsapp_commerce_bot.Payments.Reference.{parse-build_reference_id}
use whatsapp_commerce_bot.Tests.{
  phone, clock, products, placed_order, database, pending, shop, basket,
}

products-Unique : Unique product_id_of products
products-Unique = ((omega arith, (omega arith, tt)), ((omega arith, tt), (tt, tt)))

shop-IsFresh : IsFresh shop
shop-IsFresh = record { orders = (omega arith, tt); items = tt }

checkout_cart-Checked_example :
    Checked 1 phone hi
      (take_stock 1 basket products).line_items
      shop
      (checkout_cart clock 1 phone basket hi none shop)
checkout_cart-Checked_example =
    checkout_cart-Checked clock 1 phone basket hi none shop shop-IsFresh products-Unique

take_stock-after_sale_example :
    (take_stock 1 basket products).rows
    ≡ map (after_sale 1 (take_stock 1 basket products).line_items) products
take_stock-after_sale_example = take_stock-after_sale 1 basket products products-Unique

take_stock-IsStocked_example : All IsStocked (take_stock 1 basket products).rows
take_stock-IsStocked_example =
    take_stock-IsStocked 1 basket products (omega arith, (omega arith, (omega arith, tt)))

-- A failure, then the payment, and then the merchant's click.
abbrev events : List Event
events = fails 1 7 ∷ pays 1 7 (some "pay_1") 4500 (some "upi") ∷ fulfils 1 7 ∷ []

run-IsSettled_example : All IsSettled (run events shop).orders.rows
run-IsSettled_example = run-IsSettled events shop (inl refl, tt)

found : get_order 1 7 shop ≡ some pending
unfolding get_order select_one
found = refl

run-Agrees_example : (o' : Order) × (get_order 1 7 (run events shop) ≡ some o') × Agrees pending o'
run-Agrees_example = run-Agrees events 1 7 shop pending found

step-Move_example :
    (o' : Order) × (get_order 1 7 (step (fails 1 7) shop) ≡ some o')
    × Move pending_payment o'.status
step-Move_example = step-Move (fails 1 7) 1 7 shop pending found

abbrev done : Order
done = placed_order fulfilled (some 4500)

found_done : get_order 1 7 (database done) ≡ some done
unfolding get_order select_one
found_done = refl

fulfilled_taken_back_example :
    (get_order 1 7 (mark_order_failed 1 7 (database done)).1
      ≡ some (placed_order failed (some 4500)))
    × (get_order 1 7 (mark_order_paid 1 7 none 4600 none (database done)).1
        ≡ some (paid_row none 4600 none done))
fulfilled_taken_back_example =
    fulfilled_taken_back 1 7 4600 none none (database done) done found_done refl

-- 12.5 percent of 333.33 rupees.
compute_discount-le_example : compute_discount 33333 percentage 1250 ≤ 33333
compute_discount-le_example = compute_discount-le 33333 percentage 1250

round_half_even_near_example :
    (2 * (round_half_even 41666250 10000 * 10000) ≤ 2 * 41666250 + 10000)
    × (2 * 41666250 ≤ 2 * (round_half_even 41666250 10000 * 10000) + 10000)
round_half_even_near_example = round_half_even_near 41666250

parse-build_reference_id_example :
    parse_reference_id (some (build_reference_id 12 3045)) ≡ some (pos 12, pos 3045)
parse-build_reference_id_example = parse-build_reference_id 12 3045

abbrev new_fields : ProductFields
new_fields = record {
  name = "Lamp";
  price = 90000;
  description = none;
  image_url = none;
  sku = none;
  stock_quantity = pos 4;
  category = none;
}

create_product-created_example :
    ((create_product 1 "INR" new_fields shop).1 ≡ record shop {
      products = record { rows = products ++ created 1 "INR" new_fields shop ∷ []; next_id = 5 };
    })
    × ((create_product 1 "INR" new_fields shop).0 ≡ some (created 1 "INR" new_fields shop))
create_product-created_example =
    create_product-created 1 "INR" new_fields shop (omega arith, (omega arith, (omega arith, tt)))
