-- ===== src/Portal/Routes.antt =====
-- The routes of the portal's modules behind a login, one request at a time.
use whatsapp_commerce_bot.Base.{String, Option}
use whatsapp_commerce_bot.Base.Int.{ℤ}
use whatsapp_commerce_bot.Db.{Status}
use whatsapp_commerce_bot.World.{Env, Action}
use whatsapp_commerce_bot.Portal.{Answer, Form}
use whatsapp_commerce_bot.Portal.Guard.{Host}
use whatsapp_commerce_bot.Portal.Products.{
  products_list, product_new_form, product_new_submit, product_edit_form, product_edit_submit,
  product_toggle_active, products_import_form, products_import_submit,
}
use whatsapp_commerce_bot.Portal.Coupons.{
  coupons_list, coupon_new_form, coupon_new_submit, coupon_toggle_active,
}
use whatsapp_commerce_bot.Portal.Orders.{orders_list, order_detail, order_fulfill}
use whatsapp_commerce_bot.Portal.Settings.{settings_form, settings_submit, settings_password_submit}

pub data Request : Type 0 where
  list_products new_product import_page list_coupons new_coupon settings : Request
  add_product add_coupon save_settings change_password : Form → Request
  edit_product toggle_product toggle_coupon show_order fulfil_order : ℤ → Request
  save_product : ℤ → Form → Request
  import_products : Option (Option String) → Request
  list_orders : Option Status → Request

unfoldable pub portal_request : Host → Env → Option String → Request → Action Answer
portal_request host env cookie Request.list_products = products_list host env cookie
portal_request host env cookie Request.new_product = product_new_form host env cookie
portal_request host env cookie Request.import_page = products_import_form host env cookie
portal_request host env cookie Request.list_coupons = coupons_list host env cookie
portal_request host env cookie Request.new_coupon = coupon_new_form host env cookie
portal_request host env cookie Request.settings = settings_form host env cookie
portal_request host env cookie (Request.add_product form) = product_new_submit host env cookie form
portal_request host env cookie (Request.add_coupon form) = coupon_new_submit host env cookie form
portal_request host env cookie (Request.save_settings form) = settings_submit host env cookie form
portal_request host env cookie (Request.change_password form) =
    settings_password_submit host env cookie form
portal_request host env cookie (Request.edit_product i) = product_edit_form host env cookie i
portal_request host env cookie (Request.toggle_product i) = product_toggle_active host env cookie i
portal_request host env cookie (Request.toggle_coupon i) = coupon_toggle_active host env cookie i
portal_request host env cookie (Request.show_order i) = order_detail host env cookie i
portal_request host env cookie (Request.fulfil_order i) = order_fulfill host env cookie i
portal_request host env cookie (Request.save_product i form) =
    product_edit_submit host env cookie i form
portal_request host env cookie (Request.import_products upload) =
    products_import_submit host env cookie upload
portal_request host env cookie (Request.list_orders status) = orders_list host env cookie status
