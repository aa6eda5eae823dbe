-- ===== src/Strings/Table.antt =====
-- core/strings.py: the table of texts, in its order. The second text of an entry is the Hindi one.
use whatsapp_commerce_bot.Base.{String, List, [], ◌∷◌}

pub record Entry : Type 0 where
  pub key : String
  pub en : String
  pub hi : String

abbrev entry : String → String → String → Entry
entry key en hi = record { key = key; en = en; hi = hi }

unfoldable pub menu_texts : List Entry
menu_texts =
    entry "welcome" "Hi! Welcome to {tenant_name}. What would you like to do?"
      "नमस्ते! {tenant_name} में आपका स्वागत है। आप क्या करना चाहेंगे?"
    ∷ entry "main_menu_button" "Main Menu" "मुख्य मेनू"
    ∷ entry "menu_shop_now" "Shop Now" "अभी खरीदें"
    ∷ entry "menu_my_orders" "My Orders" "मेरे ऑर्डर"
    ∷ entry "menu_track_order" "Track Order" "ऑर्डर ट्रैक करें"
    ∷ entry "menu_offers" "Offers" "ऑफ़र"
    ∷ entry "menu_account" "Account" "खाता"
    ∷ entry "menu_talk_to_us" "Talk to Us" "हमसे बात करें"
    ∷ entry "account_coming_soon" "Account management is coming soon!"
        "खाता प्रबंधन जल्द ही आ रहा है!"
    ∷ entry "talk_to_us_coming_soon"
        "Talk to Us is coming soon — for now, please reach out to us directly."
        "हमसे बात करने की सुविधा जल्द ही आ रही है — फ़िलहाल कृपया सीधे हमसे संपर्क करें।"
    ∷ entry "please_choose" "Please choose an option from the list above"
        "कृपया ऊपर दी गई सूची में से कोई विकल्प चुनें"
    ∷ entry "no_products_available" "Sorry, we don't have any products available right now."
        "क्षमा करें, फ़िलहाल हमारे पास कोई उत्पाद उपलब्ध नहीं है।"
    ∷ entry "browse_products_body" "Browse our products:" "हमारे उत्पाद देखें:"
    ∷ entry "view_products_button" "View Products" "उत्पाद देखें"
    ∷ entry "see_more_products" "See more products" "और उत्पाद देखें"
    ∷ entry "category_other" "Other" "अन्य"
    ∷ entry "category_more_section" "More" "और"
    ∷ entry "item_unavailable" "Sorry, that item is no longer available."
        "क्षमा करें, यह उत्पाद अब उपलब्ध नहीं है।"
    ∷ []

unfoldable pub product_texts : List Entry
product_texts =
    entry "add_to_cart_button" "Add to Cart" "कार्ट में जोड़ें"
    ∷ entry "back_to_products_button" "Back to Products" "उत्पादों पर वापस जाएं"
    ∷ entry "out_of_stock" "Sorry, this item is out of stock."
        "क्षमा करें, यह उत्पाद स्टॉक में नहीं है।"
    ∷ entry "only_n_left" "Sorry, only {n} left in stock." "क्षमा करें, स्टॉक में केवल {n} बचे हैं।"
    ∷ entry "added_to_cart" "Added {product_name} to your cart."
        "{product_name} आपके कार्ट में जोड़ दिया गया।"
    ∷ entry "cart_count_summary" "Cart ({count} {unit}) — {amount}"
        "कार्ट ({count} आइटम) — {amount}"
    ∷ entry "view_cart_button" "View Cart" "कार्ट देखें"
    ∷ entry "continue_shopping_button" "Continue Shopping" "खरीदारी जारी रखें"
    ∷ entry "cart_empty" "Your cart is empty." "आपका कार्ट खाली है।"
    ∷ entry "your_cart_header" "Your Cart:" "आपका कार्ट:"
    ∷ entry "subtotal_label" "Subtotal: {amount}" "उप-योग: {amount}"
    ∷ []

unfoldable pub order_texts : List Entry
order_texts =
    entry "checkout_button" "Checkout" "चेकआउट करें"
    ∷ entry "your_recent_orders" "Your recent orders:" "आपके हाल के ऑर्डर:"
    ∷ entry "view_orders_button" "View Orders" "ऑर्डर देखें"
    ∷ entry "orders_section_title" "Orders" "ऑर्डर"
    ∷ entry "no_orders_yet" "You don't have any orders yet." "आपका अभी तक कोई ऑर्डर नहीं है।"
    ∷ entry "order_number" "Order #{id}" "ऑर्डर #{id}"
    ∷ entry "order_status_label" "Status: {status}" "स्थिति: {status}"
    ∷ entry "order_placed_label" "Placed: {date}" "दिनांक: {date}"
    ∷ entry "order_total_label" "Total: {amount}" "कुल: {amount}"
    ∷ entry "order_not_found" "Something went wrong finding that order. Please start over."
        "उस ऑर्डर को खोजने में कुछ गड़बड़ हुई। कृपया फिर से शुरू करें।"
    ∷ entry "cart_empty_checkout" "Your cart is empty. Send any message to start shopping again."
        "आपका कार्ट खाली है। खरीदारी फिर से शुरू करने के लिए कोई भी संदेश भेजें।"
    ∷ entry "cart_items_unavailable"
        "Sorry, the items in your cart are no longer available. Please start shopping again."
        "क्षमा करें, आपके कार्ट में मौजूद उत्पाद अब उपलब्ध नहीं हैं। कृपया फिर से खरीदारी शुरू करें।"
    ∷ []

unfoldable pub payment_texts : List Entry
payment_texts =
    entry "order_placed_confirmation" "Order #{id} placed!" "ऑर्डर #{id} दर्ज हो गया!"
    ∷ entry "items_removed_note"
        "Note: {names} went out of stock and {verb} removed from your order."
        "नोट: {names} स्टॉक में नहीं रहे और आपके ऑर्डर से हटा दिए गए।"
    ∷ entry "payment_coming_next"
        "Payment integration coming next — we'll follow up with a payment link shortly."
        "भुगतान की सुविधा जल्द जुड़ेगी — हम शीघ्र ही भुगतान लिंक भेजेंगे।"
    ∷ entry "payment_link_failed"
        "We couldn't generate a payment link right now — we'll follow up shortly."
        "हम अभी भुगतान लिंक नहीं बना सके — हम जल्द ही संपर्क करेंगे।"
    ∷ entry "pay_here" "Pay here to confirm your order: {url}"
        "अपना ऑर्डर पक्का करने के लिए यहां भुगतान करें: {url}"
    ∷ entry "native_order_unavailable"
        "Sorry, we couldn't process your order — none of the items are available right now."
        "क्षमा करें, हम आपका ऑर्डर पूरा नहीं कर सके — फ़िलहाल कोई भी उत्पाद उपलब्ध नहीं है।"
    ∷ entry "payment_received" "Payment received! Your order #{id} is confirmed."
        "भुगतान प्राप्त हुआ! आपका ऑर्डर #{id} पक्का हो गया है।"
    ∷ entry "payment_failed_retry"
        "Your payment for order #{id} didn't go through. You can try again here: {url}"
        "आपके ऑर्डर #{id} का भुगतान सफल नहीं हुआ। आप यहां फिर से प्रयास कर सकते हैं: {url}"
    ∷ entry "payment_failed_no_link"
        "Your payment for order #{id} didn't go through. Please contact us to complete your order."
        "आपके ऑर्डर #{id} का भुगतान सफल नहीं हुआ। कृपया अपना ऑर्डर पूरा करने के लिए हमसे संपर्क करें।"
    ∷ entry "payment_problem_no_gateway"
        "There was a problem with payment for order #{id}. Please contact us to complete your order."
        "आपके ऑर्डर #{id} के भुगतान में समस्या हुई। कृपया अपना ऑर्डर पूरा करने के लिए हमसे संपर्क करें।"
    ∷ entry "payment_link_retry_failed"
        "There was a problem generating a new payment link for order #{id}. Please contact us to complete your order."
        "ऑर्डर #{id} के लिए नया भुगतान लिंक बनाने में समस्या हुई। कृपया हमसे संपर्क करें।"
    ∷ entry "payment_link_expired_new"
        "Your payment link for order #{id} expired. Here's a new one: {url}"
        "आपके ऑर्डर #{id} का भुगतान लिंक समाप्त हो गया। यह रहा नया लिंक: {url}"
    ∷ entry "audio_not_supported"
        "I couldn't process your audio. Could you send it as text instead?"
        "मैं आपका ऑडियो संसाधित नहीं कर सका। कृपया इसे टेक्स्ट के रूप में भेजें।"
    ∷ entry "nudge_with_link"
        "You still have an order waiting — order #{id}. Complete your payment here to confirm it: {url}"
        "आपका एक ऑर्डर अभी भी लंबित है — ऑर्डर #{id}। इसे पक्का करने के लिए यहां भुगतान करें: {url}"
    ∷ entry "nudge_without_link"
        "You still have an order waiting — order #{id}. Send us a message to complete your checkout."
        "आपका एक ऑर्डर अभी भी लंबित है — ऑर्डर #{id}। अपना चेकआउट पूरा करने के लिए हमें संदेश भेजें।"
    ∷ entry "order_fulfilled" "Good news! Your order #{id} has been fulfilled and is on its way."
        "अच्छी खबर! आपका ऑर्डर #{id} पूरा हो गया है और जल्द ही आप तक पहुंच जाएगा।"
    ∷ entry "ask_customer_name" "What name should we use for this order?"
        "इस ऑर्डर के लिए हम किस नाम का उपयोग करें?"
    ∷ []

unfoldable pub coupon_texts : List Entry
coupon_texts =
    entry "apply_coupon_button" "Apply Coupon" "कूपन लगाएं"
    ∷ entry "ask_coupon_code" "Please enter your coupon code." "कृपया अपना कूपन कोड दर्ज करें।"
    ∷ entry "coupon_error_not_found" "\"{code}\" isn't a valid coupon code."
        "\"{code}\" एक मान्य कूपन कोड नहीं है।"
    ∷ entry "coupon_error_inactive" "\"{code}\" is no longer active."
        "\"{code}\" अब सक्रिय नहीं है।"
    ∷ entry "coupon_error_expired" "\"{code}\" has expired." "\"{code}\" की अवधि समाप्त हो गई है।"
    ∷ entry "coupon_discount_label" "Discount ({code}): -{amount}" "छूट ({code}): -{amount}"
    ∷ entry "offers_list_header" "Here are our current offers — apply one at checkout:"
        "यहां हमारे मौजूदा ऑफ़र हैं — चेकआउट पर लागू करें:"
    ∷ entry "offers_percentage_line" "{code} — {value}% off" "{code} — {value}% छूट"
    ∷ entry "offers_flat_line" "{code} — {value} off" "{code} — {value} छूट"
    ∷ entry "no_offers_available" "We don't have any active offers right now — check back soon!"
        "फ़िलहाल हमारे पास कोई सक्रिय ऑफ़र नहीं है — जल्द ही फिर देखें!"
    ∷ []
