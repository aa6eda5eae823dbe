-- ===== src/Portal/Products/Outcome.antt =====
-- What the product form of portal/products.py does with what a merchant enters.
use whatsapp_commerce_bot.Base.{
  subst, ℕ, ◌≡◌, ◌≢◌, refl, sym, ap, ◌∙◌, ◌⊎◌, inl, inr, String, Bool, true, false, Option, none,
  some, List, [], ◌∷◌, ◌++◌, arith, Option-cases, Bool-cases,
}
use whatsapp_commerce_bot.Base.Int.{ℤ, pos}
use whatsapp_commerce_bot.Base.Decimal.{Decimal, decimal_of, lt_zero}
use whatsapp_commerce_bot.Base.Numeral.{int}
use whatsapp_commerce_bot.Db.{Database, Product}
use whatsapp_commerce_bot.Db.Products.{ProductFields}
use whatsapp_commerce_bot.World.{World, pure, call, ◌>>=◌, ◌>>◌, on_some}
use whatsapp_commerce_bot.Portal.{
  Answer, redirect, refused, crashed, or_null, FormError, name_required, bad_price, bad_stock,
}
use whatsapp_commerce_bot.Portal.Guard.{Host, fits_integer}
use whatsapp_commerce_bot.Portal.Products.{
  ProductForm, is_blank, at_least_zero, checked_price, read_price, read_stock, error_if, is_none,
  product_form_errors, columns, product_columns, submit_product,
}

-- The form is in order, and says this price and this stock: there is a name, the price is a number
-- that is not below zero, and the stock is a whole number, 0 where it is left blank.
pub record Says (v : ProductForm) (price : Decimal) (stock : ℤ) : Type 0 where
  pub name : v.name ≢ ""
  pub price_read : decimal_of v.price ≡ some price
  pub price_sign : lt_zero price ≡ some false
  pub stock_read :
      ((v.stock_quantity ≡ "") × (stock ≡ pos 0))
      ⊎ ((v.stock_quantity ≢ "") × (int v.stock_quantity ≡ some stock))

-- The columns that the form writes.
abbrev pub written : ProductForm → ℕ → ℤ → ProductFields
written v paise stock = record {
  name = v.name;
  price = paise;
  description = or_null v.description;
  image_url = or_null v.image_url;
  sku = or_null v.sku;
  stock_quantity = stock;
  category = or_null v.category;
}

module _ (host : Host) (v : ProductForm)
    (write : ProductFields → Database → Option Product × Database) (w : World) where
  -- A form in order is written, or the server refuses it and nothing changes; another is shown again
  -- with its errors, and nothing changes.
  pub data Outcome : Answer × World → Type 0 where
    stored :
        (price : Decimal) (stock : ℤ) (paise : ℕ)
        → Says v price stock
        → host.numeric price ≡ some paise
        → fits_integer stock ≡ true
        → Outcome
            (redirect "/portal/products", record w { db = (write (written v paise stock) w.db).1 })
    out_of_range :
        (price : Decimal) (stock : ℤ)
        → Says v price stock
        → (host.numeric price ≡ none) ⊎ (fits_integer stock ≡ false)
        → Outcome (crashed, w)
    shown_again :
        (errors : List FormError)
        → errors ≢ []
        → ((price : Decimal) (stock : ℤ) → ¬ Says v price stock)
        → Outcome (refused errors, w)

blank : (s : String) → is_blank s ≡ true → s ≡ ""
blank String.[] h = refl
blank (String.◌∷◌ c s) h = cc

not_blank : (s : String) → is_blank s ≡ false → s ≢ ""
not_blank String.[] h e = cc
not_blank (String.◌∷◌ c s) h e = cc

blank_again : (s : String) → s ≡ "" → is_blank s ≡ true
blank_again String.[] e = refl
blank_again (String.◌∷◌ c s) e = cc

at_least_zero-some :
    (d : Decimal) (b : Option Bool) {price : Decimal}
    → at_least_zero d b ≡ some price
    → (d ≡ price) × (b ≡ some false)
at_least_zero-some d (some false) e = (ground arith, refl)
at_least_zero-some d (some true) e = cc
at_least_zero-some d none e = cc

checked_price-some :
    (o : Option Decimal) (price : Decimal)
    → checked_price o ≡ some price
    → (o ≡ some price) × (lt_zero price ≡ some false)
checked_price-some none price e = cc
checked_price-some (some d) price e =
    let (same, sign) = at_least_zero-some d (lt_zero d) e in
    (ap some same, sym (ap lt_zero same) ∙ sign)

read_price-some :
    (s : String) (price : Decimal)
    → read_price s ≡ some price
    → (decimal_of s ≡ some price) × (lt_zero price ≡ some false)
unfolding read_price
read_price-some s price e = checked_price-some (decimal_of s) price e

read_price-of :
    (s : String) (price : Decimal)
    → decimal_of s ≡ some price
    → lt_zero price ≡ some false
    → read_price s ≡ some price
unfolding read_price
read_price-of s price e n = rw e (rw n refl)

read_stock-some :
    (s : String) (stock : ℤ)
    → read_stock s ≡ some stock
    → ((s ≡ "") × (stock ≡ pos 0)) ⊎ ((s ≢ "") × (int s ≡ some stock))
unfolding read_stock
read_stock-some s stock e = elim (Bool-cases (is_blank s)) [
  | inl b ↦ inl (blank s b, ground arith)
  | inr b ↦ inr (not_blank s b, ground arith)
]

read_stock-of :
    (s : String) (stock : ℤ)
    → ((s ≡ "") × (stock ≡ pos 0)) ⊎ ((s ≢ "") × (int s ≡ some stock))
    → read_stock s ≡ some stock
unfolding read_stock
read_stock-of s stock (inl (e, z)) = rw (blank_again s e) (ap some (sym z))
read_stock-of s stock (inr (ne, e)) = elim (Bool-cases (is_blank s)) [
  | inl b ↦ absurd (ne (blank s b))
  | inr b ↦ rw b e
]

module _ (host : Host) (v : ProductForm)
    (write : ProductFields → Database → Option Product × Database) (w : World) where
  refused_with :
      (e : FormError) (es : List FormError)
      → product_form_errors v ≡ e ∷ es
      → submit_product host v write w ≡ (refused (e ∷ es), w)
  unfolding submit_product pure
  refused_with e es h = rw h refl

  shown :
      (e : FormError) (es : List FormError)
      → product_form_errors v ≡ e ∷ es
      → ((price : Decimal) (stock : ℤ) → ¬ Says v price stock)
      → Outcome host v write w (submit_product host v write w)
  shown e es h wrong =
      subst (Outcome host v write w) (sym (refused_with e es h))
        (shown_again (e ∷ es) (λ n. cc) wrong)

  nameless : is_blank v.name ≡ true → Outcome host v write w (submit_product host v write w)
  unfolding product_form_errors
  nameless h =
      shown name_required
        (error_if (is_none (read_price v.price)) bad_price
          ++ error_if (is_none (read_stock v.stock_quantity)) bad_stock)
        (rw h refl) (λ price stock says. says.name (blank v.name h))

  priceless :
      is_blank v.name ≡ false
      → read_price v.price ≡ none
      → Outcome host v write w (submit_product host v write w)
  unfolding product_form_errors
  priceless n h =
      shown bad_price (error_if (is_none (read_stock v.stock_quantity)) bad_stock)
        (rw n (rw h refl))
        (λ price stock says.
          let e : none ≡ some price =
            sym h ∙ read_price-of v.price price says.price_read says.price_sign in
          cc)

  stockless :
      (price : Decimal)
      → is_blank v.name ≡ false
      → read_price v.price ≡ some price
      → read_stock v.stock_quantity ≡ none
      → Outcome host v write w (submit_product host v write w)
  unfolding product_form_errors
  stockless price n p h = shown bad_stock [] (rw n (rw p (rw h refl))) (λ other stock says.
      let e : none ≡ some stock = sym h ∙ read_stock-of v.stock_quantity stock says.stock_read in
      cc)

  in_order :
      (price : Decimal) (stock : ℤ)
      → is_blank v.name ≡ false
      → read_price v.price ≡ some price
      → read_stock v.stock_quantity ≡ some stock
      → Says v price stock
  in_order price stock n p s =
      let (price_read, price_sign) = read_price-some v.price price p in
      record {
        name = not_blank v.name n;
        price_read = price_read;
        price_sign = price_sign;
        stock_read = read_stock-some v.stock_quantity stock s;
      }

  sent_on :
      (price : Decimal) (stock : ℤ)
      → is_blank v.name ≡ false
      → read_price v.price ≡ some price
      → read_stock v.stock_quantity ≡ some stock
      → submit_product host v write w
        ≡ on_some
            (columns v (host.numeric price) stock)
            (pure crashed)
            (λ f. call (write f) >> pure (redirect "/portal/products"))
            w
  unfolding submit_product product_form_errors product_columns
  sent_on price stock n p s = rw n (rw p (rw s refl))

  in_range :
      (price : Decimal) (stock : ℤ) (kept : Option ℕ)
      → Says v price stock
      → host.numeric price ≡ kept
      → Outcome host v write w (
          on_some
            (columns v kept stock)
            (pure crashed)
            (λ f. call (write f) >> pure (redirect "/portal/products"))
            w)
  unfolding on_some pure call ◌>>=◌
  in_range price stock none says k = out_of_range price stock says (inl k)
  in_range price stock (some paise) says k = elim (Bool-cases (fits_integer stock)) [
    | inl fits ↦ rw fits (stored price stock paise says k fits)
    | inr beyond ↦ rw beyond (out_of_range price stock says (inr beyond))
  ]

  -- What becomes of the form is what it should be.
  pub submit_product-Outcome : Outcome host v write w (submit_product host v write w)
  submit_product-Outcome = elim (Bool-cases (is_blank v.name)) [
    | inl n ↦ nameless n
    | inr n ↦ elim (Option-cases (read_price v.price)) [
      | inl p ↦ priceless n p
      | inr (price, p) ↦ elim (Option-cases (read_stock v.stock_quantity)) [
        | inl s ↦ stockless price n p s
        | inr (stock, s) ↦
            subst (Outcome host v write w) (sym (sent_on price stock n p s))
              (in_range price stock (host.numeric price) (in_order price stock n p s) refl)
      ]
    ]
  ]
