-- ===== src/Flow/Invariant/Adds.antt =====
-- A tap on "add to cart", in `_handle_product_detail` of core/commerce_flow.py.
use whatsapp_commerce_bot.Base.{
  ℕ, suc, ◌≡◌, refl, sym, subst, ◌∙◌, ◌⊎◌, inl, inr, String, true, false, some, ◌==◌, arith,
  Bool-cases, if◌then◌else◌,
}
use whatsapp_commerce_bot.Base.Int.{pos, ltb_ℤ, leb_ℤ}
use whatsapp_commerce_bot.Db.{Product}
use whatsapp_commerce_bot.Db.Products.{get_product}
use whatsapp_commerce_bot.Db.Checkout.{Cart}
use whatsapp_commerce_bot.Message.{Message, interactive_reply}
use whatsapp_commerce_bot.Sessions.{product_detail, post_add, Context, Session}
use whatsapp_commerce_bot.World.{Env, World, query, send, ◌>>=◌}
use whatsapp_commerce_bot.World.Keeps.{Keeps, keeps_rules, on_some-found, if-taken}
use whatsapp_commerce_bot.Flow.Rows.{quantity_in, put_in}
use whatsapp_commerce_bot.Flow.Rows.Laws.{quantity_in-put_in}
use whatsapp_commerce_bot.Flow.Shop.{
  lang_of, cart_of, tapped, too_many, add, add_to_cart, handle_product_detail,
}
use whatsapp_commerce_bot.Flow.Invariant.Sends.{
  send_text-Keeps, send_product_detail-Keeps, send_add_to_cart_prompt-Keeps,
}
use whatsapp_commerce_bot.Strings.Filled.{known}
use whatsapp_commerce_bot.Flow.Invariant.Parts.{Renders, every, known_part}
use whatsapp_commerce_bot.Flow.Invariant.Own.{session_now, Reads, session-IsSafe, moved}

module _ (env : Env) (phone : String) (t : ℕ) (c : Context) (p : Product) where
  abbrev requested : ℕ
  requested = suc (quantity_in p.id (cart_of c))

  abbrev new_cart : Cart
  new_cart = put_in p.id requested (cart_of c)

  abbrev refused : Session
  refused = record { state = product_detail; context = c }

  abbrev added : Session
  added = record { state = post_add; context = record c { cart = some new_cart } }

  too_many-session : (w : World) → Reads env phone t refused (too_many env phone t c p w).1
  unfolding too_many every known_part known
  too_many-session w = moved env phone t product_detail c _ w (
      search
        (keeps_rules, send_text-Keeps env phone sends, send_product_detail-Keeps env phone sends)
        depth 10)
    where
      sends : (m : Message) → Renders m → Keeps (Reads env phone t refused) (send env phone m)
      sends = (session-IsSafe env phone t refused).sends

  add-session : (w : World) → Reads env phone t added (add env phone t c p requested w).1
  unfolding add
  add-session w =
      moved env phone t post_add (record c { cart = some new_cart }) _ w
        (send_add_to_cart_prompt-Keeps env phone (session-IsSafe env phone t added).sends p.name
          new_cart t (lang_of c))

  -- What the tap does to the conversation.
  abbrev pub Added : Session → Type 0
  Added s =
      ((ltb_ℤ p.stock_quantity (pos requested) ≡ true) × (s ≡ refused))
      ⊎ ((leb_ℤ (pos requested) p.stock_quantity ≡ true)
          × (s ≡ added)
          × ((k : ℕ)
              → quantity_in k new_cart
                ≡ (if p.id == k then requested else quantity_in k (cart_of c))))

  in_stock :
      ltb_ℤ p.stock_quantity (pos requested) ≡ false → leb_ℤ (pos requested) p.stock_quantity ≡ true
  in_stock h = ground arith

  add_to_cart-Added :
      (w : World) → Added (session_now env phone t (add_to_cart env phone t c p w).1)
  unfolding add_to_cart
  add_to_cart-Added w = elim (Bool-cases (ltb_ℤ p.stock_quantity (pos requested))) [
    | inl short ↦ inl (short, rw short (too_many-session w))
    | inr enough ↦ inr (
      in_stock enough,
      rw enough (add-session w),
      λ k. quantity_in-put_in k p.id requested (cart_of c),
    )
  ]

  -- A tap on "add to cart", for a product that is active: if one more than the cart has of it is in
  -- stock, the session goes on with a cart that has one more of it and is else the same; if not, the
  -- session stays at the product, with the same cart.
  pub handle_product_detail-Added :
      (i : ℕ) (title : String) (w : World)
      → c.product_id ≡ some i
      → get_product t i w.db ≡ some p
      → p.is_active ≡ true
      → Added (
          session_now env phone t
            (handle_product_detail env phone t c (interactive_reply "add_to_cart" title) w).1)
  unfolding handle_product_detail query ◌>>=◌
  handle_product_detail-Added i title w at found active =
      subst (λ r. Added (session_now env phone t r.1))
        (sym (
          on_some-found c.product_id _ _ i w at
          ∙ on_some-found (tapped (interactive_reply "add_to_cart" title)) _ _ "add_to_cart" w refl
          ∙ on_some-found (get_product t i w.db) _ _ p w found
          ∙ if-taken p.is_active _ _ w active))
        (add_to_cart-Added w)
