-- ===== src/Flow/Invariant/Pages.antt =====
-- A tap on the row that leads on, in `_handle_shop_list` of core/commerce_flow.py.
use whatsapp_commerce_bot.Base.{
  sym, ℕ, ◌+◌, ◌≡◌, ◌++◌, refl, sym, ap, ◌∙◌, String, ◌⊎◌, subst, is_empty, truthy, Option, none,
  ◌∷◌, true, some, List, [], arith, drop, length, leb, if◌then◌else◌, Bool-cases, inl, inr,
}
use whatsapp_commerce_bot.Db.{Product, Tenant}
use whatsapp_commerce_bot.Db.Tenants.{get_tenant}
use whatsapp_commerce_bot.Db.Products.{get_active_products}
use whatsapp_commerce_bot.Message.{Message, say, interactive_reply}
use whatsapp_commerce_bot.Sessions.{shop_list, Context, Session}
use whatsapp_commerce_bot.World.{
  Env, World, Action, query, on_some, pure, send, addressed, set_session, skip, ◌>>=◌, ◌>>◌,
}
use whatsapp_commerce_bot.World.Keeps.{keeps_rules}
use whatsapp_commerce_bot.Flow.Pages.{
  has_more, page_products, list_page, send_list_page, send_products, send_product_list,
}
use whatsapp_commerce_bot.Flow.Pages.Flat.{length-flat_products}
use whatsapp_commerce_bot.Flow.Pages.Window.{shelf, page_products-covers}
use whatsapp_commerce_bot.Flow.Shop.{lang_of, offset_of, next_page, handle_shop_list}
use whatsapp_commerce_bot.Flow.Invariant.Own.{session_now, session-IsSafe, moved}
use whatsapp_commerce_bot.Flow.Invariant.Sends.{send_product_list-Keeps}

is_empty-nil : (ps : List Product) → is_empty ps ≡ true → ps ≡ []
is_empty-nil [] h = refl
is_empty-nil (p ∷ ps) h = cc

module _ (env : Env) (phone : String) (t : ℕ) (c : Context) where
  following : List Product → ℕ
  following products = if leb (length products) (offset_of c + 9) then 0 else offset_of c + 9

  abbrev shown : ℕ → Action (Unit {0})
  shown offset = do send_product_list env phone t offset (lang_of c); skip

  next_page-session :
      (w : World)
      → session_now env phone t (next_page env phone t c w).1 ≡ record {
        state = shop_list;
        context = record c { shop_offset = some (following (get_active_products t w.db)) };
      }
  unfolding next_page query ◌>>=◌ following
  next_page-session w =
      let s : Session = record {
        state = shop_list;
        context = record c { shop_offset = some (following (get_active_products t w.db)) };
      } in
      let offset = following (get_active_products t w.db) in
      moved env phone t shop_list s.context (shown offset) w (
        search (keeps_rules, send_product_list-Keeps env phone (session-IsSafe env phone t s).sends)
          depth 10)

  skip_none :
      (products : List Product)
      → has_more (offset_of c) (shelf products) ≡ true
      → following products ≡ offset_of c + 9
  unfolding has_more following
  skip_none products more = ground (arith, length-flat_products products)

  abbrev page_message : ℕ → List Product → Message
  page_message offset products =
      Message.list (say "browse_products_body" (lang_of c) [])
        (say "view_products_button" (lang_of c) []) (list_page offset (lang_of c) products)

  -- The list page at that offset is posted, unless there is no product or Meta's own catalog is shown.
  abbrev pub Posted : ℕ → World → World → Type 0
  Posted offset w w' =
      (get_active_products t w.db ≡ [])
      ⊎ ((tenant : Tenant) × (get_tenant t w.db ≡ some tenant)
          × (truthy tenant.meta_catalog_id ≡ true))
      ⊎ (w'.sent ≡ addressed env phone (page_message offset (get_active_products t w.db)) ∷ w.sent)

  products-Posted :
      (offset : ℕ) (w : World) (o : Option Tenant)
      → get_tenant t w.db ≡ o
      → Posted offset w
          (send_products env phone o offset (lang_of c) (get_active_products t w.db) w).1
  unfolding send_products send_list_page on_some send pure ◌>>=◌
  products-Posted offset w none e = inr (inr refl)
  products-Posted offset w (some tenant) e = elim (Bool-cases (truthy tenant.meta_catalog_id)) [
    | inl native ↦ inr (inl (tenant, e, native))
    | inr plain ↦ rw plain (inr (inr refl))
  ]

  list-Posted :
      (offset : ℕ) (w : World)
      → Posted offset w (send_product_list env phone t offset (lang_of c) w).1
  unfolding send_product_list query pure ◌>>=◌
  list-Posted offset w = elim (Bool-cases (is_empty (get_active_products t w.db))) [
    | inl nothing ↦ inl (is_empty-nil (get_active_products t w.db) nothing)
    | inr some_left ↦ rw some_left (products-Posted offset w (get_tenant t w.db) refl)
  ]

  next_page-Posted :
      (w : World) → Posted (following (get_active_products t w.db)) w (next_page env phone t c w).1
  unfolding next_page query set_session ◌>>=◌ following
  next_page-Posted w =
      list-Posted (following (get_active_products t w.db))
        (set_session env t phone shop_list
          (record c { shop_offset = some (following (get_active_products t w.db)) }) w).1

  -- Going from page to page shows every product once and in order: of the tenant's active products as
  -- they stand after grouping, what is left from the customer's offset on is the page at that offset
  -- and then, if there is more, what is left from the offset on that a tap on the row that leads on
  -- stores in the session, and the tap posts the list page at that offset, unless there is no product
  -- or the tenant has a catalog of Meta's.
  pub handle_shop_list-covers :
      (title : String) (w : World)
      → let flat = shelf (get_active_products t w.db) in
        let reply = interactive_reply "shop_more" title in
        let w' = (handle_shop_list env phone t c reply w).1 in
        let next = offset_of (session_now env phone t w').context in
        (drop (offset_of c) flat
          ≡ page_products (offset_of c) flat
            ++ (if has_more (offset_of c) flat then drop next flat else []))
        × Posted next w w'
  unfolding handle_shop_list on_some
  handle_shop_list-covers title w =
      let products = get_active_products t w.db in
      let page = page_products (offset_of c) (shelf products) in
      let stored = ap (λ (s : Session). offset_of s.context) (next_page-session w) in
      (
        page_products-covers (offset_of c) (shelf products)
            ∙ ap (λ rest. page ++ rest)
                (elim (Bool-cases (has_more (offset_of c) (shelf products))) [
                  | inl more ↦
                      rw more
                        (ap (λ n. drop n (shelf products)) (sym (stored ∙ skip_none products more)))
                  | inr last ↦ rw last refl
                ]),
        subst (λ n. Posted n w (next_page env phone t c w).1) (sym stored) (next_page-Posted w),
      )
