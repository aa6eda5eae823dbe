-- ===== src/Db/Customers.antt =====
-- db/repository.py, the customers: a name on file for each tenant and phone number.
use whatsapp_commerce_bot.Base.{
  ℕ, String, Bool, false, ◌&&◌, ◌||◌, Option, List, [], ◌∷◌, ◌++◌, map, ◌==◌, str_eq, is_empty,
  select, if◌then◌else◌,
}
use whatsapp_commerce_bot.Base.Table.{select_one, any_row, update_where}
use whatsapp_commerce_bot.Db.{Database, Customer}

abbrev pub is_customer : ℕ → String → Customer → Bool
is_customer tenant_id phone c = (c.tenant_id == tenant_id) && str_eq c.phone phone

unfoldable pub get_customer : ℕ → String → Database → Option Customer
get_customer tenant_id phone d = select_one (is_customer tenant_id phone) d.customers

-- `INSERT … ON CONFLICT (tenant_id, phone) DO UPDATE`; `created_at` has `now()` as its default.
unfoldable pub set_customer_name : ℕ → String → String → ℕ → Database → Option Customer × Database
set_customer_name tenant_id phone name now d =
    let update = λ (c : Customer). record c { name = name; updated_at = now } in
    let new : Customer = record {
      tenant_id = tenant_id;
      phone = phone;
      name = name;
      created_at = now;
      updated_at = now;
    } in
    let d' = record d {
      customers =
          if any_row (is_customer tenant_id phone) d.customers
          then update_where (is_customer tenant_id phone) update d.customers
          else d.customers ++ new ∷ [];
    } in
    (get_customer tenant_id phone d', d')

unfoldable pub is_one_of : List String → String → Bool
is_one_of [] s = false
is_one_of (t ∷ ts) s = str_eq s t || is_one_of ts s

-- The dict's pairs.
unfoldable pub get_customer_names : ℕ → List String → Database → List (String × String)
unfolding is_one_of
get_customer_names tenant_id phones d =
    if is_empty phones
    then []
    else map (λ c. (c.phone, c.name))
        (select (λ c. (c.tenant_id == tenant_id) && is_one_of phones c.phone) d.customers)
