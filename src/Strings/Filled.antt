-- ===== src/Strings/Filled.antt =====
-- core/strings.py: which calls of `t` give a text and raise nothing.
use Prim.Native.Char.{Char, code}
use whatsapp_commerce_bot.Base.{
  arith, ◌≡◌, refl, ◌∙◌, String, Bool, true, false, ◌&&◌, ◌||◌, Option, none, some, List, [], ◌∷◌,
  map, str_eq, ◌==◌, is_empty, is_some, if◌then◌else◌,
}
use whatsapp_commerce_bot.Db.{Lang, en, hi}
use whatsapp_commerce_bot.Strings.Table.{Entry}
use whatsapp_commerce_bot.Strings.{
  get_entry, template, argument, put_text, put_char, write_place, next_place, fill, formatted, t,
}

-- A template has a text for every field that it names, given the names of the arguments.
unfoldable pub fits : List String → String → Bool
unfolding fill
fits names s = is_empty names || is_some (fill (map (λ n. (n, "")) names) none s)

unfoldable pub known_in : List String → String → Option Entry → Bool
unfolding fits template
known_in names key none = false
known_in names key (some e) = fits names (template e en key) && fits names (template e hi key)

-- The key is in the table, and both of its templates fit the arguments.
unfoldable pub known : String → List String → Bool
unfolding get_entry known_in
known key names = known_in names key (get_entry key)

put_char-is_some : (c : Char) (o : Option String) → is_some (put_char c o) ≡ is_some o
put_char-is_some c none = refl
put_char-is_some c (some s) = refl

put_text-is_some : (a o : Option String) → is_some (put_text a o) ≡ is_some a && is_some o
put_text-is_some none o = refl
put_text-is_some (some v) none = refl
put_text-is_some (some v) (some s) = refl

-- What writing a place comes to, whatever the texts are.
write_place-is_some :
    (args args' : List (String × String)) (c : Char) (place : Option String) (r r' : Option String)
    → ((name : String) → is_some (argument name args) ≡ is_some (argument name args'))
    → is_some r ≡ is_some r'
    → is_some (write_place args c place r) ≡ is_some (write_place args' c place r')
write_place-is_some args args' c none r r' same e = outside (code c == 123)
  where
    outside :
        (b : Bool)
        → is_some (if b then r else put_char c r) ≡ is_some (if b then r' else put_char c r')
    outside true = e
    outside false = rw (put_char-is_some c r, put_char-is_some c r') e
write_place-is_some args args' c (some name) r r' same e = inside (code c == 125)
  where
    inside :
        (b : Bool)
        → is_some (if b then put_text (argument name args) r else r)
          ≡ is_some (if b then put_text (argument name args') r' else r')
    inside true =
        rw
          (
            put_text-is_some (argument name args) r,
            put_text-is_some (argument name args') r',
            same name,
            e,
          )
          refl
    inside false = e

fill-is_some :
    (args args' : List (String × String)) (place : Option String) (s : String)
    → ((name : String) → is_some (argument name args) ≡ is_some (argument name args'))
    → is_some (fill args place s) ≡ is_some (fill args' place s)
unfolding fill
fill-is_some args args' place String.[] same = refl
fill-is_some args args' place (String.◌∷◌ c s) same =
    write_place-is_some args args' c place (fill args (next_place c place) s)
      (fill args' (next_place c place) s) same (fill-is_some args args' (next_place c place) s same)

module _ {A : Type 0} (write : A → String) where
  abbrev pub written : List (String × A) → List (String × String)
  written args = map (λ (a : String × A). (a.0, write a.1)) args

  abbrev pub named : List (String × A) → List (String × String)
  named args = map (λ n. (n, "")) (map (λ (a : String × A). a.0) args)

  argument-named :
      (name : String) (args : List (String × A))
      → is_some (argument name (written args)) ≡ is_some (argument name (named args))
  unfolding argument
  argument-named name [] = refl
  argument-named name ((k, a) ∷ args) = by_key (str_eq k name) (argument-named name args)
    where
      by_key :
          (b : Bool)
          → is_some (argument name (written args)) ≡ is_some (argument name (named args))
          → is_some (if b then some (write a) else argument name (written args))
            ≡ is_some (if b then some "" else argument name (named args))
      by_key true e = refl
      by_key false e = e

  formatted-is_some :
      (args : List (String × A)) (s : String)
      → fits (map (λ (a : String × A). a.0) args) s ≡ true
      → is_some (formatted (written args) s) ≡ true
  unfolding fits
  formatted-is_some [] s e = refl
  formatted-is_some (a ∷ args) s e =
      fill-is_some (written (a ∷ args)) (named (a ∷ args)) none s
        (λ name. argument-named name (a ∷ args))
      ∙ e

  -- A known call of `t` gives a text, in either language and whatever its arguments are.
  pub known-t :
      (key : String) (lang : Lang) (args : List (String × A))
      → known key (map (λ (a : String × A). a.0) args) ≡ true
      → is_some (t key lang (written args)) ≡ true
  unfolding known known_in t
  known-t key lang args = found (get_entry key)
    where
      found :
          (o : Option Entry)
          → known_in (map (λ (a : String × A). a.0) args) key o ≡ true
          → is_some
              (elim o [ none ↦ some key | some e ↦ formatted (written args) (template e lang key) ])
            ≡ true
      found none e = refl
      found (some x) e = formatted-is_some args (template x lang key) (in_lang lang)
        where
          in_lang : (l : Lang) → fits (map (λ (a : String × A). a.0) args) (template x l key) ≡ true
          in_lang en = ground (arith, e)
          in_lang hi = ground (arith, e)

-- Its key is in the table.
pub known-get_entry :
    (key : String) (names : List String) → known key names ≡ true → is_some (get_entry key) ≡ true
unfolding known known_in
known-get_entry key names = found (get_entry key)
  where
    found : (o : Option Entry) → known_in names key o ≡ true → is_some o ≡ true
    found none e = e
    found (some x) e = refl
