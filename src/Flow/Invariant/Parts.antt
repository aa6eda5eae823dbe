-- ===== src/Flow/Invariant/Parts.antt =====
-- The texts of core/strings.py that core/commerce_flow.py asks for.
use whatsapp_commerce_bot.Base.{
  ℕ, zero, suc, take, arith, ◌≡◌, refl, String, Bool, true, false, ◌&&◌, List, [], ◌∷◌, ◌++◌, map,
  is_some, if◌then◌else◌,
}
use whatsapp_commerce_bot.Message.{
  Arg, Part, say, raw, amount, line, label, newline, clip, Button, Row, Section, NativeSection,
  Message,
}
use whatsapp_commerce_bot.Strings.Filled.{known, written, known-t, known-get_entry}
use whatsapp_commerce_bot.Strings.{get_entry, t}

unfoldable pub every : {A : Type 0} → (A → Bool) → List A → Bool
every test [] = true
every test (x ∷ xs) = test x && every test xs

-- The call of `t` in a piece has a text.
unfoldable pub known_part : Part → Bool
known_part (say key lang args) = known key (map (λ (a : String × Arg). a.0) args)
known_part (raw s) = true
known_part (amount n) = true
known_part (line n s m) = true
known_part (label s lang) = true
known_part newline = true
known_part (clip n p) = known_part p

module _ (test : Part → Bool) where
  abbrev pub row_parts : Row → Bool
  row_parts r = test r.title && every test r.description

  abbrev pub section_parts : Section → Bool
  section_parts s = test s.title && every row_parts s.rows

  -- Of every piece of a message.
  unfoldable pub message_parts : Message → Bool
  unfolding every
  message_parts (Message.text ps) = every test ps
  message_parts (Message.buttons body image bs) =
      every test body && every (λ (b : Button). test b.title) bs
  message_parts (Message.list body button ss) = test body && (test button && every section_parts ss)
  message_parts (Message.product_list id ss body header) =
      test body && every (λ (s : NativeSection). test s.title) ss

module _ {A : Type 0} (test : A → Bool) where
  pub every-append :
      (xs ys : List A) → every test xs ≡ true → every test ys ≡ true → every test (xs ++ ys) ≡ true
  unfolding every
  every-append [] ys h k = k
  every-append (x ∷ xs) ys h k = ground (arith, every-append xs ys)

  pub every-if :
      (b : Bool) (xs ys : List A)
      → every test xs ≡ true
      → every test ys ≡ true
      → every test (if b then xs else ys) ≡ true
  every-if true xs ys h k = h
  every-if false xs ys h k = k

  pub every-take : (n : ℕ) (xs : List A) → every test xs ≡ true → every test (take n xs) ≡ true
  unfolding every
  every-take zero xs h = refl
  every-take (suc n) [] h = refl
  every-take (suc n) (x ∷ xs) h = ground (arith, every-take n xs)

  pub every-weaken :
      (test' : A → Bool)
      → ((x : A) → test x ≡ true → test' x ≡ true)
      → (xs : List A) → every test xs ≡ true
      → every test' xs ≡ true
  unfolding every
  every-weaken test' up [] h = refl
  every-weaken test' up (x ∷ xs) h = ground (arith, up x, every-weaken test' up xs)

pub every-map :
    {A B : Type 0} (test : B → Bool) (f : A → B)
    → ((x : A) → test (f x) ≡ true)
    → (xs : List A) → every test (map f xs) ≡ true
unfolding every
every-map test f up [] = refl
every-map test f up (x ∷ xs) = ground (arith, up x, every-map test f up xs)

module _ (test test' : Part → Bool) (up : (p : Part) → test p ≡ true → test' p ≡ true) where
  row_parts-weaken : (r : Row) → row_parts test r ≡ true → row_parts test' r ≡ true
  row_parts-weaken r h = ground (arith, up r.title, every-weaken test test' up r.description)

  section_parts-weaken : (s : Section) → section_parts test s ≡ true → section_parts test' s ≡ true
  section_parts-weaken s h =
      ground
        (arith, up s.title, every-weaken (row_parts test) (row_parts test') row_parts-weaken s.rows)

  pub message_parts-weaken :
      (m : Message) → message_parts test m ≡ true → message_parts test' m ≡ true
  unfolding message_parts
  message_parts-weaken (Message.text ps) h = every-weaken test test' up ps h
  message_parts-weaken (Message.buttons body image bs) h = ground (
    arith,
    every-weaken test test' up body,
    every-weaken (λ (b : Button). test b.title) (λ b. test' b.title) (λ b. up b.title) bs,
  )
  message_parts-weaken (Message.list body button ss) h = ground (
    arith,
    up body,
    up button,
    every-weaken (section_parts test) (section_parts test') section_parts-weaken ss,
  )
  message_parts-weaken (Message.product_list id ss body header) h = ground (
    arith,
    up body,
    every-weaken (λ (s : NativeSection). test s.title) (λ s. test' s.title) (λ s. up s.title) ss,
  )

-- The call of `t` in a piece has a key of the table and gives a text, with the arguments as `write`
-- writes them.
unfoldable pub written_part : (Arg → String) → Part → Bool
written_part write (say key lang args) =
    is_some (get_entry key) && is_some (t key lang (written write args))
written_part write (raw s) = true
written_part write (amount n) = true
written_part write (line n s m) = true
written_part write (label s lang) = true
written_part write newline = true
written_part write (clip n p) = written_part write p

known-written :
    (write : Arg → String) (p : Part) → known_part p ≡ true → written_part write p ≡ true
unfolding known_part written_part
known-written write (say key lang args) h =
    rw (known-get_entry key (map (λ (a : String × Arg). a.0) args) h, known-t write key lang args h)
      refl
known-written write (raw s) h = refl
known-written write (amount n) h = refl
known-written write (line n s m) h = refl
known-written write (label s lang) h = refl
known-written write newline h = refl
known-written write (clip n p) h = known-written write p h

-- No text of a message is missing, and none raises, whatever its arguments are written as.
abbrev pub IsWritten : Message → Type 0
IsWritten m = (write : Arg → String) → message_parts (written_part write) m ≡ true

abbrev pub Renders : Message → Type 0
Renders m = message_parts known_part m ≡ true

abbrev pub Known : List Part → Type 0
Known ps = every known_part ps ≡ true

pub Renders-IsWritten : (m : Message) → Renders m → IsWritten m
Renders-IsWritten m r write =
    message_parts-weaken known_part (written_part write) (known-written write) m r
