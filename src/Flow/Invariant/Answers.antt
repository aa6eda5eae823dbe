-- ===== src/Flow/Invariant/Answers.antt =====
-- To whom a turn of `handle_incoming` of core/commerce_flow.py posts.
use whatsapp_commerce_bot.Base.{ℕ, ◌≡◌, String, List, ◌++◌, All}
use whatsapp_commerce_bot.Message.{Sent}
use whatsapp_commerce_bot.Phone.{normalize_phone}
use whatsapp_commerce_bot.World.{Env, World}
use whatsapp_commerce_bot.Flow.Invariant.Parts.{IsWritten}

module _ (env : Env) (phone : String) (t : ℕ) where
  -- The new messages are in front of the old ones.
  abbrev pub AddressedFrom : List Sent → World → Type 0
  AddressedFrom old w =
      (new : List Sent) × (w.sent ≡ new ++ old)
      × All (λ m. (m.to ≡ normalize_phone phone) × IsWritten m.message) new
