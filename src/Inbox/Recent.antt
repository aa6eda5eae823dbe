-- ===== src/Inbox/Recent.antt =====
-- The history of a chat, in `InMemoryHistory` of core/history.py.
use whatsapp_commerce_bot.Base.{
  ◌-◌, ◌≤◌, ◌≡◌, refl, sym, String, true, false, if◌then◌else◌, drop, [], ◌∷◌, ◌++◌, length, take,
  length-drop, take-append-drop, Bool-cases, inl, inr, arith, ltb,
}
use whatsapp_commerce_bot.Inbox.{Chat, max_messages, add_message}

-- After a message is added, a history has at most MAX_MESSAGES messages, whatever it had before: all of
-- what it had with the new message behind, where these are no more, and else exactly the last
-- MAX_MESSAGES of them.
pub add_message-recent :
    (chat : Chat) (role content : String)
    → (length (add_message chat role content) ≤ max_messages)
      × (length (add_message chat role content) ≡ (
          if ltb max_messages (length (chat ++ (role, content) ∷ []))
          then max_messages
          else length (chat ++ (role, content) ∷ [])))
      × ((old : Chat) × (chat ++ (role, content) ∷ [] ≡ old ++ add_message chat role content))
unfolding add_message
add_message-recent chat role content = elim (Bool-cases (ltb max_messages (length longer))) [
  | inl more ↦ rw more (
    omega (arith, length-drop (length longer - max_messages) longer),
    dropped more,
    (
      take (length longer - max_messages) longer,
      sym (take-append-drop (length longer - max_messages) longer),
    ),
  )
  | inr few ↦ rw few (at_most few, refl, ([], refl))
]
  where
    longer : Chat
    longer = chat ++ (role, content) ∷ []

    dropped :
        ltb max_messages (length longer) ≡ true
        → length (drop (length longer - max_messages) longer) ≡ max_messages
    dropped more = ground (arith, length-drop (length longer - max_messages) longer)

    at_most : ltb max_messages (length longer) ≡ false → length longer ≤ max_messages
    at_most few = ground arith
