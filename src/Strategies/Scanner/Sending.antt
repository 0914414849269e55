-- ===== src/Strategies/Scanner/Sending.antt =====
-- strategy_scanner.py: what `_send_with_at_all_fallback` may have done.
use china_a_share.Prelude.{
  ◌≡◌, refl, ◌⊎◌, inl, inr, Bool, not, ◌&&◌, Option, none, some, List, [], ◌∷◌, ◌++◌, length,
  Result, ok,
}
use china_a_share.Strategies.Store.{Notification, notification_eq, is_marked}
use china_a_share.Strategies.Scanner.{
  World, Card, Delivery, Chat, SendError, at_all_denied, other_error, accept, send_chat_card,
  sent_or_raised, fallback, retried, send_with_at_all_fallback,
}

-- A card of a scan, not of a preview, that has the notification.
abbrev pub announces : Notification → Delivery → Bool
announces n d = not d.card.preview && is_marked n d.card.notices

-- The card lists the first of what it is built from and counts the rest, and there is a rest only
-- after thirty.
abbrev pub IsFull : Card → Type 0
IsFull card =
    (rest : List Notification) × (card.notices ≡ card.listed ++ rest)
    × (length rest ≡ card.further)
    × ((rest ≡ []) ⊎ (length card.listed ≡ 30))

-- Either the card, or the one that mentions nobody, has gone out, or nothing has changed.
unfoldable pub IsSending : Delivery → World → Result (Unit {0}) × World → Type 0
IsSending d w r =
    ((e : Delivery) × ((n : Notification) → announces n e ≡ announces n d)
      × (IsFull d.card → IsFull e.card)
      × (r ≡ (ok tt, record w { delivered = e ∷ w.delivered })))
    ⊎ (r.1 ≡ w) × ((u : _) → ¬ (r.0 ≡ ok u))

sent_or_raised-IsSending :
    (v : Option SendError) (d : Delivery) (w : World)
    → IsSending d w (sent_or_raised (accept v (fallback d) w))
unfolding IsSending
sent_or_raised-IsSending none d w = inl (fallback d, λ n. refl, λ full. full, refl)
sent_or_raised-IsSending (some e) d w = inr (refl, λ u h. cc)

retried-IsSending :
    (chat : Chat) (v : Option SendError) (d : Delivery) (w : World)
    → IsSending d w (retried chat d (accept v d w))
unfolding IsSending retried send_chat_card
retried-IsSending chat none d w = inl (d, λ n. refl, λ full. full, refl)
retried-IsSending chat (some other_error) d w = inr (refl, λ u h. cc)
retried-IsSending chat (some at_all_denied) d w =
    sent_or_raised-IsSending (chat w.delivered (fallback d)) d w

pub send_with_at_all_fallback-IsSending :
    (chat : Chat) (d : Delivery) (w : World) → IsSending d w (send_with_at_all_fallback chat d w)
unfolding send_with_at_all_fallback send_chat_card
send_with_at_all_fallback-IsSending chat d w = retried-IsSending chat (chat w.delivered d) d w
