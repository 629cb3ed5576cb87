-- ===== src/NotificationTransport/Fanout.antt =====
-- src/watcher/notification_transport.py: what all transports return.
use orchestrator_state_machi.Prelude.{
  List, [], ◌∷◌, ◌≡◌, refl, ok, ok_injective, >>=-eq-ok, ◌>>=◌, ◌↔◌, subst,
}
use orchestrator_state_machi.NotificationTransport.{
  NotificationMessage, TransportReceipt, Transport, send_all,
}

-- Each transport returned its receipt.
abbrev pub AllSent : NotificationMessage → List Transport → List TransportReceipt → Type 0
AllSent message [] [] = Unit
AllSent message [] (r ∷ rs) = ⊥
AllSent message (send ∷ ts) [] = ⊥
AllSent message (send ∷ ts) (r ∷ rs) = (send message ≡ ok r) × AllSent message ts rs

send_all-AllSent :
    (message : NotificationMessage) (ts : List Transport) (rs : List TransportReceipt)
    → send_all ts message ≡ ok rs
    → AllSent message ts rs
unfolding send_all
send_all-AllSent message [] rs h = subst (AllSent message []) (ok_injective h) tt
send_all-AllSent message (send ∷ ts) rs h =
    let (r, sent, h₁) =
      >>=-eq-ok (send message)
        (λ receipt. send_all ts message >>= λ receipts. ok (receipt ∷ receipts)) h in
    let (rest, others, h₂) = >>=-eq-ok (send_all ts message) (λ receipts. ok (r ∷ receipts)) h₁ in
    subst (AllSent message (send ∷ ts)) (ok_injective h₂)
      (sent, send_all-AllSent message ts rest others)

AllSent-send_all :
    (message : NotificationMessage) (ts : List Transport) (rs : List TransportReceipt)
    → AllSent message ts rs
    → send_all ts message ≡ ok rs
unfolding send_all
AllSent-send_all message [] [] h = refl
AllSent-send_all message [] (r ∷ rs) h = absurd h
AllSent-send_all message (send ∷ ts) [] h = absurd h
AllSent-send_all message (send ∷ ts) (r ∷ rs) (sent, others) =
    rw (sent, AllSent-send_all message ts rs others) refl

-- A message goes to all transports exactly when each of them returns a receipt, and the receipts are
-- those, in the order of the transports.
pub send_all_iff :
    (message : NotificationMessage) (ts : List Transport) (rs : List TransportReceipt)
    → (send_all ts message ≡ ok rs) ↔ AllSent message ts rs
send_all_iff message ts rs = (send_all-AllSent message ts rs, AllSent-send_all message ts rs)
