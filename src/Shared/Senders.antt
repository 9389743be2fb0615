-- ===== src/Shared/Senders.antt =====
-- The laws of the sender map.
use memable.Prelude.{ℕ, ◌≡◌, none, some, List, [], ◌∷◌, arith, if◌then◌else◌}
use memable.Text.{Text, text_eq, text_eq_iff}
use memable.Shared.{find_sender, remove_sender, insert_sender}

pub find-remove_sender :
    (k j : Text) (senders : List (Text × ℕ))
    → find_sender j (remove_sender k senders)
      ≡ (if text_eq k j then none else find_sender j senders)
unfolding find_sender remove_sender
find-remove_sender k j [] = ground arith
find-remove_sender k j ((i, tx) ∷ rest) =
    ground (arith, find-remove_sender k j rest, text_eq_iff i k, text_eq_iff i j, text_eq_iff k j)

pub find-insert_sender :
    (k j : Text) (tx : ℕ) (senders : List (Text × ℕ))
    → find_sender j (insert_sender k tx senders)
      ≡ (if text_eq k j then some tx else find_sender j senders)
unfolding find_sender insert_sender
find-insert_sender k j tx senders = ground (arith, find-remove_sender k j senders)
