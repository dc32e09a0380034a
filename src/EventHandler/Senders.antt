-- ===== src/EventHandler/Senders.antt =====
-- agent/eventhandler/task_handler.go: the goroutines that send the events of one list.
use amazon_ecs_agent.Common.{
  ℕ, zero, suc, ◌+◌, ◌==◌, ◌≤◌, ◌≡◌, arith, Bool, true, false, not, ◌&&◌, if◌then◌else◌, String,
  some, List, [], ◌∷◌, string_key,
}
use amazon_ecs_agent.EventHandler.Handler.{Sender, started}
use amazon_ecs_agent.EventHandler.Steps.{sender_at, set_done, drop_sender}

-- The number of goroutines in their loops on the list at the address.
unfoldable pub active : ℕ → List Sender → ℕ
active a [] = 0
active a (x ∷ xs) = let rest = active a xs in if (x.list == a) && not x.done then suc rest else rest

abbrev pub one_if : Bool → ℕ
one_if true = 1
one_if false = 0

pub active-started :
    (starts : Bool) (a b : ℕ) (arn : String) (xs : List Sender)
    → active b (started starts a arn xs) ≡ active b xs + one_if (starts && (a == b))
unfolding active
active-started false a b arn xs = ground arith
active-started true a b arn [] = ground arith
active-started true a b arn (x ∷ xs) = ground (arith, active-started true a b arn xs)

pub active-set_done :
    (n b : ℕ) (d : Bool) (xs : List Sender) (x : Sender)
    → sender_at n xs ≡ some x
    → x.done ≡ false
    → active b (set_done n d xs) + one_if (d && (x.list == b)) ≡ active b xs
unfolding active
active-set_done n b d [] x h g = absurd (ground (arith, h))
active-set_done zero b d (y ∷ ys) x h g = ground (arith, h, g)
active-set_done (suc n) b d (y ∷ ys) x h g = ground (arith, active-set_done n b d ys x h g)

pub active-drop_sender :
    (n b : ℕ) (xs : List Sender) (x : Sender)
    → sender_at n xs ≡ some x
    → x.done ≡ true
    → active b (drop_sender n xs) ≡ active b xs
unfolding active
active-drop_sender n b [] x h g = absurd (ground (arith, h))
active-drop_sender zero b (y ∷ ys) x h g = ground (arith, h, g)
active-drop_sender (suc n) b (y ∷ ys) x h g = ground (arith, active-drop_sender n b ys x h g)

pub active-sender_at :
    (n : ℕ) (xs : List Sender) (x : Sender)
    → sender_at n xs ≡ some x
    → x.done ≡ false
    → 1 ≤ active x.list xs
unfolding active
active-sender_at n [] x h g = absurd (ground (arith, h))
active-sender_at zero (y ∷ ys) x h g = ground (arith, h, g)
active-sender_at (suc n) (y ∷ ys) x h g = ground (arith, active-sender_at n ys x h g)
