-- ===== src/Alerts.antt =====
-- ui/src/hooks/useAlerts.ts: the toasts. The random key of an alert is an argument.
use codespace_operator.Prelude.{
  ℕ, ◌≤◌, String, Bool, not, List, [], ◌∷◌, arith, ◌==◌, take, filter, length, length-take,
}

pub data Variant : Type 0 where
  success danger warning info : Variant

pub record Alert : Type 0 where
  pub key : String
  pub title : String
  pub variant : Variant

unfoldable pub push : ℕ → Alert → List Alert → List Alert
push max alert alerts = take max (alert ∷ alerts)

unfoldable pub close : String → List Alert → List Alert
close key alerts = filter (λ x. not (x.key == key)) alerts

pub data Change : Type 0 where
  pushed : Alert → Change
  closed : String → Change

unfoldable pub apply : ℕ → Change → List Alert → List Alert
apply max (pushed alert) alerts = push max alert alerts
apply max (closed key) alerts = close key alerts

unfoldable pub replay : ℕ → List Change → List Alert → List Alert
replay max [] alerts = alerts
replay max (c ∷ cs) alerts = replay max cs (apply max c alerts)

length-filter : (p : Alert → Bool) (xs : List Alert) → length (filter p xs) ≤ length xs
unfolding filter
length-filter p [] = omega arith
length-filter p (x ∷ xs) = ground (arith, length-filter p xs)

length-apply :
    (max : ℕ) (c : Change) (xs : List Alert) → length xs ≤ max → length (apply max c xs) ≤ max
unfolding apply push close
length-apply max (pushed a) xs h = length-take max (a ∷ xs)
length-apply max (closed k) xs h = omega (arith, length-filter (λ x. not (x.key == k)) xs)

-- Whatever is pushed and closed, there are never more alerts than the limit.
pub length-replay :
    (max : ℕ) (cs : List Change) (alerts : List Alert)
    → length alerts ≤ max
    → length (replay max cs alerts) ≤ max
unfolding replay
length-replay max [] alerts h = h
length-replay max (c ∷ cs) alerts h =
    length-replay max cs (apply max c alerts) (length-apply max c alerts h)
