-- ===== src/Sessions/Stream/Open.antt =====
-- Which connections of the stream of ui/src/hooks/useSessions.ts are open.
use codespace_operator.Prelude.{
  ℕ, ◌<◌, ◌≡◌, refl, false, Option, none, some, List, [], ◌∷◌, arith, inl, inr, ◌⊎◌,
}
use codespace_operator.Sessions.Stream.{Page, close, is_open, cleaned_up}

-- No connection is open, or the one that the cleanup closes.
abbrev pub IsSingle : Page → Type 0
IsSingle s =
    (s.connected ≡ [])
    ⊎ ((id : ℕ) × (s.connected ≡ id ∷ []) × (s.cleanup ≡ some id) × (id < s.next))

pub close_nil : (o : Option ℕ) → close o [] ≡ []
unfolding close
close_nil none = refl
close_nil (some id) = refl

close_own : (id : ℕ) → close (some id) (id ∷ []) ≡ []
unfolding close
close_own id = ground arith

-- After the cleanup none is open.
pub cleaned_up-IsSingle : (s : Page) → IsSingle s → (cleaned_up s).connected ≡ []
unfolding cleaned_up
cleaned_up-IsSingle s (inl shut) = rw shut (close_nil s.cleanup)
cleaned_up-IsSingle s (inr (id, only, held, begun)) = rw (only, held) (close_own id)

pub is_open-close :
    (id : ℕ) (o : Option ℕ) (cs : List ℕ) → is_open id cs ≡ false → is_open id (close o cs) ≡ false
unfolding close is_open
is_open-close id none cs h = h
is_open-close id (some c) [] h = h
is_open-close id (some c) (d ∷ cs) h = ground (arith, is_open-close id (some c) cs, h)
