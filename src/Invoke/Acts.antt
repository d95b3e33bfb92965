-- ===== src/Invoke/Acts.antt =====
-- What the acts of a service open, close, hand over and how they exit.
use lambda_runtime_api_daemo.Base.{
  ◌≡◌, refl, ap, Bool, true, false, not, ◌&&◌, List, [], ◌∷◌, ◌++◌, arith, if◌then◌else◌, nat_eq,
  bytes_eq,
}
use lambda_runtime_api_daemo.Messaging.Message.{Message}
use lambda_runtime_api_daemo.Invoke.Service.{
  is_deferred, Stage, Act, opened, launched, failed, closed, exits, connects, begins_session,
  consumes, produces,
}

-- Connections and sessions have to be closed; a consumer and a producer go with their session.
abbrev pub needs_close : Stage → Bool
needs_close (connects name) = true
needs_close (begins_session options) = true
needs_close (consumes address capacity) = false
needs_close (produces address) = false

-- The connections and sessions that a run opens, and those that it closes, in their order.
abbrev pub opens : List Act → List Stage
opens [] = []
opens (opened s ∷ as') = let rest = opens as' in if needs_close s then s ∷ rest else rest
opens (_ ∷ as') = opens as'

abbrev pub closes : List Act → List Stage
closes [] = []
closes (closed s ∷ as') = s ∷ closes as'
closes (_ ∷ as') = closes as'

abbrev pub is_exits : Act → Bool
is_exits exits = true
is_exits _ = false

-- The messages that have been handed to handlers.
abbrev pub launches : List Act → List Message
launches [] = []
launches (launched m ∷ as') = m ∷ launches as'
launches (_ ∷ as') = launches as'

-- The exits of a run, and whether nothing follows the first.
abbrev pub exits_last : List Act → Bool
exits_last [] = false
exits_last (a ∷ []) = is_exits a
exits_last (a ∷ b ∷ as') = not (is_exits a) && exits_last (b ∷ as')

abbrev pub exit_free : List Act → Bool
exit_free [] = true
exit_free (a ∷ as') = not (is_exits a) && exit_free as'

pub closes-append : (a b : List Act) → closes (a ++ b) ≡ closes a ++ closes b
closes-append [] b = refl
closes-append (opened s ∷ a) b = closes-append a b
closes-append (launched m ∷ a) b = closes-append a b
closes-append (failed e ∷ a) b = closes-append a b
closes-append (closed s ∷ a) b = ap (λ l. s ∷ l) (closes-append a b)
closes-append (exits ∷ a) b = closes-append a b

-- What closes or exits neither opens nor launches.
abbrev is_closing : Act → Bool
is_closing (closed s) = true
is_closing exits = true
is_closing _ = false

pub opens-closing : (a : List Act) (x : Act) → is_closing x ≡ true → opens (a ++ x ∷ []) ≡ opens a
opens-closing [] (closed s) h = refl
opens-closing [] exits h = refl
opens-closing [] (opened s) h = cc
opens-closing [] (launched m) h = cc
opens-closing [] (failed e) h = cc
opens-closing (opened s ∷ a) x h =
    ap (λ l. if is_deferred s then s ∷ l else l) (opens-closing a x h)
opens-closing (launched m ∷ a) x h = opens-closing a x h
opens-closing (failed e ∷ a) x h = opens-closing a x h
opens-closing (closed s ∷ a) x h = opens-closing a x h
opens-closing (exits ∷ a) x h = opens-closing a x h

pub launches-closing :
    (a : List Act) (x : Act) → is_closing x ≡ true → launches (a ++ x ∷ []) ≡ launches a
launches-closing [] (closed s) h = refl
launches-closing [] exits h = refl
launches-closing [] (opened s) h = cc
launches-closing [] (launched m) h = cc
launches-closing [] (failed e) h = cc
launches-closing (opened s ∷ a) x h = launches-closing a x h
launches-closing (launched m ∷ a) x h = ap (λ l. m ∷ l) (launches-closing a x h)
launches-closing (failed e ∷ a) x h = launches-closing a x h
launches-closing (closed s ∷ a) x h = launches-closing a x h
launches-closing (exits ∷ a) x h = launches-closing a x h

pub exit_free-append :
    (a : List Act) (x : Act) → exit_free a ≡ true → exit_free (a ++ x ∷ []) ≡ not (is_exits x)
exit_free-append [] x h = ground arith
exit_free-append (b ∷ a) x h = ground (arith, h, exit_free-append a x)

pub exits_last-free : (a : List Act) → exit_free a ≡ true → exits_last a ≡ false
exits_last-free [] x = refl
exits_last-free (b ∷ []) x = ground (arith, x)
exits_last-free (b ∷ c ∷ a) x = ground (arith, x, exits_last-free (c ∷ a))

pub exits_last-exits : (a : List Act) → exit_free a ≡ true → exits_last (a ++ exits ∷ []) ≡ true
exits_last-exits [] x = refl
exits_last-exits (b ∷ []) x = ground (arith, x)
exits_last-exits (b ∷ c ∷ a) x = ground (arith, x, exits_last-exits (c ∷ a))
