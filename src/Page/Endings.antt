-- ===== src/Page/Endings.antt =====
-- How a chain of awaited calls ends: on the page, or at another place that the router was sent to.
use tlsentinel_server.Common.{
  Bool, true, false, List, [], ◌∷◌, ◌++◌, ◌≡◌, refl, ap, All, All-append,
}
use mathlib.Core.List.{append_assoc}
use mathlib.Core.Path.{sym, ◌∙◌}
use tlsentinel_server.Text.{Text}
use tlsentinel_server.Client.{Call}
use tlsentinel_server.Page.{
  Answer, answered, refused, broken, Effect, called, navigated, Async, ◌>>=◌, await, receive,
  attempt, skip, navigate, when,
}

abbrev pub IsCall : Effect → Type 0
IsCall (called c) = Unit
IsCall (navigated path) = ⊥

unfoldable pub OnlyCalls : {A : Type 0} → Async A → Type 0
OnlyCalls m = All IsCall m.0

-- Calls, and one navigation behind them.
abbrev pub Leaves : List Effect → Type 0
Leaves es =
    (front : List Effect) × (path : Text) × (es ≡ front ++ navigated path ∷ []) × All IsCall front

-- A chain that comes to its end leaves the page, and one that fails does not.
unfoldable pub Ends : Async (Unit {0}) → Type 0
Ends (es, answered _) = Leaves es
Ends (es, refused _) = All IsCall es
Ends (es, broken) = All IsCall es

after_calls :
    (es : List Effect) (m : Async (Unit {0})) → All IsCall es → Ends m → Ends (es ++ m.0, m.1)
unfolding OnlyCalls Ends
after_calls es (fs, answered _) h (front, path, e, k) = (
  es ++ front,
  path,
  ap (◌++◌ es) e ∙ sym (append_assoc es front (navigated path ∷ [])),
  All-append IsCall es front h k,
)
after_calls es (fs, refused _) h k = All-append IsCall es fs h k
after_calls es (fs, broken) h k = All-append IsCall es fs h k

pub Ends-bind :
    {A : Type 0} (m : Async A) (f : A → Async (Unit {0}))
    → OnlyCalls m
    → ((a : A) → Ends (f a))
    → Ends (m >>= f)
unfolding OnlyCalls Ends
Ends-bind (es, answered a) f h k = after_calls es (f a) h (k a)
Ends-bind (es, refused message) f h k = h
Ends-bind (es, broken) f h k = h

pub OnlyCalls-await : {A : Type 0} (c : Call) (r : Answer A) → OnlyCalls (await c r)
unfolding OnlyCalls Ends
OnlyCalls-await c (answered a) = (tt, tt)
OnlyCalls-await c (refused message) = (tt, tt)
OnlyCalls-await c broken = (tt, tt)

pub OnlyCalls-when : (b : Bool) (m : Async (Unit {0})) → OnlyCalls m → OnlyCalls (when b m)
unfolding OnlyCalls Ends
OnlyCalls-when true m h = h
OnlyCalls-when false m h = tt

pub Ends-navigate : (path : Text) → Ends (navigate path)
unfolding OnlyCalls Ends
Ends-navigate path = ([], path, refl, tt)

pub OnlyCalls-receive : {A : Type 0} (c : Call) (r : Answer A) → OnlyCalls (receive c r)
unfolding OnlyCalls
OnlyCalls-receive c r = (tt, tt)

pub OnlyCalls-attempt : (c : Call) → OnlyCalls (attempt c)
unfolding OnlyCalls
OnlyCalls-attempt c = (tt, tt)

pub OnlyCalls-skip : OnlyCalls skip
unfolding OnlyCalls
OnlyCalls-skip = tt
