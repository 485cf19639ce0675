-- ===== src/Page.antt =====
-- What the pages under web/src/pages share: the calls that their handlers await, one after the
-- other, with what each ends with, and the places that the router is sent to.
pub mod Endings
use tlsentinel_server.Common.{
  Bool, true, false, List, [], ◌∷◌, ◌++◌, Option, none, some, if◌then◌else◌,
}
use tlsentinel_server.Text.{Text}
use tlsentinel_server.Client.{Call, Promise}

-- How an awaited call ends: with its value, an `ApiError` with its message, or another error.
pub data Answer (A : Type 0) : Type 0 where
  answered : A → Answer A
  refused : Text → Answer A
  broken : Answer A

pub data Effect : Type 0 where
  called : Call → Effect
  navigated : Text → Effect

-- A part of an asynchronous function: what it does outside, and how it ends.
abbrev pub Async : Type 0 → Type 0
Async A = List Effect × Answer A

infixl 5 ◌>>=◌ ◌>>◌
abbrev pub ◌>>=◌ : {A B : Type 0} → Async A → (A → Async B) → Async B
(es, answered a) >>= f = (es ++ (f a).0, (f a).1)
(es, refused message) >>= f = (es, refused message)
(es, broken) >>= f = (es, broken)

abbrev pub ◌>>◌ : {A B : Type 0} → Async A → Async B → Async B
m >> k = m >>= λ _. k

-- `await call`, where the server answers so.
abbrev pub await : {A : Type 0} → Call → Answer A → Async (Unit {0})
await c (answered a) = (called c ∷ [], answered tt)
await c (refused message) = (called c ∷ [], refused message)
await c broken = (called c ∷ [], broken)

-- The same, with the value.
abbrev pub receive : {A : Type 0} → Call → Answer A → Async A
receive c r = (called c ∷ [], r)

abbrev pub skip : Async (Unit {0})
skip = ([], answered tt)

abbrev pub navigate : Text → Async (Unit {0})
navigate path = (navigated path ∷ [], answered tt)

abbrev pub when : Bool → Async (Unit {0}) → Async (Unit {0})
when b m = if b then m else skip

-- `await call.catch(() => {})`, which goes on however the call ends.
abbrev pub attempt : Call → Async (Unit {0})
attempt c = (called c ∷ [], answered tt)

-- `err instanceof ApiError ? err.message : fallback`.
abbrev pub error_text : {A : Type 0} → Text → Answer A → Option Text
error_text fallback (answered a) = none
error_text fallback (refused message) = some message
error_text fallback broken = some fallback

-- `s || undefined`.
abbrev pub or_undefined : Text → Option Text
or_undefined [] = none
or_undefined (c ∷ s) = some (c ∷ s)

-- `Boolean(s)` of a string that may be absent.
abbrev pub is_present : Option Text → Bool
is_present none = false
is_present (some []) = false
is_present (some (c ∷ s)) = true
