-- ===== src/Payload/Life.antt =====
-- What a payload's holders may rely on, apart from the heap: it has a number of holders, or it is
-- pinned for ever, or it is gone.
use onyxnet.Prelude.{ℕ, zero, suc, Option, none, some, List, [], ◌∷◌, ◌==◌, if◌then◌else◌}
use onyxnet.Memory.{◌>>=◌}
use onyxnet.Payload.{Payload, World, pinned_count, payload_release, payload_hold}

pub data Life : Type 0 where
  held : ℕ → Life
  pinned gone : Life

pub data Op : Type 0 where
  hold release : Op

-- The promise: `hold` adds a holder, up to the last count, which pins; `release` takes one away, and
-- the last one's ends the payload. What is gone may not be used.
unfoldable pub live_on : Op → Life → Option Life
live_on hold (held n) = some (if suc n == pinned_count then pinned else held (suc n))
live_on hold pinned = some pinned
live_on hold gone = none
live_on release (held zero) = none
live_on release (held (suc zero)) = some gone
live_on release (held (suc (suc n))) = some (held (suc n))
live_on release pinned = some pinned
live_on release gone = none

unfoldable pub live_through : List Op → Life → Option Life
live_through [] l = some l
live_through (o ∷ os) l = live_on o l >>= live_through os

unfoldable pub apply : ℕ → Op → World → Option World
apply p hold w = payload_hold p w
apply p release w = payload_release p w

unfoldable pub apply_all : ℕ → List Op → World → Option World
apply_all p [] w = some w
apply_all p (o ∷ os) w = apply p o w >>= apply_all p os

-- The life that a heap cell shows.
unfoldable pub life_of : Option Payload → Life
life_of none = gone
life_of (some pl) = if pl.refcount == pinned_count then pinned else held pl.refcount
