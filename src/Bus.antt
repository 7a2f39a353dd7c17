-- ===== src/Bus.antt =====
-- The event bus of base/bus.go. A subscription is a number; what it does with its events is not
-- modelled, and no buffer is ever full.
pub mod Closing
mod Tests
use multiwallet.Prelude.{
  map, ℕ, suc, ◌+◌, ◌≡◌, Bool, true, false, ◌&&◌, ◌||◌, not, Option, none, some, List, [], ◌∷◌,
  ◌++◌, any, ◌==◌, if◌then◌else◌, Text, text_eq,
}

-- `basicBus`, with a subscription's types, and whether its channel is closed. A type without a slice
-- has the empty one.
pub record EventBus : Type 0 where
  pub sinks : Text → List ℕ
  pub types : ℕ → List Text
  pub is_closed : ℕ → Bool
  pub next : ℕ

abbrev pub new_bus : EventBus
new_bus = record { sinks = λ typ. []; types = λ s. []; is_closed = λ s. false; next = 0 }

abbrev pub set_sinks : Text → List ℕ → (Text → List ℕ) → Text → List ℕ
set_sinks typ subs sinks t = if text_eq t typ then subs else sinks t

-- The second loop of `Subscribe`.
unfoldable pub append_sinks : ℕ → List Text → (Text → List ℕ) → Text → List ℕ
append_sinks s [] sinks = sinks
append_sinks s (typ ∷ types) sinks =
    append_sinks s types (set_sinks typ (sinks typ ++ s ∷ []) sinks)

-- `Subscribe`, with types and whether each is a pointer; `none` is its error.
unfoldable pub subscribe : List (Bool × Text) → EventBus → Option ℕ × EventBus
subscribe types bus = if any (λ t. not t.0) types then (none, bus) else (
  some bus.next,
  record {
    sinks = append_sinks bus.next (map (λ t. t.1) types) bus.sinks;
    types = λ s. if s == bus.next then map (λ t. t.1) types else bus.types s;
    is_closed = bus.is_closed;
    next = bus.next + 1;
  },
)

abbrev pub last_of : ℕ → List ℕ → ℕ
last_of x [] = x
last_of x (y ∷ subs) = last_of y subs

-- `append(subs[:i], subs[i+1:]...)` in the array that the map's slice shares: the rest moves down, and
-- the slice in the map keeps its length, so its last element stays as well.
abbrev pub move_down : ℕ → List ℕ → List ℕ
move_down s [] = []
move_down s (x ∷ subs) =
    let rest = move_down s subs in if x == s then subs ++ last_of x subs ∷ [] else x ∷ rest

unfoldable pub drop_subscriber : Text → ℕ → EventBus → EventBus
drop_subscriber typ s bus = record bus {
  sinks = set_sinks typ (move_down s (bus.sinks typ)) bus.sinks;
}

abbrev pub drop_types : List Text → ℕ → EventBus → EventBus
drop_types [] s bus = bus
drop_types (typ ∷ types) s bus = drop_types types s (drop_subscriber typ s bus)

-- The bus after a subscription that is open is closed.
abbrev pub closed : ℕ → EventBus → EventBus
closed s bus = record (drop_types (bus.types s) s bus) {
  is_closed = λ x. if x == s then true else bus.is_closed x;
}

-- `Close` of a subscription; `none` is the panic of closing a channel that is closed already.
unfoldable pub close : ℕ → EventBus → Option EventBus
close s bus = if bus.is_closed s then none else some (closed s bus)

-- `Emit`: the subscriptions that get the event, in order, or a panic where one of the channels is
-- closed.
unfoldable pub emit : Text → EventBus → Option (List ℕ)
emit typ bus = if any bus.is_closed (bus.sinks typ) then none else some (bus.sinks typ)
