-- ===== src/Bus/Tests.antt =====
-- A bus with two subscriptions to one type.
use multiwallet.Prelude.{
  if◌then◌else◌, ◌≡◌, refl, true, false, none, some, [], ◌∷◌, Text, codes, text_eq,
}
use multiwallet.Bus.{EventBus, new_bus, append_sinks, subscribe, close, emit}
use multiwallet.Bus.Closing.{subscribe_emits, close_newest_panics, close_older_repeats}

abbrev blocks : Text
blocks = codes "block"

abbrev two : EventBus
two = record {
  sinks = λ t. if text_eq t blocks then 0 ∷ (1 ∷ []) else [];
  types = λ s. blocks ∷ [];
  is_closed = λ s. false;
  next = 2;
}

two_result :
    (emit blocks (subscribe ((true, blocks) ∷ []) (subscribe ((true, blocks) ∷ []) new_bus).1).1)
    ≡ some (0 ∷ (1 ∷ []))
unfolding emit subscribe append_sinks text_eq
two_result = refl

third_example :
    (emit blocks (subscribe ((true, blocks) ∷ []) two).1 ≡ some (0 ∷ (1 ∷ (2 ∷ []))))
    × ((other : Text)
        → text_eq other blocks ≡ false
        → emit other (subscribe ((true, blocks) ∷ []) two).1 ≡ emit other two)
unfolding text_eq emit
third_example = subscribe_emits blocks two (0 ∷ (1 ∷ [])) refl refl

newest_example : (after : EventBus) × (close 1 two ≡ some after) × (emit blocks after ≡ none)
unfolding text_eq
newest_example = close_newest_panics blocks 1 (0 ∷ []) two refl refl refl (refl, tt)

older_example :
    (after : EventBus) × (close 0 two ≡ some after) × (emit blocks after ≡ some (1 ∷ (1 ∷ [])))
unfolding text_eq
older_example = close_older_repeats blocks 0 1 [] [] two refl refl refl tt ((refl, refl), tt)
