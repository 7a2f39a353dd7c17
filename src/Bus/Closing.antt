-- ===== src/Bus/Closing.antt =====
-- Subscribing, closing and emitting.
use multiwallet.Prelude.{
  ℕ, ◌≡◌, refl, ◌∙◌, ap, Bool, true, false, ◌||◌, Option, none, some, List, [], ◌∷◌, ◌++◌, any,
  ◌==◌, if◌then◌else◌, Text, text_eq, text_eq_iff, arith, All, All-map, All-append,
}
use multiwallet.Bus.{
  EventBus, append_sinks, subscribe, move_down, last_of, drop_subscriber, closed, close, emit,
}

any-append : (p : ℕ → Bool) (xs ys : List ℕ) → any p (xs ++ ys) ≡ (any p xs || any p ys)
any-append p [] ys = refl
any-append p (x ∷ xs) ys = ground (arith, any-append p xs ys)

same_text : (t : Text) → text_eq t t ≡ true
same_text t = (text_eq_iff t t).1 refl

-- Where the newest number is open: a subscription to a type gets the events of the type, behind those
-- that got them before, and changes nothing for other types.
pub subscribe_emits :
    (typ : Text) (bus : EventBus) (got : List ℕ)
    → bus.is_closed bus.next ≡ false
    → emit typ bus ≡ some got
    → (emit typ (subscribe ((true, typ) ∷ []) bus).1 ≡ some (got ++ bus.next ∷ []))
      × ((other : Text)
          → text_eq other typ ≡ false
          → emit other (subscribe ((true, typ) ∷ []) bus).1 ≡ emit other bus)
unfolding emit subscribe append_sinks
subscribe_emits typ bus got open_next h =
    let same = same_text typ in
    (
      rw same (ground (arith, any-append bus.is_closed (bus.sinks typ) (bus.next ∷ []))),
      λ other apart. rw apart refl,
    )

-- The newest of a type's subscriptions stays in the slice.
move_down-last :
    (s : ℕ) (pre : List ℕ)
    → All (λ x. (x == s) ≡ false) pre
    → move_down s (pre ++ s ∷ []) ≡ pre ++ s ∷ []
move_down-last s [] h = let same : (s == s) ≡ true = ground arith in rw same refl
move_down-last s (x ∷ pre) h = rw (h.0) (ap (λ t. x ∷ t) (move_down-last s pre h.1))

-- An older one goes, and the newest is there twice.
move_down-older :
    (s : ℕ) (pre post : List ℕ) (y : ℕ)
    → All (λ x. (x == s) ≡ false) pre
    → move_down s (pre ++ (s ∷ (y ∷ post))) ≡ pre ++ ((y ∷ post) ++ last_of y post ∷ [])
move_down-older s [] post y h = let same : (s == s) ≡ true = ground arith in rw same refl
move_down-older s (x ∷ pre) post y h = rw (h.0) (ap (λ t. x ∷ t) (move_down-older s pre post y h.1))

-- The channels that are closed after one more is.
abbrev closed_with : ℕ → EventBus → ℕ → Bool
closed_with s bus x = if x == s then true else bus.is_closed x

abbrev sent : (ℕ → Bool) → List ℕ → Option (List ℕ)
sent c subs = if any c subs then none else some subs

emit-closed :
    (typ : Text) (s : ℕ) (bus : EventBus)
    → bus.types s ≡ typ ∷ []
    → emit typ (closed s bus) ≡ sent (closed_with s bus) (move_down s (bus.sinks typ))
unfolding emit drop_subscriber
emit-closed typ s bus only = let same = same_text typ in rw (only, same) refl

any_none : (p : ℕ → Bool) (xs : List ℕ) → All (λ x. p x ≡ false) xs → any p xs ≡ false
any_none p [] h = refl
any_none p (x ∷ xs) h = rw (h.0) (any_none p xs h.1)

All-last_of : (P : ℕ → Type 0) (x : ℕ) (xs : List ℕ) → All P (x ∷ xs) → P (last_of x xs)
All-last_of P x [] h = h.0
All-last_of P x (y ∷ xs) h = All-last_of P y xs h.1

-- An open subscription closes.
close_open : (s : ℕ) (bus : EventBus) → bus.is_closed s ≡ false → close s bus ≡ some (closed s bus)
unfolding close
close_open s bus h = rw h refl

-- Where the newest subscription of a type is open and to that type only and once, it closes, and the
-- next event of the type panics.
pub close_newest_panics :
    (typ : Text) (s : ℕ) (pre : List ℕ) (bus : EventBus)
    → bus.is_closed s ≡ false
    → bus.types s ≡ typ ∷ []
    → bus.sinks typ ≡ pre ++ s ∷ []
    → All (λ x. (x == s) ≡ false) pre
    → (after : EventBus) × (close s bus ≡ some after) × (emit typ after ≡ none)
close_newest_panics typ s pre bus is_open only sinks once =
    let same : (s == s) ≡ true = ground arith in
    (
      closed s bus,
      close_open s bus is_open,
      emit-closed typ s bus only
          ∙ ap (λ subs. sent (closed_with s bus) (move_down s subs)) sinks
          ∙ ap (sent (closed_with s bus)) (move_down-last s pre once)
          ∙ ground (arith, any-append (closed_with s bus) pre (s ∷ [])),
    )

-- Where an older subscription of a type is open and to that type only and once, and the other
-- subscriptions of the type are open, it closes, and the next event of the type goes to the others, and
-- to the newest of them once more.
pub close_older_repeats :
    (typ : Text) (s y : ℕ) (pre post : List ℕ) (bus : EventBus)
    → bus.is_closed s ≡ false
    → bus.types s ≡ typ ∷ []
    → bus.sinks typ ≡ pre ++ (s ∷ (y ∷ post))
    → All (λ x. ((x == s) ≡ false) × (bus.is_closed x ≡ false)) pre
    → All (λ x. ((x == s) ≡ false) × (bus.is_closed x ≡ false)) (y ∷ post)
    → (after : EventBus) × (close s bus ≡ some after)
      × (emit typ after ≡ some (pre ++ ((y ∷ post) ++ last_of y post ∷ [])))
close_older_repeats typ s y pre post bus is_open only sinks before others_open =
    let still : (x : ℕ)
        → ((x == s) ≡ false) × (bus.is_closed x ≡ false)
        → closed_with s bus x ≡ false =
      λ x h. rw (h.0) (h.1) in
    let others = All-map IsOther (λ x. closed_with s bus x ≡ false) (y ∷ post) still others_open in
    let open_all = any_none (closed_with s bus) (pre ++ ((y ∷ post) ++ last_of y post ∷ [])) (
      All-append (λ x. closed_with s bus x ≡ false) pre ((y ∷ post) ++ last_of y post ∷ [])
        (All-map IsOther (λ x. closed_with s bus x ≡ false) pre still before)
        (All-append (λ x. closed_with s bus x ≡ false) (y ∷ post) (last_of y post ∷ []) others
          (All-last_of (λ x. closed_with s bus x ≡ false) y post others, tt))) in
    (
      closed s bus,
      close_open s bus is_open,
      emit-closed typ s bus only
          ∙ ap (λ subs. sent (closed_with s bus) (move_down s subs)) sinks
          ∙ ap (sent (closed_with s bus)) (
              move_down-older s pre post y
                (All-map IsOther (λ x. (x == s) ≡ false) pre (λ x h. h.0) before))
          ∙ ap (λ b. if b then none else some (pre ++ ((y ∷ post) ++ last_of y post ∷ [])))
              open_all,
    )
  where
    IsOther : ℕ → Type 0
    IsOther x = ((x == s) ≡ false) × (bus.is_closed x ≡ false)
