-- ===== src/Rates/Recent.antt =====
-- `(*APIFeeProvider).GetFee`: how old the answer is that a fee comes from.
use mathlib.Core.Path.{subst}
use multiwallet.Prelude.{
  ℕ, ◌+◌, ◌<◌, ◌≡◌, ◌≢◌, refl, sym, ◌∙◌, ap, Bool, true, false, Option, none, some, ◌⊎◌, inl, inr,
  List, [], ◌∷◌, arith, if◌then◌else◌,
}
use multiwallet.Prelude.Int.{ℤ, ◌≤ℤ◌}
use mathlib.Core.List.{Memᴰ}
use multiwallet.Rates.{
  FeeLevel, custom, priority, normal, economic, super_economic, Levels, RateError, query_failed,
  FeeCache, FeeCall, find_level, level_int, as_amount, capped, capped_or, find_cached, from_cache,
  is_fresh, lifetime, queried, get_api_fee,
}

-- A new `APIFeeProvider`.
abbrev pub new_fee_cache : FeeCache
new_fee_cache = record { fees = none; last_queried = none }

module _ (ints : Levels) (most : ℤ) where
  -- The cache after a list of calls, the last call first.
  unfoldable pub cache_after : List FeeCall → FeeCache
  cache_after [] = new_fee_cache
  cache_after (call ∷ earlier) = (get_api_fee ints most call (cache_after earlier)).1

  -- The fee of a level by one answer of the API.
  abbrev pub fee_by : FeeLevel → Levels → RateError ⊎ ℤ
  fee_by level fees = capped_or most (as_amount (level_int ints level)) (find_level level fees)

  -- The cache is new, or holds the answer to one of the calls.
  abbrev IsSourced : List FeeCall → FeeCache → Type 0
  IsSourced calls cache =
      ((cache.fees ≡ none) × (cache.last_queried ≡ none))
      ⊎ ((c : FeeCall) × (fees : Levels) × Memᴰ c calls
          × (c.response ≡ some fees)
          × (cache.fees ≡ some fees)
          × (cache.last_queried ≡ some c.answered))

  -- The result is that of the API's answer to `c`, which is this call or one answered less than ten
  -- minutes before it.
  abbrev pub IsRecent : FeeCall → List FeeCall → RateError ⊎ ℤ → Type 0
  IsRecent call calls r =
      (c : FeeCall) × (fees : Levels) × Memᴰ c calls
      × (c.response ≡ some fees)
      × (r ≡ fee_by call.level fees)
      × ((c ≡ call) ⊎ (call.asked < c.answered + lifetime))

  fresh-lt : (t now : ℕ) → is_fresh (some t) now ≡ true → now < t + lifetime
  fresh-lt t now h = ground arith

  -- What one call does to a sourced cache.
  call-IsSourced :
      (call : FeeCall) (earlier : List FeeCall) (cache : FeeCache) (fresh : Bool)
      (response : Option Levels)
      → is_fresh cache.last_queried call.asked ≡ fresh
      → call.response ≡ response
      → IsSourced earlier cache
      → let r =
          if fresh
          then (from_cache ints most call.level cache, cache)
          else queried ints most call cache response in
        IsSourced (call ∷ earlier) r.1
        × ((r.0 ≡ inl query_failed) ⊎ IsRecent call (call ∷ earlier) r.0)
  call-IsSourced call earlier cache true response hf hr (inl (nothing, never)) =
      absurd (cc (ap (λ l. is_fresh l call.asked) (sym never) ∙ hf))
  call-IsSourced call earlier cache true response hf hr (inr (c, fees, m, answer, here, at)) = (
    inr (c, fees, Memᴰ.tail m, answer, here, at),
    inr (
      c,
      fees,
      Memᴰ.tail m,
      answer,
      ap (λ l. capped_or most (as_amount (level_int ints call.level)) (find_cached call.level l))
          here,
      inr (fresh-lt c.answered call.asked (ap (λ l. is_fresh l call.asked) (sym at) ∙ hf)),
    ),
  )
  call-IsSourced call earlier cache false none hf hr (inl h) = (inl h, inl refl)
  call-IsSourced call earlier cache false none hf hr (inr (c, fees, m, answer, here, at)) =
      (inr (c, fees, Memᴰ.tail m, answer, here, at), inl refl)
  call-IsSourced call earlier cache false (some fees) hf hr h = (
    inr (call, fees, Memᴰ.head refl, hr, refl, refl),
    inr (call, fees, Memᴰ.head refl, hr, refl, inl refl),
  )

  get_api_fee-IsSourced :
      (call : FeeCall) (earlier : List FeeCall) (cache : FeeCache)
      → IsSourced earlier cache
      → IsSourced (call ∷ earlier) (get_api_fee ints most call cache).1
        × (((get_api_fee ints most call cache).0 ≡ inl query_failed)
            ⊎ IsRecent call (call ∷ earlier) (get_api_fee ints most call cache).0)
  unfolding get_api_fee
  get_api_fee-IsSourced call earlier cache h =
      call-IsSourced call earlier cache (is_fresh cache.last_queried call.asked) call.response refl
        refl h

  cache_after-IsSourced : (calls : List FeeCall) → IsSourced calls (cache_after calls)
  unfolding cache_after
  cache_after-IsSourced [] = inl (refl, refl)
  cache_after-IsSourced (call ∷ earlier) =
      (get_api_fee-IsSourced call earlier (cache_after earlier) (cache_after-IsSourced earlier)).0

  -- After any calls on a new provider, `GetFee` reports a failed query, or gives the fee by an answer
  -- of the API to this call or to one answered less than ten minutes before it.
  pub get_api_fee-IsRecent :
      (call : FeeCall) (earlier : List FeeCall)
      → ((get_api_fee ints most call (cache_after earlier)).0 ≡ inl query_failed)
        ⊎ IsRecent call (call ∷ earlier) (get_api_fee ints most call (cache_after earlier)).0
  get_api_fee-IsRecent call earlier =
      (get_api_fee-IsSourced call earlier (cache_after earlier) (cache_after-IsSourced earlier)).1

  capped-le : (fee : ℤ) → capped most fee ≤ℤ most
  capped-le fee = ground arith

  fee_by-le :
      (level : FeeLevel) (fees : Levels) (fee : ℤ)
      → ((n : ℤ) → level ≢ custom n)
      → inr fee ≡ fee_by level fees
      → fee ≤ℤ most
  fee_by-le priority fees fee named h =
      let same : fee ≡ capped most fees.at_priority = cc in
      subst (λ x. x ≤ℤ most) (sym same) (capped-le fees.at_priority)
  fee_by-le normal fees fee named h =
      let same : fee ≡ capped most fees.at_normal = cc in
      subst (λ x. x ≤ℤ most) (sym same) (capped-le fees.at_normal)
  fee_by-le economic fees fee named h =
      let same : fee ≡ capped most fees.at_economic = cc in
      subst (λ x. x ≤ℤ most) (sym same) (capped-le fees.at_economic)
  fee_by-le super_economic fees fee named h =
      let same : fee ≡ capped most fees.at_super_economic = cc in
      subst (λ x. x ≤ℤ most) (sym same) (capped-le fees.at_super_economic)
  fee_by-le (custom n) fees fee named h = absurd (named n refl)

  -- After any calls on a new provider, the fee of a named level is at most the maximum.
  pub get_api_fee-le :
      (call : FeeCall) (earlier : List FeeCall) (fee : ℤ)
      → ((n : ℤ) → call.level ≢ custom n)
      → (get_api_fee ints most call (cache_after earlier)).0 ≡ inr fee
      → fee ≤ℤ most
  get_api_fee-le call earlier fee named h = elim (get_api_fee-IsRecent call earlier) [
    | inl failed ↦ absurd (cc (failed, h))
    | inr (c, fees, m, answer, by, recent) ↦ fee_by-le call.level fees fee named (sym h ∙ by)
  ]
