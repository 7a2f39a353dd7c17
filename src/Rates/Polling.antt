-- ===== src/Rates/Polling.antt =====
-- `GetUSDRate` under polling: the cache's time is renewed by every use, so its rates never expire.
use multiwallet.Prelude.{ℕ, ◌+◌, ◌<◌, ◌≡◌, refl, ap, true, some, ◌⊎◌, List, [], ◌∷◌, arith, codes}
use multiwallet.Rates.{
  Rates, RateError, RateCache, RateCall, lifetime, is_fresh, answer_by, get_usd_rate, usd_rate,
}

-- The cache after the calls in their order, and the results.
unfoldable pub poll : List RateCall → RateCache → List (RateError ⊎ ℕ) × RateCache
poll [] cache = ([], cache)
poll (call ∷ calls) cache =
    let (r, cache') = get_usd_rate call cache in
    let (results, cache'') = poll calls cache' in (r ∷ results, cache'')

-- Each call is made less than ten minutes after the answer before it, the first after `last`.
abbrev pub IsPolled : ℕ → List RateCall → Type 0
IsPolled last [] = Unit {0}
IsPolled last (call ∷ calls) = (call.asked < last + lifetime) × IsPolled call.answered calls

-- What the rates at hand give for each call.
abbrev pub rates_by : ℕ → Rates → List RateCall → List (RateError ⊎ ℕ)
rates_by usd rates [] = []
rates_by usd rates (call ∷ calls) = usd_rate call.coin usd rates ∷ rates_by usd rates calls

lt-fresh : (t now : ℕ) → now < t + lifetime → is_fresh (some t) now ≡ true
lt-fresh t now h = ground arith

get_usd_rate_cached :
    (call : RateCall) (rates : Rates) (usd last : ℕ)
    → rates (codes "USD") ≡ some usd
    → call.asked < last + lifetime
    → get_usd_rate call (record { rates = rates; last_queried = some last })
      ≡ (usd_rate call.coin usd rates, record { rates = rates; last_queried = some call.answered })
unfolding get_usd_rate
get_usd_rate_cached call rates usd last found soon =
    rw (lt-fresh last call.asked soon)
      (ap (answer_by call (record { rates = rates; last_queried = some last }) rates) found)

-- Once it has rates with an entry for USD, a provider that is polled, each time less than ten minutes
-- after the last answer, goes by the same rates however long that goes on, whatever the API would
-- answer.
pub poll_stale :
    (calls : List RateCall) (rates : Rates) (usd last : ℕ)
    → rates (codes "USD") ≡ some usd
    → IsPolled last calls
    → ((poll calls (record { rates = rates; last_queried = some last })).0
        ≡ rates_by usd rates calls)
      × ((poll calls (record { rates = rates; last_queried = some last })).1.rates ≡ rates)
unfolding poll
poll_stale [] rates usd last found polled = (refl, refl)
poll_stale (call ∷ calls) rates usd last found polled =
    let (same, kept) = poll_stale calls rates usd call.answered found polled.1 in
    rw (get_usd_rate_cached call rates usd last found polled.0)
      (ap (λ rs. usd_rate call.coin usd rates ∷ rs) same, kept)
