-- ===== src/Rates/Tests.antt =====
-- The theorems on the providers at a few calls.
use multiwallet.Prelude.{
  ◌≡◌, refl, none, some, ◌⊎◌, inl, inr, List, [], ◌∷◌, arith, codes, text_eq, if◌then◌else◌,
}
use multiwallet.Prelude.Int.{pos, negsuc, ◌≤ℤ◌}
use multiwallet.Rates.{
  priority, normal, custom, Levels, query_failed, negative_fee, FeeCall, get_api_fee,
  get_hard_coded_fee, bitcoin, litecoin, Rates, RateCall, RateCache, get_usd_rate,
}
use multiwallet.Rates.Recent.{cache_after, IsRecent, get_api_fee-IsRecent, get_api_fee-le}
use multiwallet.Rates.Polling.{poll, rates_by, poll_stale}

-- The integers of the named levels, and an answer of the API.
abbrev ints : Levels
ints = record {
  at_priority = negsuc 0;
  at_normal = negsuc 1;
  at_economic = negsuc 2;
  at_super_economic = negsuc 3;
}

abbrev answer : Levels
answer = record {
  at_priority = pos 90;
  at_normal = pos 30;
  at_economic = pos 12;
  at_super_economic = pos 5;
}

abbrev first_call : FeeCall
first_call = record { level = normal; asked = 1000; answered = 1001; response = some answer }

abbrev later_call : FeeCall
later_call = record { level = priority; asked = 1500; answered = 1501; response = none }

-- The second call is answered from the cache, and the fee is cut to the maximum.
cached_fee :
    (get_api_fee ints (pos 50) later_call (cache_after ints (pos 50) (first_call ∷ []))).0
    ≡ inr (pos 50)
unfolding get_api_fee cache_after
cached_fee = refl

custom_fee : get_hard_coded_fee ints answer (custom (pos 7)) ≡ inr (pos 7)
unfolding get_hard_coded_fee
custom_fee = refl

negative_custom_fee : get_hard_coded_fee ints answer (custom (negsuc 7)) ≡ inl negative_fee
unfolding get_hard_coded_fee
negative_custom_fee = refl

get_api_fee_example :
    ((get_api_fee ints (pos 50) later_call (cache_after ints (pos 50) (first_call ∷ []))).0
      ≡ inl query_failed)
    ⊎ IsRecent ints
        (pos 50)
        later_call
        (later_call ∷ first_call ∷ [])
        (get_api_fee ints (pos 50) later_call (cache_after ints (pos 50) (first_call ∷ []))).0
get_api_fee_example = get_api_fee-IsRecent ints (pos 50) later_call (first_call ∷ [])

get_api_fee_most_example : pos 50 ≤ℤ pos 50
get_api_fee_most_example =
    get_api_fee-le ints (pos 50) later_call (first_call ∷ []) (pos 50) (λ n h. cc (h)) cached_fee

abbrev market : Rates
market t =
    if text_eq t (codes "USD")
    then some 9000
    else if text_eq t (codes "LTC")
    then some 200
    else none

abbrev hourly : List RateCall
hourly =
    record { coin = bitcoin; asked = 500; answered = 500; response = none }
    ∷ record { coin = litecoin; asked = 1000; answered = 1000; response = none }
    ∷ record { coin = bitcoin; asked = 1500; answered = 1500; response = none }
    ∷ []

poll_example :
    ((poll hourly (record { rates = market; last_queried = some 0 })).0
      ≡ rates_by 9000 market hourly)
    × ((poll hourly (record { rates = market; last_queried = some 0 })).1.rates ≡ market)
unfolding text_eq
poll_example = poll_stale hourly market 9000 0 refl (omega arith, (omega arith, (omega arith, tt)))

abbrev failed_call : RateCall
failed_call = record { coin = bitcoin; asked = 5; answered = 6; response = none }

abbrev new_rate_cache : RateCache
new_rate_cache = record { rates = λ t. none; last_queried = none }

-- A failed request is the rate zero.
failed_request : (get_usd_rate failed_call new_rate_cache).0 ≡ inr 0
unfolding get_usd_rate
failed_request = refl
