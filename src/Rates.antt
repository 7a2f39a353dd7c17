-- ===== src/Rates.antt =====
-- The providers of fees and of exchange rates: `HardCodedFeeProvider` and `APIFeeProvider` of
-- base/fees.go, `DefaultExchangeRateProvider` of base/exchange_rates.go. A time is in seconds; what
-- the HTTP request answers is an argument of the call that makes it.
pub mod Recent
pub mod Polling
mod Tests
use multiwallet.Prelude.{
  ℕ, ◌+◌, ◌*◌, ◌/◌, ◌%◌, ◌^◌, Bool, true, false, Option, none, some, ◌⊎◌, inl, inr, ltb, ◌==◌,
  if◌then◌else◌, Text, codes,
}
use multiwallet.Prelude.Int.{ℤ, pos, negsuc, ltb_ℤ}

-- `iwallet.FeeLevel`: the four named levels, and any other integer.
pub data FeeLevel : Type 0 where
  priority normal economic super_economic : FeeLevel
  custom : ℤ → FeeLevel

-- One entry for each named level.
pub record Levels : Type 0 where
  pub at_priority : ℤ
  pub at_normal : ℤ
  pub at_economic : ℤ
  pub at_super_economic : ℤ

pub data RateError : Type 0 where
  negative_fee query_failed rating_unavailable unknown_coin divided_by_zero : RateError

-- `feeMap[level]`
abbrev pub find_level : FeeLevel → Levels → Option ℤ
find_level priority m = some m.at_priority
find_level normal m = some m.at_normal
find_level economic m = some m.at_economic
find_level super_economic m = some m.at_super_economic
find_level (custom n) m = none

-- `int(level)`, by the integers that the interface gives to the named levels.
abbrev pub level_int : Levels → FeeLevel → ℤ
level_int ints priority = ints.at_priority
level_int ints normal = ints.at_normal
level_int ints economic = ints.at_economic
level_int ints super_economic = ints.at_super_economic
level_int ints (custom n) = n

-- A level without an entry is the fee itself.
abbrev pub as_amount : ℤ → RateError ⊎ ℤ
as_amount n = if ltb_ℤ n (pos 0) then inl negative_fee else inr n

abbrev pub entry_or : RateError ⊎ ℤ → Option ℤ → RateError ⊎ ℤ
entry_or other none = other
entry_or other (some fee) = inr fee

-- `(*HardCodedFeeProvider).GetFee`
unfoldable pub get_hard_coded_fee : Levels → Levels → FeeLevel → RateError ⊎ ℤ
get_hard_coded_fee ints fees level =
    entry_or (as_amount (level_int ints level)) (find_level level fees)

-- `fee`, or the maximum if that is less.
abbrev pub capped : ℤ → ℤ → ℤ
capped most fee = if ltb_ℤ most fee then most else fee

-- The mutable part of an `APIFeeProvider`; its four entries are set together.
pub record FeeCache : Type 0 where
  pub fees : Option Levels
  pub last_queried : Option ℕ

abbrev pub find_cached : FeeLevel → Option Levels → Option ℤ
find_cached level none = none
find_cached level (some fees) = find_level level fees

abbrev pub capped_or : ℤ → RateError ⊎ ℤ → Option ℤ → RateError ⊎ ℤ
capped_or most other none = other
capped_or most other (some fee) = inr (capped most fee)

-- `fromCache`
abbrev pub from_cache : Levels → ℤ → FeeLevel → FeeCache → RateError ⊎ ℤ
from_cache ints most level cache =
    capped_or most (as_amount (level_int ints level)) (find_cached level cache.fees)

-- Ten minutes.
abbrev pub lifetime : ℕ
lifetime = 600

-- `lastQueried.Add(time.Minute * 10).After(time.Now())`; a provider that was never asked has the zero time.
abbrev pub is_fresh : Option ℕ → ℕ → Bool
is_fresh none now = false
is_fresh (some t) now = ltb now (t + lifetime)

-- One call of `GetFee`: when it is made, when its request is answered, and how.
pub record FeeCall : Type 0 where
  pub level : FeeLevel
  pub asked : ℕ
  pub answered : ℕ
  pub response : Option Levels

abbrev pub queried : Levels → ℤ → FeeCall → FeeCache → Option Levels → (RateError ⊎ ℤ) × FeeCache
queried ints most call cache none = (inl query_failed, cache)
queried ints most call cache (some fees) =
    let cache' = record cache { fees = some fees; last_queried = some call.answered } in
    (from_cache ints most call.level cache', cache')

-- `(*APIFeeProvider).GetFee`
unfoldable pub get_api_fee : Levels → ℤ → FeeCall → FeeCache → (RateError ⊎ ℤ) × FeeCache
get_api_fee ints most call cache =
    if is_fresh cache.last_queried call.asked
    then (from_cache ints most call.level cache, cache)
    else queried ints most call cache call.response

pub data CoinType : Type 0 where
  bitcoin bitcoin_cash litecoin zcash ethereum other_coin : CoinType

-- The decoded answer: for a currency, `uint64(Last)`.
abbrev pub Rates : Type 0
Rates = Text → Option ℕ

pub record RateCache : Type 0 where
  pub rates : Rates
  pub last_queried : Option ℕ

-- `uint64(Last) * 100`
abbrev pub cents : ℕ → ℕ
cents rate = (rate * 100) % 2 ^ 64

-- `Amount.Div` panics on zero.
abbrev pub quotient : ℕ → ℕ → RateError ⊎ ℕ
quotient a b = if b == 0 then inl divided_by_zero else inr (a / b)

abbrev pub against : ℕ → Option ℕ → RateError ⊎ ℕ
against usd none = inl rating_unavailable
against usd (some rate) = quotient (cents usd) (cents rate)

-- The switch over the coin.
abbrev pub usd_rate : CoinType → ℕ → Rates → RateError ⊎ ℕ
usd_rate bitcoin usd rates = inr (cents usd)
usd_rate bitcoin_cash usd rates = against usd (rates (codes "BCH"))
usd_rate litecoin usd rates = against usd (rates (codes "LTC"))
usd_rate zcash usd rates = against usd (rates (codes "ZEC"))
usd_rate ethereum usd rates = against usd (rates (codes "ETH"))
usd_rate other_coin usd rates = inl unknown_coin

pub record RateCall : Type 0 where
  pub coin : CoinType
  pub asked : ℕ
  pub answered : ℕ
  pub response : Option Rates

-- The call from the look-up of "USD" on, with the rates that it goes by.
abbrev pub answer_by : RateCall → RateCache → Rates → Option ℕ → (RateError ⊎ ℕ) × RateCache
answer_by call cache rates none = (inl rating_unavailable, cache)
answer_by call cache rates (some usd) = (
  usd_rate call.coin usd rates,
  record cache { rates = rates; last_queried = some call.answered },
)

abbrev pub after_query : RateCall → RateCache → Option Rates → (RateError ⊎ ℕ) × RateCache
after_query call cache none = (inr 0, cache)
after_query call cache (some rates) = answer_by call cache rates (rates (codes "USD"))

-- `(*DefaultExchangeRateProvider).GetUSDRate`. A failed request is the rate zero and no error.
unfoldable pub get_usd_rate : RateCall → RateCache → (RateError ⊎ ℕ) × RateCache
get_usd_rate call cache =
    if is_fresh cache.last_queried call.asked
    then answer_by call cache cache.rates (cache.rates (codes "USD"))
    else after_query call cache call.response
