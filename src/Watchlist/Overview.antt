-- ===== src/Watchlist/Overview.antt =====
-- `WatchlistService.overview` (backend/app/services/watchlist.py). The rows that the query of the
-- repository answers are an argument.
use tw_stock_android_spec.Base.{
  ℕ, Bool, true, false, ◌||◌, Option, none, some, List, [], ◌∷◌, if◌then◌else◌,
}
use tw_stock_android_spec.Base.Decimal.{Decimal, ltb_ᴰ}
use tw_stock_android_spec.Market.{DataStatus, final, stale, partial, unavailable, is_unavailable}
use tw_stock_android_spec.Outcome.{Result, ok, ◌>>=◌}
use tw_stock_android_spec.Watchlist.Types.{WatchlistTables}
use tw_stock_android_spec.Watchlist.Service.{require_watchlist}

-- What the service reads of a row
pub record OverviewRow : Type 0 where
  pub price_status : Option DataStatus
  pub technical_status : Option DataStatus
  pub credit_status : Option DataStatus
  pub close : Option Decimal
  pub ma20 : Option Decimal
  pub ma60 : Option Decimal

-- The row with what is written into it
pub record Overview : Type 0 where
  pub row : OverviewRow
  pub data_status : DataStatus
  pub price_above_ma20 : Option Bool
  pub price_above_ma60 : Option Bool

-- `value in (None, DataStatus.UNAVAILABLE)`
abbrev pub is_missing : Option DataStatus → Bool
is_missing none = true
is_missing (some status) = is_unavailable status

abbrev pub is_stale_status : Option DataStatus → Bool
is_stale_status (some stale) = true
is_stale_status _ = false

unfoldable pub row_status : Option Decimal → OverviewRow → DataStatus
row_status none r = unavailable
row_status (some close) r =
    if is_missing r.price_status || (is_missing r.technical_status || is_missing r.credit_status)
    then partial
    else if is_stale_status r.price_status
        || (is_stale_status r.technical_status || is_stale_status r.credit_status)
    then stale
    else final

unfoldable pub price_above : Option Decimal → Option Decimal → Option Bool
price_above (some close) (some average) = some (ltb_ᴰ average close)
price_above _ _ = none

unfoldable pub overview_of : OverviewRow → Overview
overview_of r = record {
  row = r;
  data_status = row_status r.close r;
  price_above_ma20 = price_above r.close r.ma20;
  price_above_ma60 = price_above r.close r.ma60;
}

unfoldable pub overviews : List OverviewRow → List Overview
overviews [] = []
overviews (r ∷ rows) = overview_of r ∷ overviews rows

unfoldable pub overview : ℕ → List OverviewRow → WatchlistTables → Result (List Overview)
overview watchlist_id rows t = require_watchlist watchlist_id t >>= λ w. ok (overviews rows)
