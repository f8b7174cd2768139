-- ===== src/TimeCache/Tests.antt =====
-- The theorem on the cached time at a concrete time.
use meinheld.Base.{◌≡◌, refl, true, false, [], arith}
use meinheld.Base.Int.{pos, negsuc}
use meinheld.TimeCache.{Tm, TimeCache, cache_time_update, get_timezone}
use meinheld.TimeCache.Widths.{Valid, Updated, cache_time_update_lem}

abbrev sunday : Tm
sunday = record {
  tm_sec = 37;
  tm_min = 49;
  tm_hour = 8;
  tm_mday = 6;
  tm_mon = 10;
  tm_year = 94;
  tm_wday = 0;
  tm_isdst = false;
}

sunday-Valid : Valid sunday
sunday-Valid = record {
  sec = omega arith;
  minute = omega arith;
  hour = omega arith;
  mday = omega arith;
  mon = omega arith;
  year = omega arith;
  wday = omega arith;
}

abbrev cache : TimeCache
cache = record {
  slot = 63;
  current = 63;
  current_msec = 0;
  cached_time = λ i. record { sec = 1; msec = 0; gmtoff = pos 0 };
  err_log_time = λ i. [];
  http_time = λ i. [];
  http_log_time = λ i. [];
}

-- Summer time in Berlin is two hours ahead of UTC, and `get_timezone` gives none.
berlin_summer : get_timezone (negsuc 3599) true ≡ pos 0
unfolding get_timezone
berlin_summer = refl

cache_time_update_lem_example :
    Updated cache (cache_time_update (pos 0) 784111777 5 sunday sunday cache)
cache_time_update_lem_example =
    cache_time_update_lem (pos 0) 784111777 5 sunday sunday cache sunday-Valid sunday-Valid
      (omega arith) (λ e. omega (arith, e))
