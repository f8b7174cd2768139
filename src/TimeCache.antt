-- ===== src/TimeCache.antt =====
-- meinheld/server/time_cache.c: the texts of the current time, kept in slots so that a text that is
-- in use is not written to at once.
pub mod Widths
mod Tests
use meinheld.Base.{
  ℕ, zero, suc, ◌+◌, ◌-◌, ◌*◌, ◌/◌, ◌%◌, ◌^◌, ◌≤◌, ◌<◌, min, max, ◌≡◌, refl, sym, ap, ◌∙◌, ◌≢◌, ◌↔◌,
  ◌⊎◌, inl, inr, Bool, true, false, not, ◌&&◌, ◌||◌, Option, none, some, List, [], ◌∷◌, ◌++◌,
  append-nil, append_assoc, arith, ltb, leb, ◌==◌, if◌then◌else◌, ==_iff, Bool-cases, Option-cases,
  length, get_elem?, get_or, set, take, drop, replicate, All, length-append, length-set,
  length-take, length-drop, take_all, drop_all, take-append, take-append-drop, take-take, drop-drop,
  get_or-set, set-perm, move-perm, set-get_or, set-set, All-append, All-by_index, All-perm,
  length-perm, get_or-append, get_or-take, concat-perm, take-append-last, codes, bytes_eq,
  bytes_eq_iff, take_until, to_upper, drop-append-long, drop-append-short,
}
use meinheld.Base.Int.{ℤ, pos, negsuc}
use meinheld.FreeList.{put}
use meinheld.Response.Client.{dec_digits}

abbrev pub time_slots : ℕ
time_slots = 64

-- `struct tm`, as `gmtime` and `localtime` give it
pub record Tm : Type 0 where
  pub tm_sec : ℕ
  pub tm_min : ℕ
  pub tm_hour : ℕ
  pub tm_mday : ℕ
  pub tm_mon : ℕ
  pub tm_year : ℕ
  pub tm_wday : ℕ
  pub tm_isdst : Bool

-- `cache_time_t`
pub record CacheTime : Type 0 where
  pub sec : ℕ
  pub msec : ℕ
  pub gmtoff : ℤ

-- The globals. The pointers to the current texts and time are those of a slot, `current`.
pub record TimeCache : Type 0 where
  pub slot : ℕ
  pub current : ℕ
  pub current_msec : ℕ
  pub cached_time : ℕ → CacheTime
  pub err_log_time : ℕ → List ℕ
  pub http_time : ℕ → List ℕ
  pub http_log_time : ℕ → List ℕ

unfoldable pub nth : List (List ℕ) → ℕ → List ℕ
nth [] i = []
nth (x ∷ xs) zero = x
nth (x ∷ xs) (suc i) = nth xs i

abbrev pub week : List (List ℕ)
week =
    codes "Sun"
    ∷ codes "Mon"
    ∷ codes "Tue"
    ∷ codes "Wed"
    ∷ codes "Thu"
    ∷ codes "Fri"
    ∷ codes "Sat"
    ∷ []

abbrev pub months : List (List ℕ)
months =
    codes "Jan"
    ∷ codes "Feb"
    ∷ codes "Mar"
    ∷ codes "Apr"
    ∷ codes "May"
    ∷ codes "Jun"
    ∷ codes "Jul"
    ∷ codes "Aug"
    ∷ codes "Sep"
    ∷ codes "Oct"
    ∷ codes "Nov"
    ∷ codes "Dec"
    ∷ []

-- A number in at least so many columns, after the given character
unfoldable pub pad : ℕ → ℕ → List ℕ → List ℕ
pad c width s = replicate (width - length s) c ++ s

-- `%02d` and `%4d`
unfoldable pub two : ℕ → List ℕ
unfolding pad
two n = pad 48 2 (dec_digits 20 n)

unfoldable pub four : ℕ → List ℕ
unfolding pad
four n = pad 32 4 (dec_digits 20 n)

-- The clock of a time, `hh:mm:ss`
unfoldable pub clock : Tm → List ℕ
unfolding two
clock tm = two tm.tm_hour ++ (codes ":" ++ (two tm.tm_min ++ (codes ":" ++ two tm.tm_sec)))

-- `"%s, %02d %s %4d %02d:%02d:%02d GMT"`
unfoldable pub format_http_time : Tm → List ℕ
unfolding two four clock
format_http_time gmt =
    nth week gmt.tm_wday
    ++ (codes ", "
        ++ (two gmt.tm_mday
            ++ (codes " "
                ++ (nth months gmt.tm_mon
                    ++ (codes " "
                        ++ (four (gmt.tm_year + 1900)
                            ++ (codes " " ++ (clock gmt ++ codes " GMT"))))))))

-- `"%4d/%02d/%02d %02d:%02d:%02d"`
unfoldable pub format_err_log_time : Tm → List ℕ
unfolding two four clock
format_err_log_time p =
    four (p.tm_year + 1900)
    ++ (codes "/"
        ++ (two (p.tm_mon + 1) ++ (codes "/" ++ (two p.tm_mday ++ (codes " " ++ clock p)))))

-- `get_timezone`: minutes, with C's `timezone`, the seconds west of UTC
unfoldable pub get_timezone : ℤ → Bool → ℤ
get_timezone timezone isdst = minutes (if isdst then plus timezone else timezone)
  where
    plus : ℤ → ℤ
    plus (pos n) = pos (n + 3600)
    plus (negsuc n) = if ltb n 3600 then pos (3600 - 1 - n) else negsuc (n - 3600)

    minutes : ℤ → ℤ
    minutes (pos n) = if n / 60 == 0 then pos 0 else negsuc (n / 60 - 1)
    minutes (negsuc n) = pos ((n + 1) / 60)

abbrev pub sign_of : ℤ → List ℕ
sign_of (pos n) = codes "+"
sign_of (negsuc n) = codes "-"

abbrev pub size_of : ℤ → ℕ
size_of (pos n) = n
size_of (negsuc n) = n + 1

-- `"%02d/%s/%d:%02d:%02d:%02d %c%02d%02d"`
unfoldable pub format_http_log_time : ℤ → Tm → List ℕ
unfolding two clock
format_http_log_time gmtoff p =
    two p.tm_mday
    ++ (codes "/"
        ++ (nth months p.tm_mon
            ++ (codes "/"
                ++ (dec_digits 20 (p.tm_year + 1900)
                    ++ (codes ":"
                        ++ (clock p
                            ++ (codes " "
                                ++ (sign_of gmtoff
                                    ++ (two (size_of gmtoff / 60)
                                        ++ two (size_of gmtoff % 60))))))))))

-- `cache_time_update`, with what `gettimeofday`, `gmtime` and `localtime` give
unfoldable pub cache_time_update : ℤ → ℕ → ℕ → Tm → Tm → TimeCache → TimeCache
cache_time_update timezone sec usec gmt p c =
    let msec = usec / 1000 in
    let now = record c { current_msec = sec * 1000 + msec } in
    let next = if c.slot == time_slots - 1 then 0 else c.slot + 1 in
    let gmtoff = get_timezone timezone p.tm_isdst in
    if (c.cached_time c.slot).sec == sec
    then record now {
      cached_time = put c.cached_time c.slot (record (c.cached_time c.slot) { msec = msec });
    }
    else record now {
      slot = next;
      current = next;
      cached_time = put c.cached_time next (record { sec = sec; msec = msec; gmtoff = gmtoff });
      http_time = put c.http_time next (format_http_time gmt);
      err_log_time = put c.err_log_time next (format_err_log_time p);
      http_log_time = put c.http_log_time next (format_http_log_time gmtoff p);
    }

-- `cache_time_init`, on globals that are zero
unfoldable pub cache_time_init : ℤ → ℕ → ℕ → Tm → Tm → TimeCache
unfolding cache_time_update
cache_time_init timezone sec usec gmt p = cache_time_update timezone sec usec gmt p (record {
  slot = 0;
  current = 0;
  current_msec = 0;
  cached_time = λ i. record { sec = 0; msec = 0; gmtoff = pos 0 };
  err_log_time = λ i. [];
  http_time = λ i. [];
  http_log_time = λ i. [];
})
