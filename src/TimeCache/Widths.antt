-- ===== src/TimeCache/Widths.antt =====
-- The texts of the time fit their slots.
use meinheld.Base.{
  if-Q, ℕ, zero, suc, ◌+◌, ◌-◌, ◌*◌, ◌/◌, ◌%◌, ◌≤◌, ◌<◌, ◌≡◌, refl, ap, ◌∙◌, ◌≢◌, List, [], ◌∷◌,
  ◌++◌, arith, ◌==◌, if◌then◌else◌, ==_iff, length, replicate, All, length-append, codes,
}
use meinheld.Base.Int.{ℤ}
use meinheld.Response.Client.{dec_digits}
use meinheld.FreeList.{put}
use meinheld.TimeCache.{
  Tm, TimeCache, nth, week, months, pad, two, four, clock, format_http_time, format_err_log_time,
  cache_time_update, time_slots,
}

div_less : (n m : ℕ) → n < 10 * m → n / 10 < m
div_less n m e = omega (arith, e)

lengths-append : (s t : List ℕ) (a b : ℕ) → length s ≡ a → length t ≡ b → length (s ++ t) ≡ a + b
lengths-append s t a b e f = omega (arith, length-append s t, e, f)

-- The least number with `k + 2` digits
abbrev pub above : ℕ → ℕ
above zero = 10
above (suc k) = 10 * above k

length-dec_digits : (k fuel n : ℕ) → n < above k → length (dec_digits fuel n) ≤ suc k
unfolding dec_digits
length-dec_digits k zero n e = omega arith
length-dec_digits zero (suc fuel) n e = ground (arith, e)
length-dec_digits (suc k) (suc fuel) n e = ground (
  arith,
  length-append (dec_digits fuel (n / 10)) ((n % 10 + 48) ∷ []),
  length-dec_digits k fuel (n / 10) (div_less n (above k) e),
)

length-replicate : (n c : ℕ) → length (replicate n c) ≡ n
length-replicate zero c = refl
length-replicate (suc n) c = ap suc (length-replicate n c)

length-pad : (c width : ℕ) (s : List ℕ) → length s ≤ width → length (pad c width s) ≡ width
unfolding pad
length-pad c width s e = omega (
  arith,
  length-append (replicate (width - length s) c) s,
  length-replicate (width - length s) c,
  e,
)

length-two : (n : ℕ) → n < 100 → length (two n) ≡ 2
unfolding two
length-two n e = length-pad 48 2 _ (length-dec_digits 1 20 n e)

length-four : (n : ℕ) → n < 10000 → length (four n) ≡ 4
unfolding four
length-four n e = length-pad 32 4 _ (length-dec_digits 3 20 n e)

-- The ranges of the fields of a valid time in a year of at most four digits
pub record Valid (tm : Tm) : Type 0 where
  pub sec : tm.tm_sec ≤ 60
  pub minute : tm.tm_min < 60
  pub hour : tm.tm_hour < 24
  pub mday : tm.tm_mday ≤ 31
  pub mon : tm.tm_mon < 12
  pub year : tm.tm_year + 1900 < 10000
  pub wday : tm.tm_wday < 7

length-clock : (tm : Tm) → Valid tm → length (clock tm) ≡ 8
unfolding clock
length-clock tm v =
    lengths-append (two tm.tm_hour) _ 2 6 (length-two tm.tm_hour (omega (arith, v.hour))) (
      ap suc (
        lengths-append (two tm.tm_min) _ 2 3 (length-two tm.tm_min (omega (arith, v.minute)))
          (ap suc (length-two tm.tm_sec (omega (arith, v.sec))))))

length-nth :
    (xs : List (List ℕ)) (i : ℕ)
    → All (λ x. length x ≡ 3) xs
    → i < length xs
    → length (nth xs i) ≡ 3
unfolding nth
length-nth [] i a e = absurd (omega (arith, e))
length-nth (x ∷ xs) zero a e = a.0
length-nth (x ∷ xs) (suc i) a e = length-nth xs i a.1 (omega (arith, e))

length-week : (i : ℕ) → i < 7 → length (nth week i) ≡ 3
length-week i e = length-nth week i (refl, (refl, (refl, (refl, (refl, (refl, (refl, tt))))))) e

length-months : (i : ℕ) → i < 12 → length (nth months i) ≡ 3
length-months i e =
    length-nth months i
      (
        refl,
        (refl, (refl, (refl, (refl, (refl, (refl, (refl, (refl, (refl, (refl, (refl, tt))))))))))),
      )
      e

length-format_http_time : (gmt : Tm) → Valid gmt → length (format_http_time gmt) ≡ 29
unfolding format_http_time
length-format_http_time gmt v =
    lengths-append (nth week gmt.tm_wday) _ 3 26 (length-week gmt.tm_wday v.wday) (
      ap (λ n. suc (suc n))
        (lengths-append (two gmt.tm_mday) _ 2 22 (length-two gmt.tm_mday (omega (arith, v.mday))) (
          ap suc (
            lengths-append (nth months gmt.tm_mon) _ 3 18 (length-months gmt.tm_mon v.mon) (
              ap suc (
                lengths-append (four (gmt.tm_year + 1900)) _ 4 13 (length-four _ v.year) (
                  ap suc
                    (lengths-append (clock gmt) (codes " GMT") 8 4 (length-clock gmt v) refl))))))))

length-format_err_log_time : (p : Tm) → Valid p → length (format_err_log_time p) ≡ 19
unfolding format_err_log_time
length-format_err_log_time p v =
    lengths-append (four (p.tm_year + 1900)) _ 4 15 (length-four _ v.year) (
      ap suc (
        lengths-append (two (p.tm_mon + 1)) _ 2 12 (length-two _ (omega (arith, v.mon))) (
          ap suc (
            lengths-append (two p.tm_mday) _ 2 9 (length-two _ (omega (arith, v.mday)))
              (ap suc (length-clock p v))))))

-- The text of `http_time` in a slot
abbrev pub current_http_time : TimeCache → List ℕ
current_http_time c = c.http_time c.current

-- What an update to the next slot leaves
abbrev pub Updated : TimeCache → TimeCache → Type 0
Updated c d =
    (d.slot < time_slots)
    × (d.current ≡ d.slot)
    × (length (current_http_time d) ≡ 29)
    × (length (d.err_log_time d.current) ≡ 19)
    × (d.slot ≢ c.slot)
    × ((i : ℕ)
        → d.slot ≢ i
        → (d.http_time i ≡ c.http_time i)
          × (d.http_log_time i ≡ c.http_log_time i)
          × (d.err_log_time i ≡ c.err_log_time i))

abbrev next : ℕ → ℕ
next slot = if slot == time_slots - 1 then 0 else slot + 1

next_less : (slot : ℕ) → slot < time_slots → next slot < time_slots
next_less slot e = ground (arith, e)

next_other : (slot : ℕ) → next slot ≢ slot
next_other slot = ground arith

put_self : (f : ℕ → List ℕ) (i : ℕ) (a : List ℕ) → put f i a i ≡ a
put_self f i a = ground arith

put_other : (f : ℕ → List ℕ) (i j : ℕ) (a : List ℕ) → i ≢ j → put f i a j ≡ f j
put_other f i j a e = ground (arith, e)

-- When the second of the current slot is over, an update goes to another of the 64 slots. The
-- response's date that it writes has 29 bytes and the error log's time 19, as many as their places
-- have, less the terminator. The three texts of every other slot stay, those of the slot that was in
-- use before among them. The times must be valid, in a year of at most four digits.
pub cache_time_update_lem :
    (timezone : ℤ) (sec usec : ℕ) (gmt p : Tm) (c : TimeCache)
    → Valid gmt
    → Valid p
    → c.slot < time_slots
    → (c.cached_time c.slot).sec ≢ sec
    → Updated c (cache_time_update timezone sec usec gmt p c)
unfolding cache_time_update
cache_time_update_lem timezone sec usec gmt p c vg vp fits later =
    if-Q (Updated c) ((c.cached_time c.slot).sec == sec) _ _
      (λ e. absurd (later ((==_iff _ sec).0 e)))
      (λ e. (
        next_less c.slot fits,
        refl,
        ap length (put_self c.http_time (next c.slot) (format_http_time gmt))
            ∙ length-format_http_time gmt vg,
        ap length (put_self c.err_log_time (next c.slot) (format_err_log_time p))
            ∙ length-format_err_log_time p vp,
        next_other c.slot,
        λ i other. (
          put_other c.http_time (next c.slot) i _ other,
          put_other c.http_log_time (next c.slot) i _ other,
          put_other c.err_log_time (next c.slot) i _ other,
        ),
      ))
