-- ===== src/Response/Writev.antt =====
-- A bucket is sent whole, each byte once and in order, however `writev` cuts it.
use meinheld.Base.{
  ℕ, suc, ◌-◌, ◌≤◌, ◌<◌, min, ◌≡◌, refl, sym, ap, ◌∙◌, inl, inr, true, List, [], ◌∷◌, ◌++◌,
  append_assoc, arith, ltb, ◌==◌, Bool-cases, length, take, drop, All, length-append, length-drop,
  take_all, drop_all, take-append-drop, drop-append-long, drop-append-short,
}
use mathlib.Core.Path.{subst}
use meinheld.Response.{
  Written, Bucket, Answer, room, again, failed, Status, ok, suspend, error, endless, bytes_of,
  advance, prepend, writev_bucket,
}

pub length-bytes_of-advance :
    (vs : List (List ℕ)) (w : ℕ)
    → w ≤ length (bytes_of vs)
    → (bytes_of (advance vs w).0 ≡ drop w (bytes_of vs)) × ((advance vs w).1 ≤ w)
unfolding advance bytes_of
length-bytes_of-advance [] w h = (sym (drop_all w [] (omega arith)), omega arith)
length-bytes_of-advance (v ∷ vs) w h = elim (Bool-cases (ltb (length v) w)) [
  | inl more ↦
      let r =
        length-bytes_of-advance vs (w - length v) (omega (arith, length-append v (bytes_of vs))) in
      rw more (r.0 ∙ sym (drop-append-long w v (bytes_of vs) (ground arith)), omega (arith, r.1))
  | inr last ↦ rw last (sym (drop-append-short w v (bytes_of vs) (ground arith)), omega arith)
]

-- What a call with this result leaves of a bucket that holds `all`: success has sent it,
-- suspension and failure a first part, and the bucket still holds the rest. The call returns.
abbrev pub SentAs : Status → List ℕ → Written → Type 0
SentAs ok all r = (r.sent ≡ all) × (r.bucket.sended ≡ true)
SentAs suspend all r = r.sent ++ bytes_of r.bucket.iov ≡ all
SentAs error all r = r.sent ++ bytes_of r.bucket.iov ≡ all
SentAs endless all r = ⊥

SentAs-prepend :
    (s : Status) (now later : List ℕ) (r : Written)
    → SentAs s later r
    → SentAs s (now ++ later) (prepend now r)
unfolding prepend
SentAs-prepend ok now later r h = (ap (λ t. now ++ t) (h.0), h.1)
SentAs-prepend suspend now later r h = rw (append_assoc now r.sent (bytes_of r.bucket.iov), h) refl
SentAs-prepend error now later r h = rw (append_assoc now r.sent (bytes_of r.bucket.iov), h) refl
SentAs-prepend endless now later r h = h

-- However the kernel cuts the writes, if `writev_bucket` returns STATUS_OK for a bucket whose
-- `total` did not wrap, every byte was sent once and in order; if it suspends or fails, what was
-- sent and what the bucket still holds are together the bucket's bytes, in order.
pub writev_bucket-Sent :
    (answers : List Answer) (b : Bucket)
    → length (bytes_of b.iov) ≤ b.total
    → SentAs (writev_bucket answers b).status (bytes_of b.iov) (writev_bucket answers b)
unfolding writev_bucket prepend
writev_bucket-Sent [] b ht = refl
writev_bucket-Sent (again ∷ answers) b ht = refl
writev_bucket-Sent (failed ∷ answers) b ht = refl
writev_bucket-Sent (room k ∷ answers) b ht =
    let w = min (suc k) (length (bytes_of b.iov)) in
    let a = length-bytes_of-advance b.iov w (omega arith) in
    elim (Bool-cases (w == 0)) [
      | inl none_left ↦ rw none_left (take_all w (bytes_of b.iov) (ground arith), refl)
      | inr some_left ↦ elim (Bool-cases (ltb w b.total)) [
        | inl more ↦
            let next = record b {
              iov = (advance b.iov w).0;
              total = b.total - (advance b.iov w).1;
            } in
            let n : length (bytes_of next.iov) ≡ length (bytes_of b.iov) - w =
              ap length (a.0) ∙ length-drop w (bytes_of b.iov) in
            let rest = writev_bucket-Sent answers next (omega (arith, n, a.1)) in
            let split : take w (bytes_of b.iov) ++ bytes_of next.iov ≡ bytes_of b.iov =
              ap (λ t. take w (bytes_of b.iov) ++ t) (a.0) ∙ take-append-drop w (bytes_of b.iov) in
            let r = writev_bucket answers next in
            rw (some_left, more)
              (subst (λ all. SentAs r.status all (prepend (take w (bytes_of b.iov)) r)) split
                (SentAs-prepend r.status (take w (bytes_of b.iov)) (bytes_of next.iov) r rest))
        | inr all ↦ rw (some_left, all) (take_all w (bytes_of b.iov) (ground arith), refl)
      ]
    ]

-- The kernel's next call takes a byte at least.
abbrev pub Takes : Answer → Type 0
Takes (room n) = Unit
Takes again = ⊥
Takes failed = ⊥

-- Against a kernel that takes a byte or more in each call, `writev_bucket` returns STATUS_OK after
-- at most one call more than the bucket has bytes, if its `total` did not wrap.
pub writev_bucket-finishes :
    (answers : List Answer) (b : Bucket)
    → length (bytes_of b.iov) ≤ b.total
    → All Takes answers
    → length (bytes_of b.iov) < length answers
    → (writev_bucket answers b).status ≡ ok
unfolding writev_bucket prepend
writev_bucket-finishes [] b ht hk hl = absurd (omega arith)
writev_bucket-finishes (again ∷ answers) b ht hk hl = absurd (hk.0)
writev_bucket-finishes (failed ∷ answers) b ht hk hl = absurd (hk.0)
writev_bucket-finishes (room k ∷ answers) b ht hk hl =
    let w = min (suc k) (length (bytes_of b.iov)) in
    let a = length-bytes_of-advance b.iov w (omega arith) in
    elim (Bool-cases (w == 0)) [
      | inl none_left ↦ rw none_left refl
      | inr some_left ↦ elim (Bool-cases (ltb w b.total)) [
        | inl more ↦
            let next = record b {
              iov = (advance b.iov w).0;
              total = b.total - (advance b.iov w).1;
            } in
            let n : length (bytes_of next.iov) ≡ length (bytes_of b.iov) - w =
              ap length (a.0) ∙ length-drop w (bytes_of b.iov) in
            rw (some_left, more)
              (writev_bucket-finishes answers next (omega (arith, n, a.1)) (hk.1)
                (ground (arith, n)))
        | inr all ↦ rw (some_left, all) refl
      ]
    ]
