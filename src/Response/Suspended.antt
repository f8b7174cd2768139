-- ===== src/Response/Suspended.antt =====
-- meinheld/server/response.c: what `writev_bucket` does with the answers that come later.
use meinheld.Base.{
  ℕ, suc, ◌-◌, min, ◌≡◌, refl, sym, ap, ◌∙◌, Bool, true, false, List, [], ◌∷◌, ◌++◌, append_assoc,
  ltb, ◌==◌, if◌then◌else◌, length, take, All,
}
use meinheld.Response.{
  Bucket, Answer, room, again, failed, ok, suspend, Written, prepend, advance, writev_bucket,
  bytes_of,
}
use meinheld.Response.Writev.{Takes}

-- The two tests of the loop of `writev_bucket`
abbrev pub tested : Bool → Bool → List ℕ → Written → Written → Written
tested none_left more sent finished rest =
    if none_left then finished else if more then prepend sent rest else finished

-- A call that ran out of answers goes on, with the answers to come, where it stopped.
abbrev pub goes_on : List Answer → Written → Written
unfolding prepend
goes_on ys r = prepend r.sent (writev_bucket ys r.bucket)

tested-suspended :
    (ys : List Answer) (none_left more : Bool) (sent : List ℕ) (f f' r r' : Written)
    → f.status ≡ ok
    → (r.status ≡ suspend → r' ≡ goes_on ys r)
    → (tested none_left more sent f r).status ≡ suspend
    → tested none_left more sent f' r' ≡ goes_on ys (tested none_left more sent f r)
unfolding prepend
tested-suspended ys true more sent f f' r r' fine same e = absurd (cc (fine, e))
tested-suspended ys false false sent f f' r r' fine same e = absurd (cc (fine, e))
tested-suspended ys false true sent f f' r r' fine same e =
    ap (prepend sent) (same e)
    ∙ ap (λ t. record (writev_bucket ys r.bucket) { sent = t })
        (sym (append_assoc sent r.sent (writev_bucket ys r.bucket).sent))

pub writev_bucket-suspended :
    (xs ys : List Answer) (b : Bucket)
    → All Takes xs
    → (writev_bucket xs b).status ≡ suspend
    → writev_bucket (xs ++ ys) b ≡ goes_on ys (writev_bucket xs b)
unfolding writev_bucket prepend
writev_bucket-suspended [] ys b hk e = refl
writev_bucket-suspended (again ∷ xs) ys b hk e = absurd (hk.0)
writev_bucket-suspended (failed ∷ xs) ys b hk e = absurd (hk.0)
writev_bucket-suspended (room n ∷ xs) ys b hk e =
    let w = min (suc n) (length (bytes_of b.iov)) in
    let next = record b { iov = (advance b.iov w).0; total = b.total - (advance b.iov w).1 } in
    tested-suspended ys (w == 0) (ltb w b.total) (take w (bytes_of b.iov)) _ _
      (writev_bucket xs next) (writev_bucket (xs ++ ys) next) refl
      (writev_bucket-suspended xs ys next hk.1) e

-- A call that succeeds does not read the answers to come.
abbrev pub with_more : List Answer → Written → Written
with_more ys r = record r { answers = r.answers ++ ys }

tested-ok :
    (ys : List Answer) (none_left more : Bool) (sent : List ℕ) (f r r' : Written)
    → (r.status ≡ ok → r' ≡ with_more ys r)
    → (tested none_left more sent f r).status ≡ ok
    → tested none_left more sent (with_more ys f) r' ≡ with_more ys (tested none_left more sent f r)
unfolding prepend
tested-ok ys true more sent f r r' same e = refl
tested-ok ys false false sent f r r' same e = refl
tested-ok ys false true sent f r r' same e = ap (prepend sent) (same e)

pub writev_bucket-ok :
    (xs ys : List Answer) (b : Bucket)
    → All Takes xs
    → (writev_bucket xs b).status ≡ ok
    → writev_bucket (xs ++ ys) b ≡ with_more ys (writev_bucket xs b)
unfolding writev_bucket prepend
writev_bucket-ok [] ys b hk e = absurd (cc e)
writev_bucket-ok (again ∷ xs) ys b hk e = absurd (hk.0)
writev_bucket-ok (failed ∷ xs) ys b hk e = absurd (hk.0)
writev_bucket-ok (room n ∷ xs) ys b hk e =
    let w = min (suc n) (length (bytes_of b.iov)) in
    let next = record b { iov = (advance b.iov w).0; total = b.total - (advance b.iov w).1 } in
    tested-ok ys (w == 0) (ltb w b.total) (take w (bytes_of b.iov)) _ (writev_bucket xs next)
      (writev_bucket (xs ++ ys) next) (writev_bucket-ok xs ys next hk.1) e
