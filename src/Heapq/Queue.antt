-- ===== src/Heapq/Queue.antt =====
-- The queue's invariant, and what `heappush`, `heappop` and `destroy_queue` do.
use mathlib.Core.List.{Perm}
use mathlib.Core.List.Perm
use native.Mathlib.Bridge.{le_prop}
use mathlib.Core.Path.{subst}
use mathlib.Core.Option.{some-injective}
use meinheld.Base.{
  ℕ, zero, suc, ◌+◌, ◌-◌, ◌^◌, ◌≤◌, ◌<◌, ◌≡◌, refl, sym, inl, inr, Bool, true, false, not, ◌&&◌,
  Option, none, some, List, [], ◌∷◌, ◌++◌, arith, ltb, leb, ◌==◌, Bool-cases, length, set, take,
  All, length-append, length-set, length-take, get_or-set, set-perm, All-by_index, All-perm,
  length-perm, get_or-append, get_or-take, concat-perm, take-append-last,
}
use meinheld.Heapq.{
  sift_down, sift_up, Heapq, u32, slot, parent, init_queue, heappush, heappop, add_popped, pop_all,
}
use meinheld.Heapq.Order.{key, IsHeap, Hole}
use meinheld.Heapq.Sift.{Settled, sift_down-Settled, sift_up-Settled}

module _ (seconds : ℕ → ℕ) where
  pub record IsValid (q : Heapq) : Type 0 where
    pub counted : q.size ≡ length q.heap
    pub positive : 0 < q.max
    pub fits : q.size ≤ q.max
    pub bounded : q.max ≤ 2 ^ 31
    pub order : IsHeap seconds q.heap

  pub init_queue-IsValid : {q : Heapq} → init_queue true ≡ some q → IsValid q
  unfolding init_queue
  init_queue-IsValid {q} e = subst IsValid (some-injective _ _ e) (record {
    counted = refl;
    positive = omega arith;
    fits = omega arith;
    bounded = omega arith;
    order = λ c a b. absurd (omega arith);
  })

  pub root_least_below :
      (k : ℕ) (p : List ℕ) (i : ℕ)
      → IsHeap seconds p
      → i < k
      → i < length p
      → key seconds p 0 ≤ key seconds p i
  root_least_below zero p i h f b = absurd (omega arith)
  root_least_below (suc k) p i h f b = ground (arith, h i, root_least_below k p (parent i) h)

  append-Hole : (p : List ℕ) (x : ℕ) → IsHeap seconds p → Hole seconds (p ++ x ∷ []) (length p)
  append-Hole p x h =
      let size = length-append p (x ∷ []) in
      record {
        inside = omega arith;
        edges = λ c a b d e.
            ground
              (arith, h c, get_or-append p (x ∷ []) c 0, get_or-append p (x ∷ []) (parent c) 0);
        bridged = λ c a b d e. absurd (omega arith);
      }

  -- What a push leaves.
  abbrev pub Pushed : Heapq → ℕ → Bool × Heapq → Type 0
  Pushed q x (true, q') = IsValid q' × Perm q'.heap (x ∷ q.heap)
  Pushed q x (false, q') = (q' ≡ q) × (q.size ≡ q.max)

  -- On a valid queue of fewer than 2^30 timers, `heappush` succeeds with a valid queue of the old
  -- timers and the new one, or fails and leaves the queue as it was, which happens only when it was
  -- full.
  pub heappush-Pushed :
      (has_memory : Bool) (q : Heapq) (x : ℕ)
      → IsValid q
      → q.size < 2 ^ 30
      → Pushed q x (heappush seconds has_memory q x)
  unfolding heappush
  heappush-Pushed m q x v b = elim (Bool-cases (leb q.max q.size && not m)) [
    | inl refused ↦ rw refused (refl, ground arith)
    | inr pushed ↦
        rw (pushed, last)
          (
            record {
              counted = omega (arith, s.2, size);
              positive = ground arith;
              fits = ground arith;
              bounded = ground arith;
              order = s.0;
            },
            Perm.trans s.1 (concat-perm q.heap x),
          )
  ]
    where
      open v use {counted, positive, fits, bounded, order}

      size : length (q.heap ++ x ∷ []) ≡ length q.heap + 1
      size = length-append q.heap (x ∷ [])

      last : u32 (q.size + 1) - 1 ≡ length q.heap
      last = omega arith

      s :
          Settled seconds
            (q.heap ++ x ∷ [])
            (sift_down seconds (q.heap ++ x ∷ []) 0 (length q.heap))
      s =
          sift_down-Settled seconds (q.heap ++ x ∷ []) (length q.heap) (append-Hole q.heap x order)
            (λ c a d e. absurd (omega (arith, size)))

  -- What a pop leaves.
  abbrev pub Popped : Heapq → Option ℕ × Heapq → Type 0
  Popped q (none, q') = (q.size ≡ 0) × (q' ≡ q)
  Popped q (some t, q') =
      IsValid q' × Perm (t ∷ q'.heap) q.heap × All (λ u. seconds t ≤ seconds u) q.heap

  last_first : List ℕ → ℕ → List ℕ
  last_first p n = set (take n p) 0 (slot p n)

  length-last_first : (p : List ℕ) (n : ℕ) → length p ≡ suc n → length (last_first p n) ≡ n
  unfolding last_first
  length-last_first p n size = omega (arith, length-take n p, length-set (take n p) 0 (slot p n))

  module _ (p : List ℕ) (n : ℕ) (size : length p ≡ suc n) (h : IsHeap seconds p) where
    first_least : All (λ u. seconds (slot p 0) ≤ seconds u) p
    first_least = All-by_index _ 0 p (λ i b. root_least_below (suc i) p i h (omega arith) b)

    rest_length : length (take n p) ≡ n
    rest_length = omega (arith, length-take n p)

    last_first-Hole : 0 < n → Hole seconds (last_first p n) 0
    unfolding last_first
    last_first-Hole some_left =
        let e = length-set (take n p) 0 (slot p n) in
        record {
          inside = omega (arith, rest_length);
          edges = λ c a b d f.
              let old =
                λ (j : ℕ). get_or-set (take n p) 0 j (slot p n) 0 (omega (arith, rest_length)) in
              ground (
                arith,
                rest_length,
                old c,
                old (parent c),
                get_or-take n p c 0,
                get_or-take n p (parent c) 0,
                h c,
              );
          bridged = λ c a b d f. absurd (omega arith);
        }

    popped-perm : (r : List ℕ) → 0 < n → Perm r (last_first p n) → Perm (slot (take n p) 0 ∷ r) p
    unfolding last_first
    popped-perm r some_left s =
        let trade = set-perm (take n p) 0 (slot p n) 0 (omega (arith, rest_length)) in
        let back = Perm.symm (concat-perm (take n p) (slot p n)) in
        rw (take-append-last n p 0 size) at (Perm.trans (Perm.cons _ s) (Perm.trans trade back))

  resettled :
      (q : Heapq)
      → IsValid q
      → 0 < q.size - 1
      → Settled seconds
          (last_first q.heap (q.size - 1))
          (sift_up seconds (last_first q.heap (q.size - 1)) (q.size - 1) 0)
  resettled q v more =
      let n = q.size - 1 in
      let size : length q.heap ≡ suc n = omega arith in
      let lf = length-last_first q.heap n size in
      subst (λ k. Settled seconds (last_first q.heap n) (sift_up seconds (last_first q.heap n) k 0))
        lf
        (sift_up-Settled seconds (last_first q.heap n) (omega (arith, lf))
          (last_first-Hole q.heap n size v.order more))

  -- On a valid queue, `heappop` gives NULL and changes nothing if the queue is empty; otherwise it
  -- removes one timer, none of the queue's timers is earlier, and the rest is a valid queue.
  pub heappop-Popped : (q : Heapq) → IsValid q → Popped q (heappop seconds q)
  unfolding heappop last_first
  heappop-Popped q v = elim (Bool-cases (q.size == 0)) [
    | inl empty ↦ rw empty (ground arith, refl)
    | inr full ↦ rw full (elim (Bool-cases (ltb 0 (q.size - 1))) [
      | inl more ↦ rw more (
          let n = q.size - 1 in
          let size : length q.heap ≡ suc n = ground (arith, v.counted) in
          let left : 0 < n = ground arith in
          let s = resettled q v left in
          let lf = length-last_first q.heap n size in
          let same = get_or-take n q.heap 0 0 left in
          (
            record {
              counted = omega (arith, s.2, lf);
              positive = v.positive;
              fits = omega arith;
              bounded = v.bounded;
              order = s.0;
            },
            popped-perm q.heap n size v.order _ left s.1,
            rw same (first_least q.heap n size v.order),
          ))
      | inr one ↦ rw one (
          let n = q.size - 1 in
          let size : length q.heap ≡ suc n = ground (arith, v.counted) in
          let none_left : n ≡ 0 = ground arith in
          let shorter = rest_length q.heap n size v.order in
          (
            record {
              counted = sym shorter;
              positive = v.positive;
              fits = omega arith;
              bounded = v.bounded;
              order = λ c a d. absurd (omega (arith, shorter));
            },
            rw (take-append-last n q.heap 0 size) at
                (Perm.symm (concat-perm (take n q.heap) (slot q.heap n))),
            rw none_left (first_least q.heap n size v.order),
          ))
    ])
  ]

  -- Later timers come later.
  abbrev pub Ascending : List ℕ → Type 0
  Ascending [] = Unit
  Ascending (t ∷ ts) = All (λ u. seconds t ≤ seconds u) ts × Ascending ts

  none_left : (p : List ℕ) → length p ≡ 0 → Ascending [] × Perm [] p
  none_left [] e = (tt, Perm.refl [])
  none_left (x ∷ p) e = absurd (omega arith)

  drained :
      (q : Heapq) (o : Option ℕ) (q' : Heapq) (rest : List ℕ)
      → Popped q (o, q')
      → 0 < q.size
      → (IsValid q' → length q.heap ≡ length q'.heap + 1 → Ascending rest × Perm rest q'.heap)
      → Ascending (add_popped o rest) × Perm (add_popped o rest) q.heap
  drained q none q' rest h b ih = absurd (omega arith)
  drained q (some t) q' rest h b ih =
      let r = ih h.0 (omega (arith, length-perm h.1)) in
      let least = All-perm _ (λ u. le_prop) (Perm.symm h.1) h.2 in
      ((All-perm _ (λ u. le_prop) (Perm.symm r.1) least.1, r.0), Perm.trans (Perm.cons t r.1) h.1)

  -- On a valid queue, popping while timers are left, with as much fuel as there are timers, gives all
  -- of them, once each, in the order of their times.
  pub pop_all-Ascending :
      (fuel : ℕ) (q : Heapq)
      → IsValid q
      → q.size ≤ fuel
      → Ascending (pop_all seconds fuel q) × Perm (pop_all seconds fuel q) q.heap
  unfolding pop_all
  pop_all-Ascending zero q v f = none_left q.heap (omega arith)
  pop_all-Ascending (suc fuel) q v f =
      let (o, q') = heappop seconds q in
      elim (Bool-cases (ltb 0 q.size)) [
        | inl more ↦ rw more (
            drained q o q' (pop_all seconds fuel q') (heappop-Popped q v) (ground arith)
              (λ v' e. pop_all-Ascending fuel q' v' (omega (arith, v.counted, v'.counted))))
        | inr empty ↦ rw empty (none_left q.heap (ground (arith, v.counted)))
      ]
