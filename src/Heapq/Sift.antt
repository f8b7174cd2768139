-- ===== src/Heapq/Sift.antt =====
-- The two sifting loops restore the heap order, and keep the timers.
use mathlib.Core.List.{Perm}
use mathlib.Core.List.Perm
use meinheld.Base.{
  ℕ, zero, suc, ◌+◌, ◌-◌, ◌*◌, ◌^◌, ◌≤◌, ◌<◌, ◌≡◌, refl, sym, inl, inr, List, arith, ltb,
  Bool-cases, length, set, length-set, move-perm, set-get_or,
}
use meinheld.Heapq.{
  u32, slot, parent, sift_down_loop, sift_down, earlier_child, sift_up_loop, sift_up,
}
use meinheld.Heapq.Order.{
  key, IsHeap, Hole, Above, rise-Hole, rise-Above, fill-IsHeap, sink-Hole, set-Hole,
  earlier_child-least,
}

module _ (seconds : ℕ → ℕ) where
  abbrev pub Settled : List ℕ → List ℕ → Type 0
  Settled p r = IsHeap seconds r × Perm r p × (length r ≡ length p)

  pub sift_down_loop-Settled :
      (fuel : ℕ) (p : List ℕ) (item pos : ℕ)
      → pos < fuel
      → Hole seconds p pos
      → Above seconds p pos item
      → let (p', pos') = sift_down_loop seconds fuel p item 0 pos in
        Settled (set p pos item) (set p' pos' item)
  unfolding sift_down_loop
  sift_down_loop-Settled zero p item pos f h low = absurd (omega arith)
  sift_down_loop-Settled (suc fuel) p item pos f h low = elim (Bool-cases (ltb 0 pos)) [
    | inl up ↦ rw up (elim (Bool-cases (ltb (seconds item) (key seconds p (parent pos)))) [
      | inl early ↦ rw early (
          let pos_up : 0 < pos = ground arith in
          let v = slot p (parent pos) in
          let r =
            sift_down_loop-Settled fuel (set p pos v) item (parent pos) (omega arith)
              (rise-Hole seconds p pos h pos_up)
              (rise-Above seconds p pos h item pos_up (ground arith)) in
          (
            r.0,
            Perm.trans r.1 (
                move-perm p pos (parent pos) item 0 h.inside (omega (arith, h.inside))
                  (omega arith)),
            omega (
              arith,
              r.2,
              length-set (set p pos v) (parent pos) item,
              length-set p pos v,
              length-set p pos item,
            ),
          ))
      | inr late ↦
          rw late (fill-IsHeap seconds p pos h item low (inr (ground arith)), Perm.refl _, refl)
    ])
    | inr top ↦
        rw top (fill-IsHeap seconds p pos h item low (inl (ground arith)), Perm.refl _, refl)
  ]

  pub sift_down-Settled :
      (p : List ℕ) (pos : ℕ)
      → Hole seconds p pos
      → Above seconds p pos (slot p pos)
      → Settled p (sift_down seconds p 0 pos)
  unfolding sift_down
  sift_down-Settled p pos h low =
      rw (set-get_or p pos 0) at
        (sift_down_loop-Settled (pos + 1) p (slot p pos) pos (omega arith) h low)

  -- The hole has come down to a leaf, and the other timers are those that were there.
  record AtLeaf (p : List ℕ) (pos item : ℕ) (p' : List ℕ) (pos' : ℕ) : Type 0 where
    hole : Hole seconds p' pos'
    leaf : length p' ≤ 2 * pos' + 1
    kept : Perm (set p' pos' item) (set p pos item)
    same_length : length p' ≡ length p

  sift_up_loop-AtLeaf :
      (fuel : ℕ) (p : List ℕ) (size pos item : ℕ)
      → size ≡ length p
      → length p - pos < fuel
      → length p < 2 ^ 31
      → Hole seconds p pos
      → let (p', pos') = sift_up_loop seconds fuel p size pos in AtLeaf p pos item p' pos'
  unfolding sift_up_loop
  sift_up_loop-AtLeaf zero p size pos item e f b h = absurd (omega arith)
  sift_up_loop-AtLeaf (suc fuel) p size pos item e f b h =
      let child_place : u32 (u32 (pos * 2) + 1) ≡ 2 * pos + 1 = omega (arith, h.inside) in
      rw (child_place, e)
        (elim (Bool-cases (ltb (2 * pos + 1) (length p))) [
          | inl down ↦ rw down (
              let m = earlier_child seconds p (length p) (2 * pos + 1) in
              let least = earlier_child-least seconds p pos b (ground arith) in
              let v = slot p m in
              let r =
                sift_up_loop-AtLeaf fuel (set p pos v) (length p) m item (sym (length-set p pos v))
                  (omega (arith, length-set p pos v, least.0, least.1))
                  (omega (arith, length-set p pos v))
                  (sink-Hole seconds p pos h m least.0 least.1 least.2) in
              record {
                hole = r.hole;
                leaf = r.leaf;
                kept =
                    Perm.trans r.kept
                      (move-perm p pos m item 0 h.inside least.0 (omega (arith, least.1)));
                same_length = omega (arith, r.same_length, length-set p pos v);
              })
          | inr leaf ↦
              rw leaf
                (record { hole = h; leaf = ground arith; kept = Perm.refl _; same_length = refl })
        ])

  pub sift_up-Settled :
      (p : List ℕ)
      → length p < 2 ^ 31
      → Hole seconds p 0
      → Settled p (sift_up seconds p (length p) 0)
  unfolding sift_up
  sift_up-Settled p b h =
      let item = slot p 0 in
      let r = sift_up_loop-AtLeaf (length p + 1) p (length p) 0 item refl (omega arith) b h in
      let (p', pos') = sift_up_loop seconds (length p + 1) p (length p) 0 in
      let s =
        sift_down-Settled (set p' pos' item) pos' (set-Hole seconds p' pos' r.hole item)
          (λ c a d e. absurd (omega (arith, r.leaf, length-set p' pos' item))) in
      (
        s.0,
        Perm.trans s.1 (rw (set-get_or p 0 0) at r.kept),
        omega (arith, s.2, r.same_length, length-set p' pos' item),
      )
