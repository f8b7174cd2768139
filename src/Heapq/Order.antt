-- ===== src/Heapq/Order.antt =====
-- The heap order, and what a hole leaves of it.
use meinheld.Base.{
  ℕ, ◌+◌, ◌*◌, ◌^◌, ◌≤◌, ◌<◌, ◌≡◌, ◌≢◌, ◌⊎◌, List, arith, ◌==◌, if◌then◌else◌, length, set,
  length-set, get_or-set,
}
use meinheld.Heapq.{u32, slot, parent, earlier_child}

module _ (seconds : ℕ → ℕ) where
  abbrev pub key : List ℕ → ℕ → ℕ
  key p i = seconds (slot p i)

  -- No timer is earlier than its parent.
  abbrev pub IsHeap : List ℕ → Type 0
  IsHeap p = (c : ℕ) → 0 < c → c < length p → key p (parent c) ≤ key p c

  -- All edges but those of `pos` are in order, and so are those across it.
  pub record Hole (p : List ℕ) (pos : ℕ) : Type 0 where
    pub inside : pos < length p
    pub edges :
        (c : ℕ) → 0 < c → c < length p → c ≢ pos → parent c ≢ pos → key p (parent c) ≤ key p c
    pub bridged :
        (c : ℕ) → 0 < c → c < length p → parent c ≡ pos → 0 < pos → key p (parent pos) ≤ key p c

  -- The children of the hole are not earlier than the item that is to fill it.
  abbrev pub Above : List ℕ → ℕ → ℕ → Type 0
  Above p pos item = (c : ℕ) → 0 < c → c < length p → parent c ≡ pos → seconds item ≤ key p c

  module _ (p : List ℕ) (pos : ℕ) (h : Hole p pos) where
    after : (v j : ℕ) → slot (set p pos v) j ≡ (if pos == j then v else slot p j)
    after v j = get_or-set p pos j v 0 h.inside

    -- What the hole holds does not matter.
    pub set-Hole : (v : ℕ) → Hole (set p pos v) pos
    set-Hole v =
        let size = length-set p pos v in
        record {
          inside = omega arith;
          edges = λ c a b d e. ground (arith, after v c, after v (parent c), h.edges c);
          bridged = λ c a b d e. ground (arith, after v c, after v (parent pos), h.bridged c);
        }

    pub rise-Hole : 0 < pos → Hole (set p pos (slot p (parent pos))) (parent pos)
    rise-Hole up =
        let v = slot p (parent pos) in
        let size = length-set p pos v in
        record {
          inside = omega arith;
          edges =
              λ c a b d e. ground (arith, after v c, after v (parent c), h.edges c, h.bridged c);
          bridged = λ c a b d e.
              ground
                (arith, after v c, after v (parent (parent pos)), h.edges (parent pos), h.edges c);
        }

    pub rise-Above :
        (item : ℕ)
        → 0 < pos
        → seconds item < key p (parent pos)
        → Above (set p pos (slot p (parent pos))) (parent pos) item
    rise-Above item up early c a b d =
        let v = slot p (parent pos) in
        let size = length-set p pos v in ground (arith, after v c, h.edges c)

    pub fill-IsHeap :
        (item : ℕ)
        → Above p pos item
        → (pos ≡ 0) ⊎ (key p (parent pos) ≤ seconds item)
        → IsHeap (set p pos item)
    fill-IsHeap item low top c a b =
        let size = length-set p pos item in
        ground (arith, after item c, after item (parent c), h.edges c, low c)

    -- `m` is a child of the hole, and no other child is earlier.
    pub sink-Hole :
        (m : ℕ)
        → m < length p
        → (m ≡ 2 * pos + 1) ⊎ (m ≡ 2 * pos + 2)
        → ((c : ℕ) → 0 < c → c < length p → parent c ≡ pos → key p m ≤ key p c)
        → Hole (set p pos (slot p m)) m
    sink-Hole m inside child least =
        let v = slot p m in
        let size = length-set p pos v in
        record {
          inside = omega arith;
          edges = λ c a b d e.
              ground (arith, after v c, after v (parent c), h.edges c, h.bridged m, least c);
          bridged = λ c a b d e. ground (arith, after v c, after v (parent m), h.edges c);
        }

  pub earlier_child-least :
      (p : List ℕ) (pos : ℕ)
      → length p < 2 ^ 31
      → 2 * pos + 1 < length p
      → let m = earlier_child seconds p (length p) (2 * pos + 1) in
        (m < length p)
        × ((m ≡ 2 * pos + 1) ⊎ (m ≡ 2 * pos + 2))
        × ((c : ℕ) → 0 < c → c < length p → parent c ≡ pos → key p m ≤ key p c)
  unfolding earlier_child
  earlier_child-least p pos h k =
      let e : u32 (2 * pos + 1 + 1) ≡ 2 * pos + 2 = omega arith in
      rw e (
        ground arith,
        ground arith,
        λ c a b d. let side : (c ≡ 2 * pos + 1) ⊎ (c ≡ 2 * pos + 2) = omega arith in ground arith,
      )
