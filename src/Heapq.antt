-- ===== src/Heapq.antt =====
-- meinheld/server/heapq.c and heapq.h: the timers' priority queue, a binary heap in an array.
-- A timer is known by its pointer, a number, and `seconds` reads the field of the timer behind a
-- pointer: no function of this file writes it.
pub mod Order
pub mod Sift
pub mod Queue
mod Tests
use meinheld.Base.{
  ℕ, zero, suc, ◌+◌, ◌-◌, ◌*◌, ◌/◌, ◌%◌, ◌^◌, ◌≤◌, ◌<◌, min, max, ◌≡◌, refl, sym, ap, ◌∙◌, ◌≢◌, ◌↔◌,
  ◌⊎◌, inl, inr, Bool, true, false, not, ◌&&◌, ◌||◌, Option, none, some, List, [], ◌∷◌, ◌++◌,
  append-nil, append_assoc, arith, ltb, leb, ◌==◌, if◌then◌else◌, ==_iff, Bool-cases, Option-cases,
  length, get_elem?, get_or, set, take, drop, replicate, All, length-append, length-set,
  length-take, length-drop, take_all, drop_all, take-append, take-append-drop, take-take, drop-drop,
  get_or-set, set-perm,
}

-- `heapq_t`. `heap` are the first `size` slots of the array.
pub record Heapq : Type 0 where
  pub heap : List ℕ
  pub size : ℕ
  pub max : ℕ

abbrev pub queue_max : ℕ
queue_max = 1024 * 4

-- `uint32_t` arithmetic
abbrev pub u32 : ℕ → ℕ
u32 n = n % 2 ^ 32

-- The argument says whether both allocations succeed.
pub init_queue : Bool → Option Heapq
init_queue has_memory =
    if has_memory then some (record { heap = []; size = 0; max = queue_max }) else none

-- `p[i]`
abbrev pub slot : List ℕ → ℕ → ℕ
slot p i = get_or p i 0

abbrev pub parent : ℕ → ℕ
parent c = (c - 1) / 2

abbrev pub add_popped : Option ℕ → List ℕ → List ℕ
add_popped none rest = []
add_popped (some t) rest = t ∷ rest

module _ (seconds : ℕ → ℕ) where
  -- The loop of `_siftdown`: the array with its hole, and the place of the hole.
  pub sift_down_loop : ℕ → List ℕ → ℕ → ℕ → ℕ → List ℕ × ℕ
  sift_down_loop zero p newitem startpos pos = (p, pos)
  sift_down_loop (suc fuel) p newitem startpos pos =
      let above = slot p (parent pos) in
      let rest = sift_down_loop fuel (set p pos above) newitem startpos (parent pos) in
      if ltb startpos pos
      then (if ltb (seconds newitem) (seconds above) then rest else (p, pos))
      else (p, pos)

  -- `_siftdown` moves p[pos] towards `startpos` until its parent is not later.
  pub sift_down : List ℕ → ℕ → ℕ → List ℕ
  sift_down p startpos pos =
      let newitem = slot p pos in
      let (p', pos') = sift_down_loop (pos + 1) p newitem startpos pos in set p' pos' newitem

  -- The child that moves up in a round of `_siftup`.
  pub earlier_child : List ℕ → ℕ → ℕ → ℕ
  earlier_child p size childpos =
      let rightpos = u32 (childpos + 1) in
      if ltb rightpos size && ltb (seconds (slot p rightpos)) (seconds (slot p childpos))
      then rightpos
      else childpos

  -- The loop of `_siftup`: the earlier child moves up until the hole is at a leaf.
  pub sift_up_loop : ℕ → List ℕ → ℕ → ℕ → List ℕ × ℕ
  sift_up_loop zero p size pos = (p, pos)
  sift_up_loop (suc fuel) p size pos =
      let childpos = u32 (u32 (pos * 2) + 1) in
      let m = earlier_child p size childpos in
      let rest = sift_up_loop fuel (set p pos (slot p m)) size m in
      if ltb childpos size then rest else (p, pos)

  -- `_siftup`
  pub sift_up : List ℕ → ℕ → ℕ → List ℕ
  sift_up p size pos =
      let newitem = slot p pos in
      let (p', pos') = sift_up_loop (size + 1) p size pos in
      sift_down (set p' pos' newitem) pos pos'

  -- `heappop`; `none` is NULL.
  pub heappop : Heapq → Option ℕ × Heapq
  heappop q =
      let size = q.size - 1 in
      let last = slot q.heap size in
      let p = take size q.heap in
      if q.size == 0
      then (none, q)
      else if ltb 0 size
      then (some (slot p 0), record q { heap = sift_up (set p 0 last) size 0; size = size })
      else (some last, record q { heap = p; size = size })

  -- `heappush`; the result is `false` for -1. The first argument says whether `realloc` has memory.
  pub heappush : Bool → Heapq → ℕ → Bool × Heapq
  heappush has_memory q val =
      let grow = leb q.max q.size in
      let room = if grow then u32 (q.max * 2) else q.max in
      let size = u32 (q.size + 1) in
      let pushed : Heapq = record {
        heap = sift_down (q.heap ++ val ∷ []) 0 (size - 1);
        size = size;
        max = room;
      } in
      if grow && not has_memory then (false, q) else (true, pushed)

  -- `destroy_queue`: the timers in the order in which they are released. The fuel is `size`.
  pub pop_all : ℕ → Heapq → List ℕ
  pop_all zero q = []
  pop_all (suc fuel) q =
      let (obj, q') = heappop q in
      let rest = pop_all fuel q' in if ltb 0 q.size then add_popped obj rest else []
