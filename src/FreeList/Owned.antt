-- ===== src/FreeList/Owned.antt =====
-- An object that is in use is not handed out again, however objects are taken and given back.
use meinheld.Base.{ℕ, ◌≤◌, ◌≡◌, sym, inl, inr, List, [], ◌∷◌, ◌++◌, arith, ltb, Bool-cases, length}
use mathlib.Core.List.{Mem, Nodup, Nodup-nil, Nodup-cons, perm_middle, mem-append_right, Perm}
use mathlib.Core.List.Perm
use mathlib.Core.Path.{subst}
use meinheld.FreeList.{FreeList, put, taken, rest, alloc, dealloc, fill}

-- A free list with the objects that its callers hold
pub record Pool {ℓ} (A : Type ℓ) : Type ℓ where
  pub list : FreeList A
  pub used : List ℕ

abbrev pub all {ℓ} : {A : Type ℓ} → Pool A → List ℕ
all s = s.list.free ++ s.used

module _ {ℓ} {A : Type ℓ} (max : ℕ) (reset : A → A) where
  -- What a program may do: `malloc` gives an address that is not in use, and an object is given back
  -- by one that holds it.
  pub data Step (s : Pool A) (t : Pool A) : Type ℓ where
    fills : (x : ℕ) → ¬ Mem x (all s) → t ≡ record s { list = fill max (x ∷ []) s.list } → Step s t
    allocs :
        (fresh : ℕ)
        → ¬ Mem fresh (all s)
        → t ≡ record {
          list = (alloc reset fresh s.list).1;
          used = (alloc reset fresh s.list).0 ∷ s.used;
        }
        → Step s t
    deallocs :
        (x : ℕ) (left : List ℕ)
        → Perm s.used (x ∷ left)
        → t ≡ record { list = (dealloc max x s.list).1; used = left }
        → Step s t
    writes :
        (x : ℕ) (a : A)
        → Mem x s.used
        → t ≡ record s { list = record s.list { store = put s.list.store x a } }
        → Step s t

  pub data Reach (s : Pool A) : Pool A → Type ℓ where
    here : Reach s s
    next : {t u : Pool A} → Reach s t → Step t u → Reach s u

  -- No address stands twice among the free ones and those in use, and the array is not overrun.
  pub record Owned (s : Pool A) : Type 0 where
    pub nodup : Nodup (all s)
    pub fits : length s.list.free ≤ max

  fill-Owned :
      (s : Pool A) (x : ℕ)
      → ¬ Mem x (all s)
      → Owned s
      → Owned (record s { list = fill max (x ∷ []) s.list })
  unfolding fill
  fill-Owned s x new o = elim (Bool-cases (ltb (length s.list.free) max)) [
    | inl small ↦ rw small (record { nodup = Nodup-cons.1 (new, o.nodup); fits = ground arith })
    | inr full ↦ rw full (record { nodup = o.nodup; fits = o.fits })
  ]

  alloc-Nodup :
      (free used : List ℕ) (store : ℕ → A) (fresh : ℕ)
      → ¬ Mem fresh (free ++ used)
      → Nodup (free ++ used)
      → Nodup (rest free ++ taken free fresh ∷ used)
  alloc-Nodup [] used store fresh new o = Nodup-cons.1 (new, o)
  alloc-Nodup (x ∷ free) used store fresh new o = Perm.nodup (Perm.symm (perm_middle free used)) o

  dealloc-Owned :
      (s : Pool A) (x : ℕ) (left : List ℕ)
      → Perm s.used (x ∷ left)
      → Owned s
      → Owned (record { list = (dealloc max x s.list).1; used = left })
  unfolding dealloc
  dealloc-Owned s x left p o =
      let moved : Nodup (s.list.free ++ x ∷ left) =
        Perm.nodup (Perm.append_left s.list.free p) o.nodup in
      let back : Nodup (x ∷ (s.list.free ++ left)) =
        Perm.nodup (perm_middle s.list.free left) moved in
      elim (Bool-cases (ltb (length s.list.free) max)) [
        | inl small ↦ rw small (record { nodup = back; fits = ground arith })
        | inr full ↦ rw full (record { nodup = (Nodup-cons.0 back).1; fits = o.fits })
      ]

  length-rest : (free : List ℕ) → length (rest free) ≤ length free
  length-rest [] = omega arith
  length-rest (x ∷ free) = omega arith

  alloc-Owned :
      (s : Pool A) (fresh : ℕ)
      → ¬ Mem fresh (all s)
      → Owned s
      → Owned (record {
        list = (alloc reset fresh s.list).1;
        used = (alloc reset fresh s.list).0 ∷ s.used;
      })
  unfolding alloc
  alloc-Owned s fresh new o = record {
    nodup = alloc-Nodup s.list.free s.used s.list.store fresh new o.nodup;
    fits = omega (arith, length-rest s.list.free, o.fits);
  }

  Step-Owned : {s t : Pool A} → Step s t → Owned s → Owned t
  Step-Owned (fills x new e) o = subst Owned (sym e) (fill-Owned _ x new o)
  Step-Owned (allocs fresh new e) o = subst Owned (sym e) (alloc-Owned _ fresh new o)
  Step-Owned (deallocs x left p e) o = subst Owned (sym e) (dealloc-Owned _ x left p o)
  Step-Owned (writes x a m e) o = subst Owned (sym e) (record { nodup = o.nodup; fits = o.fits })

  pub Reach-Owned : {s t : Pool A} → Owned s → Reach s t → Owned t
  Reach-Owned o here = o
  Reach-Owned o (next r st) = Step-Owned st (Reach-Owned o r)

  not-Mem-taken :
      (free used : List ℕ) (fresh : ℕ)
      → ¬ Mem fresh (free ++ used)
      → Nodup (free ++ used)
      → ¬ Mem (taken free fresh) used
  not-Mem-taken [] used fresh new o = new
  not-Mem-taken (x ∷ free) used fresh new o = λ m. (Nodup-cons.0 o).0 (mem-append_right free m)

  -- Whatever a program has filled, taken, given back and written since it started with an empty
  -- list, an object that is taken is none of those in use and holds what `reset` makes of it, and
  -- the array has at most `max` entries, if `malloc` gives no address that is free or in use and an
  -- object is given back only by one that holds it.
  pub Reach-alloc :
      (store : ℕ → A) (s : Pool A) (fresh : ℕ)
      → Reach (record { list = record { free = []; store = store }; used = [] }) s
      → ¬ Mem fresh (all s)
      → (¬ Mem (alloc reset fresh s.list).0 s.used)
        × ((alloc reset fresh s.list).1.store (alloc reset fresh s.list).0
            ≡ reset (s.list.store (alloc reset fresh s.list).0))
        × (length s.list.free ≤ max)
  unfolding alloc
  Reach-alloc store s fresh r new =
      let o = Reach-Owned (record { nodup = Nodup-nil; fits = omega arith }) r in
      (not-Mem-taken s.list.free s.used fresh new o.nodup, ground arith, o.fits)
