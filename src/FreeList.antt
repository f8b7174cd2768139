-- ===== src/FreeList.antt =====
-- The free lists of meinheld/server: an array of at most `max` objects that are out of use, from
-- which an object is taken before memory is asked for. Objects are addresses with a store.
pub mod Owned
pub mod Pools
pub mod Fresh
mod Tests
use meinheld.Base.{ℕ, Bool, true, false, List, [], ◌∷◌, ltb, ◌==◌, if◌then◌else◌, length}

-- `X_free_list[0 .. X_numfree]`, the last entry first, and what the addresses hold
pub record FreeList {ℓ} (A : Type ℓ) : Type ℓ where
  pub free : List ℕ
  pub store : ℕ → A

abbrev pub put {ℓ} : {A : Type ℓ} → (ℕ → A) → ℕ → A → ℕ → A
put store x a y = if y == x then a else store y

abbrev pub taken : List ℕ → ℕ → ℕ
taken [] fresh = fresh
taken (x ∷ free) fresh = x

abbrev pub rest : List ℕ → List ℕ
rest [] = []
rest (x ∷ free) = free

-- `alloc_X`, with the address that `malloc` would give; `reset` is the `memset`, if there is one.
unfoldable pub alloc {ℓ} : {A : Type ℓ} → (A → A) → ℕ → FreeList A → ℕ × FreeList A
alloc reset fresh p =
    let x = taken p.free fresh in
    (x, record { free = rest p.free; store = put p.store x (reset (p.store x)) })

-- `dealloc_X`; the flag says that the object was kept, and it is `false` where it is freed.
unfoldable pub dealloc {ℓ} : {A : Type ℓ} → ℕ → ℕ → FreeList A → Bool × FreeList A
dealloc max x p =
    if ltb (length p.free) max then (true, record p { free = x ∷ p.free }) else (false, p)

-- `X_list_fill`, with the addresses that `malloc` gives
unfoldable pub fill {ℓ} : {A : Type ℓ} → ℕ → List ℕ → FreeList A → FreeList A
fill max [] p = p
fill max (x ∷ mallocs) p =
    let more = fill max mallocs (record p { free = x ∷ p.free }) in
    if ltb (length p.free) max then more else p

-- `X_list_clear`, with the addresses in the order in which they are freed
unfoldable pub clear {ℓ} : {A : Type ℓ} → FreeList A → List ℕ × FreeList A
clear p = (p.free, record p { free = [] })
