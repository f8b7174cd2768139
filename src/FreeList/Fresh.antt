-- ===== src/FreeList/Fresh.antt =====
-- Nothing of what an object held when it was given back shows in the object that is made of it.
use meinheld.Base.{ℕ, ◌≡◌, false, Option, none, List, arith}
use meinheld.Buffer.{Buffer, new_buffer}
use meinheld.Request.{Request}
use meinheld.Request
use meinheld.Input.{InputObject}
use meinheld.FreeList.{FreeList, put, alloc}
use meinheld.FreeList.Pools.{
  make_buffer, make_request, make_input, ClientObject, make_client_object,
}

-- The object that a constructor gives
abbrev pub made {ℓ} : {A : Type ℓ} → ℕ × FreeList A → A
made (x, p) = p.store x

put_self {ℓ} : {A : Type ℓ} (store : ℕ → A) (x : ℕ) (a : A) → put store x a x ≡ a
put_self store x a = ground arith

-- A buffer, a request, an input object and a client object are the same whatever the free list has
-- and whatever its objects held before: all their fields are set when they are made.
pub constructors-fresh :
    (buffers : FreeList Buffer) (requests : FreeList Request) (inputs : FreeList InputObject)
    (objects : FreeList ClientObject) (fresh size limit client : ℕ) (buf : Option (List ℕ))
    → (made (make_buffer size limit fresh buffers) ≡ new_buffer size limit)
      × (made (make_request fresh requests) ≡ Request.new_request)
      × (made (make_input buf fresh inputs) ≡ record { buffer = buf; position = 0 })
      × (made (make_client_object client fresh objects) ≡ record {
        client = client;
        greenlet = none;
        args = none;
        kwargs = none;
        suspended = false;
      })
unfolding make_buffer make_request make_input make_client_object alloc
constructors-fresh buffers requests inputs objects fresh size limit client buf =
    (ground arith, ground arith, ground arith, ground arith)
