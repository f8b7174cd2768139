-- ===== src/FreeList/Pools.antt =====
-- The free lists that the program has, and the constructors that take objects from them:
-- meinheld/server/buffer.c, request.c, input.c, client.c, http_request_parser.c and server.c.
use meinheld.Base.{ℕ, ◌*◌, Bool, true, false, Option, none, some, List, []}
use meinheld.Buffer.{Buffer, new_buffer}
use meinheld.Request.{Request}
use meinheld.Request
use meinheld.Input.{InputObject}
use meinheld.FreeList.{FreeList, put, alloc, dealloc, fill, clear}

abbrev pub buffer_max : ℕ
buffer_max = 1024 * 16 * 2

abbrev pub request_max : ℕ
request_max = 1024

abbrev pub parser_max : ℕ
parser_max = 1024

abbrev pub io_max : ℕ
io_max = 1024

abbrev pub client_max : ℕ
client_max = 1024

-- What `memset` makes of a buffer
abbrev pub zero_buffer : Buffer
zero_buffer = record { bytes = []; is_null = true; buf_size = 0; len = 0; limit = 0 }

unfoldable pub alloc_buffer : ℕ → FreeList Buffer → ℕ × FreeList Buffer
alloc_buffer fresh p = alloc (λ _. zero_buffer) fresh p

-- `new_buffer` on the list of buffers
unfoldable pub make_buffer : ℕ → ℕ → ℕ → FreeList Buffer → ℕ × FreeList Buffer
unfolding alloc_buffer
make_buffer size limit fresh p =
    let (x, q) = alloc_buffer fresh p in
    (x, record q { store = put q.store x (new_buffer size limit) })

unfoldable pub dealloc_buffer : ℕ → FreeList Buffer → Bool × FreeList Buffer
dealloc_buffer x p = dealloc buffer_max x p

-- `free_buffer`. The block is released with the bytes; the pointer is cleared when the buffer is used
-- again.
unfoldable pub free_buffer : ℕ → FreeList Buffer → Bool × FreeList Buffer
unfolding dealloc_buffer
free_buffer x p = dealloc_buffer x p

unfoldable pub buffer_list_fill : List ℕ → FreeList Buffer → FreeList Buffer
buffer_list_fill mallocs p = fill buffer_max mallocs p

unfoldable pub buffer_list_clear : FreeList Buffer → List ℕ × FreeList Buffer
buffer_list_clear p = clear p

unfoldable pub alloc_request : ℕ → FreeList Request → ℕ × FreeList Request
alloc_request fresh p = alloc (λ _. Request.new_request) fresh p

-- `new_request` on the list of requests
unfoldable pub make_request : ℕ → FreeList Request → ℕ × FreeList Request
unfolding alloc_request
make_request fresh p =
    let (x, q) = alloc_request fresh p in
    (x, record q { store = put q.store x Request.new_request })

unfoldable pub dealloc_request : ℕ → FreeList Request → Bool × FreeList Request
dealloc_request x p = dealloc request_max x p

unfoldable pub request_list_fill : List ℕ → FreeList Request → FreeList Request
request_list_fill mallocs p = fill request_max mallocs p

unfoldable pub request_list_clear : FreeList Request → List ℕ × FreeList Request
request_list_clear p = clear p

-- The parsers' contents are the library's, of which `zero` is the cleared one.
module _ {ℓ} {Parser : Type ℓ} (zero_parser : Parser) where
  unfoldable pub alloc_parser : ℕ → FreeList Parser → ℕ × FreeList Parser
  alloc_parser fresh p = alloc (λ _. zero_parser) fresh p

  -- `init_parser`, with the library's `http_parser_init`
  unfoldable pub init_parser : (Parser → Parser) → ℕ → FreeList Parser → ℕ × FreeList Parser
  unfolding alloc_parser
  init_parser http_parser_init fresh p =
      let (x, q) = alloc_parser fresh p in
      (x, record q { store = put q.store x (http_parser_init (q.store x)) })

-- The clients, of which `zero_client` is the cleared one
module _ {ℓ} {Client : Type ℓ} (zero_client : Client) where
  unfoldable pub alloc_client_t : ℕ → FreeList Client → ℕ × FreeList Client
  alloc_client_t fresh p = alloc (λ _. zero_client) fresh p

unfoldable pub dealloc_client {ℓ} : {Client : Type ℓ} → ℕ → FreeList Client → Bool × FreeList Client
dealloc_client x p = dealloc client_max x p

unfoldable pub client_t_list_fill {ℓ} :
    {Client : Type ℓ} → List ℕ → FreeList Client → FreeList Client
client_t_list_fill mallocs p = fill client_max mallocs p

unfoldable pub client_t_list_clear {ℓ} :
    {Client : Type ℓ} → FreeList Client → List ℕ × FreeList Client
client_t_list_clear p = clear p

unfoldable pub dealloc_parser {ℓ} : {Parser : Type ℓ} → ℕ → FreeList Parser → Bool × FreeList Parser
dealloc_parser x p = dealloc parser_max x p

unfoldable pub parser_list_fill {ℓ} : {Parser : Type ℓ} → List ℕ → FreeList Parser → FreeList Parser
parser_list_fill mallocs p = fill parser_max mallocs p

unfoldable pub parser_list_clear {ℓ} :
    {Parser : Type ℓ} → FreeList Parser → List ℕ × FreeList Parser
parser_list_clear p = clear p

-- `PyObject_NEW` clears nothing, and neither does an object that comes from the list.
unfoldable pub alloc_input_object : ℕ → FreeList InputObject → ℕ × FreeList InputObject
alloc_input_object fresh p = alloc (λ io. io) fresh p

-- `InputObject_New`
unfoldable pub make_input : Option (List ℕ) → ℕ → FreeList InputObject → ℕ × FreeList InputObject
unfolding alloc_input_object
make_input buf fresh p =
    let (x, q) = alloc_input_object fresh p in
    (x, record q { store = put q.store x (record (q.store x) { buffer = buf; position = 0 }) })

-- `InputObject_dealloc`, with `dealloc_InputObject`: the buffer is freed once, and the flag says
-- whether there was one.
unfoldable pub dealloc_input : ℕ → FreeList InputObject → Bool × Bool × FreeList InputObject
dealloc_input x p =
    let q = record p { store = put p.store x (record (p.store x) { buffer = none }) } in
    let (kept, r) = dealloc io_max x q in (has_buffer (p.store x).buffer, kept, r)
  where
    has_buffer : Option (List ℕ) → Bool
    has_buffer none = false
    has_buffer (some bytes) = true

unfoldable pub input_list_fill : List ℕ → FreeList InputObject → FreeList InputObject
input_list_fill mallocs p = fill io_max mallocs p

unfoldable pub input_list_clear : FreeList InputObject → List ℕ × FreeList InputObject
input_list_clear p = clear p

-- `ClientObject`, with its client, its greenlet and what the greenlet is resumed with by numbers
pub record ClientObject : Type 0 where
  pub client : ℕ
  pub greenlet : Option ℕ
  pub args : Option ℕ
  pub kwargs : Option ℕ
  pub suspended : Bool

unfoldable pub alloc_client_object : ℕ → FreeList ClientObject → ℕ × FreeList ClientObject
alloc_client_object fresh p = alloc (λ o. o) fresh p

-- `ClientObject_New`
unfoldable pub make_client_object : ℕ → ℕ → FreeList ClientObject → ℕ × FreeList ClientObject
unfolding alloc_client_object
make_client_object client fresh p =
    let (x, q) = alloc_client_object fresh p in
    (
      x,
      record q {
        store = put q.store x (record (q.store x) {
          client = client;
          greenlet = none;
          args = none;
          kwargs = none;
          suspended = false;
        });
      },
    )

-- `ClientObject_dealloc`, with `dealloc_ClientObject`
unfoldable pub dealloc_client_object : ℕ → FreeList ClientObject → Bool × FreeList ClientObject
dealloc_client_object x p =
    dealloc client_max x
      (record p { store = put p.store x (record (p.store x) { greenlet = none }) })

unfoldable pub client_object_list_fill : List ℕ → FreeList ClientObject → FreeList ClientObject
client_object_list_fill mallocs p = fill client_max mallocs p

unfoldable pub client_object_list_clear : FreeList ClientObject → List ℕ × FreeList ClientObject
client_object_list_clear p = clear p
