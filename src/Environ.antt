-- ===== src/Environ.antt =====
-- The WSGI environ, a Python dictionary with text keys, and `replace_env_key` of
-- meinheld/server/http_request_parser.c.
pub mod Static
use meinheld.Base.{
  ℕ, ◌≡◌, refl, inl, inr, Bool, Option, none, some, List, [], ◌∷◌, arith, if◌then◌else◌,
  Option-cases, bytes_eq, bytes_eq_iff,
}

-- What the server stores: texts, flags, input streams by the bytes that they give, integers, the
-- version, and other
-- objects by a number.
pub data Value : Type 0 where
  text : List ℕ → Value
  flag : Bool → Value
  input_object : List ℕ → Value
  input_file : List ℕ → Value
  object : ℕ → Value
  number : ℕ → Value
  pair_of : ℕ → ℕ → Value

abbrev pub Environ : Type 0
Environ = List (List ℕ × Value)

-- `PyDict_GetItem`; `none` is NULL.
unfoldable pub get_item : List ℕ → Environ → Option Value
get_item k [] = none
get_item k ((j, v) ∷ env) = if bytes_eq j k then some v else get_item k env

-- `PyDict_SetItem`
pub set_item : List ℕ → Value → Environ → Environ
set_item k v [] = (k, v) ∷ []
set_item k v ((j, w) ∷ env) = if bytes_eq j k then (j, v) ∷ env else (j, w) ∷ set_item k v env

-- `PyDict_DelItem`
pub del_item : List ℕ → Environ → Environ
del_item k [] = []
del_item k ((j, w) ∷ env) = if bytes_eq j k then del_item k env else (j, w) ∷ del_item k env

-- `replace_env_key`
pub replace_env_key : List ℕ → List ℕ → Environ → Environ
replace_env_key old_key new_key env = elim (get_item old_key env) [
  | none ↦ env
  | some v ↦ set_item new_key v (del_item old_key env)
]

pub get_item-set_item :
    (k j : List ℕ) (v : Value) (env : Environ)
    → get_item j (set_item k v env) ≡ (if bytes_eq k j then some v else get_item j env)
unfolding get_item set_item
get_item-set_item k j v [] = refl
get_item-set_item k j v ((i, w) ∷ env) =
    ground
      (arith, bytes_eq_iff k j, bytes_eq_iff i k, bytes_eq_iff i j, get_item-set_item k j v env)

pub get_item-del_item :
    (k j : List ℕ) (env : Environ)
    → get_item j (del_item k env) ≡ (if bytes_eq k j then none else get_item j env)
unfolding get_item del_item
get_item-del_item k j [] = ground arith
get_item-del_item k j ((i, w) ∷ env) =
    ground (arith, bytes_eq_iff k j, bytes_eq_iff i k, bytes_eq_iff i j, get_item-del_item k j env)

-- `replace_env_key` moves the old key's value to the new key, if there is one, and touches no other
-- key.
pub get_item-replace_env_key :
    (old new j : List ℕ) (env : Environ)
    → get_item j (replace_env_key old new env) ≡ (elim (get_item old env) as (λ _. Option Value) [
      | none ↦ get_item j env
      | some v ↦ if bytes_eq new j then some v else if bytes_eq old j then none else get_item j env
    ])
unfolding replace_env_key
get_item-replace_env_key old new j env = elim (Option-cases (get_item old env)) [
  | inl absent ↦ rw (absent, replace_env_key)
  | inr (v, present) ↦ rw (present, replace_env_key, get_item-set_item, get_item-del_item)
]
