-- ===== src/Response/Once.antt =====
-- `start_response` sets a valid status, and sets it once.
use meinheld.Base.{
  ℕ, ◌≤◌, ◌≡◌, refl, sym, ap, ◌∙◌, inl, inr, Bool, true, false, ◌||◌, none, some, List, arith, ltb,
  Bool-cases, take_until,
}
use mathlib.Core.Path.{subst}
use meinheld.Base.Int.{ℤ, pos, negsuc}
use meinheld.Response.Client.{Client, Header, Text, latin1, not_latin1}
use meinheld.Response.Start.{
  HeaderArg, header_list, not_a_list, ExcInfo, none_given, triple, not_a_triple, StartError,
  original, exc_info_not_a_triple, call_again, headers_already_set, Started, started, start_failed,
  null_status, is_empty, to_int, with_code, call_unless, set_status, parse_status, response_call,
}

-- What a call leaves: a code of three digits, the headers that were given and a status line.
abbrev pub Accepted : Client → Started → Type 0
Accepted client (started c) =
    (100 ≤ c.status_code)
    × (c.status_code ≤ 999)
    × ((headers : List Header) × (c.headers ≡ some headers))
Accepted client (start_failed e) = Unit
Accepted client null_status = Unit

module _ (strtol : List ℕ → ℤ × Bool) where
  with_code-Accepted :
      (client : Client) (status : List ℕ) (headers : List Header) (code : ℤ)
      → Accepted client (with_code strtol client status headers code)
  unfolding with_code
  with_code-Accepted client status headers (negsuc n) = tt
  with_code-Accepted client status headers (pos n) = elim (Bool-cases (ltb n 100 || ltb 999 n)) [
    | inl bad ↦ rw bad tt
    | inr good ↦ rw good (ground arith, ground arith, (headers, refl))
  ]

  set_status-Accepted :
      (client : Client) (status : List ℕ) (headers : List Header) (parsed : ℤ × Bool)
      → Accepted client (set_status strtol client status headers parsed)
  unfolding set_status
  set_status-Accepted client status headers (code, false) = tt
  set_status-Accepted client status headers (code, true) =
      with_code-Accepted client status headers (to_int strtol code)

  parse_status-Accepted :
      (client : Client) (status : Text) (headers : HeaderArg)
      → Accepted client (parse_status strtol client status headers)
  unfolding parse_status
  parse_status-Accepted client status not_a_list = tt
  parse_status-Accepted client not_latin1 (header_list headers) = tt
  parse_status-Accepted client (latin1 status) (header_list headers) =
      elim (Bool-cases (is_empty (take_until 0 status))) [
        | inl e ↦ rw e tt
        | inr e ↦ rw e (
            set_status-Accepted client status headers
              (strtol (take_until 32 (take_until 0 status))))
      ]

  -- The error of a call that comes again
  abbrev pub again_error : ExcInfo → StartError
  again_error none_given = headers_already_set
  again_error triple = original
  again_error not_a_triple = exc_info_not_a_triple

  call_again_lem : (exc : ExcInfo) → call_again strtol exc ≡ start_failed (again_error exc)
  unfolding call_again
  call_again_lem none_given = refl
  call_again_lem triple = refl
  call_again_lem not_a_triple = refl

  -- A call on a client without headers that succeeds leaves a status code from 100 to 999, and
  -- headers, so that every later call fails, whether or not they were sent: with the error of its
  -- `exc_info` where that is a tuple of three, with "headers already set" where there is none, and with
  -- an error of its own where `exc_info` is anything else.
  pub response_call-response_call :
      (client : Client) (status again : Text) (headers more : HeaderArg) (exc_info exc : ExcInfo)
      (c : Client)
      → client.headers ≡ none
      → response_call strtol client status headers exc_info ≡ started c
      → (100 ≤ c.status_code)
        × (c.status_code ≤ 999)
        × (response_call strtol c again more exc ≡ start_failed (again_error exc))
  unfolding response_call call_unless
  response_call-response_call client status again headers more exc_info exc c h e =
      let path : parse_status strtol client status headers ≡ started c =
        sym (ap (λ k. call_unless strtol k client status headers exc_info) h) ∙ e in
      let (low, high, (_, kept)) =
        subst (Accepted client) path (parse_status-Accepted client status headers) in
      (low, high, ap (λ k. call_unless strtol k c again more exc) kept ∙ call_again_lem exc)
