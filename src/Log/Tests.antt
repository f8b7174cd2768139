-- ===== src/Log/Tests.antt =====
-- The theorems on the loggers at a concrete state.
use meinheld.Base.{ℕ, ◌+◌, ◌≡◌, refl, false, Option, none, some, List, [], ◌∷◌, arith}
use meinheld.Log.{Log, not_callable, callable, call_error_logger}
use meinheld.Log.Held.{
  LogCall, set_access, set_error, call_all, count, wanted, refused, call_all-Counted,
}
use meinheld.Log.Reported.{Reported, call_error_logger-Reported}

abbrev log : Log
log = record {
  access_logger = none;
  err_logger = some 7;
  is_write_access_log = false;
  held = 7 ∷ [];
  error = some 3;
  logged = [];
  printed = [];
}

-- Logger 7 raises 9.
abbrev raises : ℕ → ℕ → Option ℕ
raises func object = some 9

call_error_logger-Reported_example :
    Reported raises 3 log (call_error_logger raises log)
    × ((call_error_logger raises log).error ≡ none)
call_error_logger-Reported_example = call_error_logger-Reported raises 3 log refl

abbrev calls : List LogCall
calls = set_access (callable 7) ∷ set_error (not_callable 8) ∷ set_error (callable 8) ∷ []

call_all-Counted_example :
    count 8 (call_all calls log).held
    ≡ wanted 8 (call_all calls log) + count 8 (refused calls) + count 8 []
call_all-Counted_example = call_all-Counted calls [] log (λ f. omega arith) 8
