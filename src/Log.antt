-- ===== src/Log.antt =====
-- meinheld/server/log.c, and the functions of meinheld/server/server.c that set the loggers. Python
-- objects and exceptions are numbers.
pub mod Held
pub mod Reported
mod Tests
use meinheld.Base.{
  ℕ, zero, suc, ◌+◌, ◌-◌, ◌*◌, ◌/◌, ◌%◌, ◌^◌, ◌≤◌, ◌<◌, min, max, ◌≡◌, refl, sym, ap, ◌∙◌, ◌≢◌, ◌↔◌,
  ◌⊎◌, inl, inr, Bool, true, false, not, ◌&&◌, ◌||◌, Option, none, some, List, [], ◌∷◌, ◌++◌,
  append-nil, append_assoc, arith, ltb, leb, ◌==◌, if◌then◌else◌, ==_iff, if-Q, Bool-cases,
  Option-cases, length, get_elem?, get_or, set, take, drop, replicate, All, length-append,
  length-set, length-take, length-drop, take_all, drop_all, take-append, take-append-drop,
  take-take, drop-drop, get_or-set, set-perm, move-perm, set-get_or, set-set, All-append,
  All-by_index, All-perm, length-perm, get_or-append, get_or-take, concat-perm, take-append-last,
  codes, bytes_eq, bytes_eq_iff, take_until, to_upper, drop-append-long, drop-append-short,
}

-- The globals, the references to functions that the server holds, Python's error indicator, and what
-- was done: the calls of the loggers and the exceptions that were printed, the last first.
pub record Log : Type 0 where
  pub access_logger : Option ℕ
  pub err_logger : Option ℕ
  pub is_write_access_log : Bool
  pub held : List ℕ
  pub error : Option ℕ
  pub logged : List (ℕ × ℕ)
  pub printed : List ℕ

abbrev pub without : ℕ → List ℕ → List ℕ
without f [] = []
without f (g ∷ held) = if g == f then held else g ∷ without f held

abbrev pub release : Option ℕ → List ℕ → List ℕ
release none held = held
release (some f) held = without f held

-- `set_access_logger`
unfoldable pub set_access_logger : Option ℕ → Log → Log
set_access_logger obj l = record l { held = release l.access_logger l.held; access_logger = obj }

-- `set_err_logger`
unfoldable pub set_err_logger : Option ℕ → Log → Log
set_err_logger obj l = record l { held = release l.err_logger l.held; err_logger = obj }

-- The argument: None, an object without the method, or one with it, which is callable or not.
pub data LoggerArg : Type 0 where
  none_object without_method : LoggerArg
  not_callable callable : ℕ → LoggerArg

pub data LogResult : Type 0 where
  logger_set attribute_error must_be_callable : LogResult

-- `PyObject_GetAttrString` gives a reference.
unfoldable pub hold : ℕ → Log → Log
hold func l = record l { held = func ∷ l.held }

-- `meinheld_access_log`
unfoldable pub access_log : LoggerArg → Log → LogResult × Log
unfolding set_access_logger hold
access_log none_object l =
    (logger_set, set_access_logger none (record l { is_write_access_log = false }))
access_log without_method l = (attribute_error, l)
access_log (not_callable func) l = (must_be_callable, hold func l)
access_log (callable func) l = (
  logger_set,
  record (set_access_logger (some func) (hold func l)) { is_write_access_log = true },
)

-- `meinheld_error_log`
unfoldable pub error_log : LoggerArg → Log → LogResult × Log
unfolding set_err_logger hold
error_log none_object l = (logger_set, set_err_logger none l)
error_log without_method l = (attribute_error, l)
error_log (not_callable func) l = (must_be_callable, hold func l)
error_log (callable func) l = (logger_set, set_err_logger (some func) (hold func l))

-- `PyErr_Print`, which clears the indicator, where it is set
unfoldable pub print_error : Option ℕ → Log → Log
print_error none l = l
print_error (some e) l = record l { printed = e ∷ l.printed; error = none }

-- The exception that a function raises on an object, if it raises one
module _ (raises : ℕ → ℕ → Option ℕ) where
  abbrev after_call : Option ℕ → Option ℕ → Option ℕ
  after_call none before = before
  after_call (some e) before = some e

  unfoldable pub call_access : Option ℕ → ℕ → Log → Log
  unfolding print_error
  call_access none environ l = l
  call_access (some func) environ l =
      print_error (after_call (raises func environ) l.error)
        (record l { logged = (func, environ) ∷ l.logged })

  -- `call_access_logger`
  unfoldable pub call_access_logger : ℕ → Log → Log
  unfolding call_access
  call_access_logger environ l = call_access l.access_logger environ l

  unfoldable pub report : Option ℕ → Option ℕ → Log → Log
  unfolding print_error
  report none error l = print_error error l
  report (some func) none l = l
  report (some func) (some e) l =
      print_error (raises func e) (record l { logged = (func, e) ∷ l.logged; error = none })

  -- `call_error_logger`, where the exception is normalised and the tuple is made
  unfoldable pub call_error_logger : Log → Log
  unfolding report
  call_error_logger l = record (report l.err_logger l.error l) { error = none }
