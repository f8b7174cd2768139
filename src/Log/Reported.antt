-- ===== src/Log/Reported.antt =====
-- meinheld/server/log.c: an exception is reported once, and is over then.
use meinheld.Base.{ℕ, ◌≡◌, refl, sym, Option, none, some, List, ◌∷◌}
use mathlib.Core.Path.{subst}
use meinheld.Log.{Log, print_error, report, call_error_logger}

-- What is printed once another exception, if there is one, is printed too
abbrev pub printing : Option ℕ → List ℕ → List ℕ
printing none printed = printed
printing (some e) printed = e ∷ printed

-- Where an exception may go: to the logger, or to the standard error stream. In the first case, only
-- what the logger itself raises is printed.
pub data Reported (raises : ℕ → ℕ → Option ℕ) (e : ℕ) (before after : Log) : Type 0 where
  was_printed :
      before.err_logger ≡ none
      → after.printed ≡ e ∷ before.printed
      → after.logged ≡ before.logged
      → Reported raises e before after
  was_logged :
      (func : ℕ)
      → before.err_logger ≡ some func
      → after.logged ≡ (func, e) ∷ before.logged
      → after.printed ≡ printing (raises func e) before.printed
      → Reported raises e before after

print_error-logged : (o : Option ℕ) (l : Log) → (print_error o l).logged ≡ l.logged
unfolding print_error
print_error-logged none l = refl
print_error-logged (some e) l = refl

print_error-printed : (o : Option ℕ) (l : Log) → (print_error o l).printed ≡ printing o l.printed
unfolding print_error
print_error-printed none l = refl
print_error-printed (some e) l = refl

module _ (raises : ℕ → ℕ → Option ℕ) where
  report-Reported :
      (o : Option ℕ) (e : ℕ) (l : Log)
      → l.err_logger ≡ o
      → Reported raises e l (record (report raises o (some e) l) { error = none })
  unfolding report print_error
  report-Reported none e l f = was_printed f refl refl
  report-Reported (some func) e l f =
      was_logged func f (print_error-logged (raises func e) _)
        (print_error-printed (raises func e) _)

  -- An exception that is set is given to the error logger, once, or printed, once, where there is
  -- none, and not both; with a logger, what is printed is just the exception that the logger raises, if
  -- it raises one. The indicator is clear after `call_error_logger`.
  pub call_error_logger-Reported :
      (e : ℕ) (l : Log)
      → l.error ≡ some e
      → Reported raises e l (call_error_logger raises l)
        × ((call_error_logger raises l).error ≡ none)
  unfolding call_error_logger
  call_error_logger-Reported e l f = (
    subst (λ o. Reported raises e l (record (report raises l.err_logger o l) { error = none }))
        (sym f) (report-Reported l.err_logger e l refl),
    refl,
  )
