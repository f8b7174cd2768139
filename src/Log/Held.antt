-- ===== src/Log/Held.antt =====
-- meinheld/server/log.c: the references to the loggers.
use meinheld.Base.{
  ℕ, ◌+◌, ◌≤◌, ◌<◌, ◌≡◌, inl, inr, false, Option, none, some, List, [], ◌∷◌, arith, ◌==◌,
  if◌then◌else◌, Bool-cases,
}
use meinheld.Log.{
  Log, without, release, set_access_logger, set_err_logger, LoggerArg, none_object, without_method,
  not_callable, callable, hold, access_log, error_log,
}

pub data LogCall : Type 0 where
  set_access set_error : LoggerArg → LogCall

-- The calls of the two functions, one after the other
unfoldable pub call_all : List LogCall → Log → Log
unfolding access_log error_log
call_all [] l = l
call_all (set_access a ∷ calls) l = call_all calls (access_log a l).1
call_all (set_error a ∷ calls) l = call_all calls (error_log a l).1

abbrev pub one : ℕ → ℕ → ℕ
one f g = if g == f then 1 else 0

abbrev pub count : ℕ → List ℕ → ℕ
count f [] = 0
count f (g ∷ held) = one f g + count f held

abbrev pub is_logger : ℕ → Option ℕ → ℕ
is_logger f none = 0
is_logger f (some g) = one f g

-- The objects that were refused because they cannot be called
abbrev pub refused_arg : LoggerArg → List ℕ → List ℕ
refused_arg (not_callable g) fs = g ∷ fs
refused_arg _ fs = fs

abbrev pub refused : List LogCall → List ℕ
refused [] = []
refused (set_access a ∷ calls) = refused_arg a (refused calls)
refused (set_error a ∷ calls) = refused_arg a (refused calls)

-- The references to `f` that the loggers stand for
abbrev pub wanted : ℕ → Log → ℕ
wanted f l = is_logger f l.access_logger + is_logger f l.err_logger

count-without :
    (f g : ℕ) (held : List ℕ) → 0 < count g held → count f (without g held) + one f g ≡ count f held
count-without f g [] h = absurd (omega (arith, h))
count-without f g (k ∷ held) h = elim (Bool-cases (k == g)) [
  | inl same ↦ rw same (ground arith)
  | inr other ↦ let rest = count-without f g held (ground arith) in rw other (omega (arith, rest))
]

count-release :
    (f : ℕ) (o : Option ℕ) (held : List ℕ)
    → ((g : ℕ) → is_logger g o ≤ count g held)
    → count f (release o held) + is_logger f o ≡ count f held
count-release f none held h = omega arith
count-release f (some g) held h = count-without f g held (ground (arith, h g))

-- The references are those of the loggers, and those of `others`.
abbrev pub Counted : List ℕ → Log → Type 0
Counted others l = (f : ℕ) → count f l.held ≡ wanted f l + count f others

set_access_logger-Counted :
    (o : Option ℕ) (others : List ℕ) (l : Log)
    → ((f : ℕ) → count f l.held ≡ wanted f l + count f others + is_logger f o)
    → Counted others (set_access_logger o l)
unfolding set_access_logger
set_access_logger-Counted o others l h f =
    omega (arith, h f, count-release f l.access_logger l.held (λ g. omega (arith, h g)))

set_err_logger-Counted :
    (o : Option ℕ) (others : List ℕ) (l : Log)
    → ((f : ℕ) → count f l.held ≡ wanted f l + count f others + is_logger f o)
    → Counted others (set_err_logger o l)
unfolding set_err_logger
set_err_logger-Counted o others l h f =
    omega (arith, h f, count-release f l.err_logger l.held (λ g. omega (arith, h g)))

access_log-Counted :
    (a : LoggerArg) (others : List ℕ) (l : Log)
    → Counted others l
    → Counted (refused_arg a others) (access_log a l).1
unfolding access_log hold
access_log-Counted none_object others l h =
    set_access_logger-Counted none others (record l { is_write_access_log = false })
      (λ f. omega (arith, h f))
access_log-Counted without_method others l h = h
access_log-Counted (not_callable g) others l h = λ f. omega (arith, h f)
access_log-Counted (callable g) others l h =
    set_access_logger-Counted (some g) others (record l { held = g ∷ l.held })
      (λ f. omega (arith, h f))

error_log-Counted :
    (a : LoggerArg) (others : List ℕ) (l : Log)
    → Counted others l
    → Counted (refused_arg a others) (error_log a l).1
unfolding error_log hold
error_log-Counted none_object others l h =
    set_err_logger-Counted none others l (λ f. omega (arith, h f))
error_log-Counted without_method others l h = h
error_log-Counted (not_callable g) others l h = λ f. omega (arith, h f)
error_log-Counted (callable g) others l h =
    set_err_logger-Counted (some g) others (record l { held = g ∷ l.held })
      (λ f. omega (arith, h f))

count-refused_arg :
    (f : ℕ) (a : LoggerArg) (fs : List ℕ)
    → count f (refused_arg a fs) ≡ count f (refused_arg a []) + count f fs
count-refused_arg f none_object fs = omega arith
count-refused_arg f without_method fs = omega arith
count-refused_arg f (not_callable g) fs = omega arith
count-refused_arg f (callable g) fs = omega arith

-- Whatever loggers are set, the server holds one reference to a function for each of the two loggers
-- that it is, besides those it held before, and one more for each call that refused it because it
-- was not callable.
pub call_all-Counted :
    (calls : List LogCall) (others : List ℕ) (l : Log)
    → Counted others l
    → (f : ℕ)
    → count f (call_all calls l).held
      ≡ wanted f (call_all calls l) + count f (refused calls) + count f others
unfolding call_all
call_all-Counted [] others l h f = omega (arith, h f)
call_all-Counted (set_access a ∷ calls) others l h f =
    let rest =
      call_all-Counted calls (refused_arg a others) (access_log a l).1
        (access_log-Counted a others l h) f in
    omega (arith, rest, count-refused_arg f a others, count-refused_arg f a (refused calls))
call_all-Counted (set_error a ∷ calls) others l h f =
    let rest =
      call_all-Counted calls (refused_arg a others) (error_log a l).1
        (error_log-Counted a others l h) f in
    omega (arith, rest, count-refused_arg f a others, count-refused_arg f a (refused calls))
