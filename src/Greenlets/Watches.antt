-- ===== src/Greenlets/Watches.antt =====
-- The table of watched descriptors of meinheld/server/server.c and its count.
use meinheld.Base.{
  ℕ, suc, ◌+◌, ◌≡◌, refl, sym, ap, ◌∙◌, ◌≢◌, Option, none, some, List, [], ◌∷◌, arith, ◌==◌,
  if◌then◌else◌, length,
}
use meinheld.Base.Int.{pos, dec}
use meinheld.Greenlets.{
  Watch, Loop, find, place, remove, add_count, del_count, add_watch, del_watch,
}

pub find-place :
    (fd e : ℕ) (w : Watch) (ws : List (ℕ × Watch))
    → find e (place fd w ws) ≡ (if fd == e then some w else find e ws)
unfolding find place
find-place fd e w [] = refl
find-place fd e w ((g, v) ∷ ws) = ground (arith, find-place fd e w ws)

pub find-remove : (fd e : ℕ) (ws : List (ℕ × Watch)) → fd ≢ e → find e (remove fd ws) ≡ find e ws
unfolding find remove
find-remove fd e [] n = refl
find-remove fd e ((g, v) ∷ ws) n = ground (arith, n, find-remove fd e ws n)

abbrev missing : Option Watch → ℕ
missing none = 1
missing (some v) = 0

abbrev present : Option Watch → ℕ
present none = 0
present (some v) = 1

length-place :
    (fd : ℕ) (w : Watch) (ws : List (ℕ × Watch))
    → length (place fd w ws) ≡ length ws + missing (find fd ws)
unfolding find place
length-place fd w [] = refl
length-place fd w ((g, v) ∷ ws) = ground (arith, length-place fd w ws)

length-remove :
    (fd : ℕ) (ws : List (ℕ × Watch)) → length (remove fd ws) + present (find fd ws) ≡ length ws
unfolding find remove
length-remove fd [] = refl
length-remove fd ((g, v) ∷ ws) = ground (arith, length-remove fd ws)

count_missing : (o : Option Watch) (n : ℕ) → add_count o (pos n) ≡ pos (n + missing o)
count_missing none n = refl
count_missing (some v) n = ap pos (add_zero n)
  where
    add_zero : (n : ℕ) → n ≡ n + 0
    add_zero n = omega arith

count_present : (o : Option Watch) (m : ℕ) → del_count o (pos (m + present o)) ≡ pos m
count_present none m = ap pos (add_zero m)
  where
    add_zero : (n : ℕ) → n + 0 ≡ n
    add_zero n = omega arith
count_present (some v) m = ap (λ n. dec (pos n)) (suc_add m)
  where
    suc_add : (n : ℕ) → n + 1 ≡ suc n
    suc_add n = omega arith

-- The count is the number of the descriptors that are watched.
abbrev pub Counted : Loop → Type 0
Counted l = l.activecnt ≡ pos (length l.watched)

pub add_watch-Counted : (fd : ℕ) (w : Watch) (l : Loop) → Counted l → Counted (add_watch fd w l)
unfolding add_watch
add_watch-Counted fd w l e =
    ap (add_count (find fd l.watched)) e
    ∙ count_missing (find fd l.watched) (length l.watched)
    ∙ ap pos (sym (length-place fd w l.watched))

pub del_watch-Counted : (fd : ℕ) (l : Loop) → Counted l → Counted (del_watch fd l)
unfolding del_watch
del_watch-Counted fd l e =
    ap (del_count (find fd l.watched)) (e ∙ ap pos (sym (length-remove fd l.watched)))
    ∙ count_present (find fd l.watched) (length (remove fd l.watched))
