-- ===== src/Dine/Effects.antt =====
-- Asgn3/dine.c, `philosopher`: the effects of each kind of statement on forks, lock and what is shown.
use csc.Prelude.{ℕ, ◌+◌, ◌≡◌, ◌≢◌, refl, sym, ap, ap₂, ◌∙◌, Bool, true, false, inl, inr, arith, ◌⊎◌}
use csc.Dine.Philosopher.{
  Side, left, right, Turn, first_fork, second_fork, Section, hungry, took, eat, finish, drop, think,
  leave, Rest, after_eat, after_finish, after_think, Pc, grab, lock, write, put_down, print, unlock,
  dawdle, PhilInfo, Table, fork_index, side, is_even, assign, after_write, after_section,
  after_rest, loop_test, put_phil, set_fork, go,
}
use csc.Dine.Ownership.{
  bit, owns_before, owns_after, owns, shows, eats, inside, Shown, Local, moved,
}

-- The position changes, and nothing else.
pub steps :
    (n i : ℕ) (pc pc' : Pc) (t : Table)
    → (t.phils i).pc ≡ pc
    → inside pc' ≡ inside pc
    → ((s : Side) → owns (is_even i) pc' s ≡ owns (is_even i) pc s)
    → ((s : Side) → shows (is_even i) pc' s ≡ shows (is_even i) pc s)
    → eats pc' ≡ eats pc
    → Local n i t (go i pc' t)
steps n i pc pc' t at a b c d =
    moved n i pc t _ t.forks t.printing_lock t.printed at (ap (λ x. t.printing_lock + bit x) a)
      (λ s. ap (λ x. t.forks (fork_index n i s) + bit x) (b s)) (λ k x y. refl)
      (λ v. record {
        shows_left = v.shows_left ∙ sym (c left);
        shows_right = v.shows_right ∙ sym (c right);
        shows_state = v.shows_state ∙ sym d;
      })

abbrev other : Side → Side
other left = right
other right = left

both_sides : (P : Side → Type 0) (x : Side) → P x → P (other x) → (s : Side) → P s
both_sides P left a b left = a
both_sides P left a b right = b
both_sides P right a b left = b
both_sides P right a b right = a

fork_index-other :
    (n i : ℕ) (x : Side)
    → fork_index n i left ≢ fork_index n i right
    → fork_index n i (other x) ≢ fork_index n i x
fork_index-other n i left apart h = apart (sym h)
fork_index-other n i right apart h = apart h

set_fork-same : (k v : ℕ) (forks : ℕ → ℕ) → set_fork k v forks k ≡ v
set_fork-same k v forks = ground arith

set_fork-other : (k j v : ℕ) (forks : ℕ → ℕ) → j ≢ k → set_fork k v forks j ≡ forks j
set_fork-other k j v forks ne = ground arith

-- One fork is taken or put down.
pub forks-Local :
    (n i : ℕ) (pc pc' : Pc) (t : Table) (x : Side) (v : ℕ)
    → (t.phils i).pc ≡ pc
    → fork_index n i left ≢ fork_index n i right
    → inside pc' ≡ inside pc
    → v + bit (owns (is_even i) pc' x) ≡ t.forks (fork_index n i x) + bit (owns (is_even i) pc x)
    → owns (is_even i) pc' (other x) ≡ owns (is_even i) pc (other x)
    → ((s : Side) → shows (is_even i) pc' s ≡ shows (is_even i) pc s)
    → eats pc' ≡ eats pc
    → Local n i t (go i pc' (record t { forks = set_fork (fork_index n i x) v t.forks }))
forks-Local n i pc pc' t x v at apart a f b c d =
    let k = fork_index n i x in
    moved n i pc t _ (set_fork k v t.forks) t.printing_lock t.printed at
      (ap (λ y. t.printing_lock + bit y) a)
      (both_sides
        (λ s.
          set_fork k v t.forks (fork_index n i s) + bit (owns (is_even i) pc' s)
          ≡ t.forks (fork_index n i s) + bit (owns (is_even i) pc s))
        x (ap (λ y. y + bit (owns (is_even i) pc' x)) (set_fork-same k v t.forks) ∙ f)
        (ap₂ (λ y z. y + bit z)
          (set_fork-other k (fork_index n i (other x)) v t.forks (fork_index-other n i x apart)) b))
      (away x)
      (λ v. record {
        shows_left = v.shows_left ∙ sym (c left);
        shows_right = v.shows_right ∙ sym (c right);
        shows_state = v.shows_state ∙ sym d;
      })
  where
    away :
        (x : Side) (k : ℕ)
        → k ≢ fork_index n i left
        → k ≢ fork_index n i right
        → set_fork (fork_index n i x) v t.forks k ≡ t.forks k
    away left k y z = set_fork-other (fork_index n i left) k v t.forks y
    away right k y z = set_fork-other (fork_index n i right) k v t.forks z

-- The lock is taken or given back.
pub lock-Local :
    (n i : ℕ) (pc pc' : Pc) (t : Table) (v : ℕ)
    → (t.phils i).pc ≡ pc
    → v + bit (inside pc') ≡ t.printing_lock + bit (inside pc)
    → ((s : Side) → owns (is_even i) pc' s ≡ owns (is_even i) pc s)
    → ((s : Side) → shows (is_even i) pc' s ≡ shows (is_even i) pc s)
    → eats pc' ≡ eats pc
    → Local n i t (go i pc' (record t { printing_lock = v }))
lock-Local n i pc pc' t v at a b c d =
    moved n i pc t _ t.forks v t.printed at a
      (λ s. ap (λ x. t.forks (fork_index n i s) + bit x) (b s)) (λ k x y. refl)
      (λ v. record {
        shows_left = v.shows_left ∙ sym (c left);
        shows_right = v.shows_right ∙ sym (c right);
        shows_state = v.shows_state ∙ sym d;
      })

inside-after_write : (b : Section) → inside (after_write b) ≡ true
unfolding after_write
inside-after_write hungry = refl
inside-after_write (took x) = refl
inside-after_write eat = refl
inside-after_write finish = refl
inside-after_write (drop x) = refl
inside-after_write think = refl
inside-after_write leave = refl

owns-after_write :
    (even : Bool) (b : Section) (s : Side) → owns even (after_write b) s ≡ owns_before even b s
unfolding after_write
owns-after_write even hungry s = refl
owns-after_write even (took first_fork) s = refl
owns-after_write even (took second_fork) s = refl
owns-after_write even eat s = refl
owns-after_write even finish s = refl
owns-after_write even (drop left) s = refl
owns-after_write even (drop right) s = refl
owns-after_write even think s = refl
owns-after_write even leave s = refl

assign-Shown :
    (even : Bool) (b : Section) (p : PhilInfo)
    → Shown even (write b) p
    → Shown even (after_write b) (record (assign even b p) { pc = after_write b })
unfolding assign after_write side
assign-Shown even hungry p v = record {
  shows_left = v.shows_left;
  shows_right = v.shows_right;
  shows_state = refl;
}
assign-Shown true (took first_fork) p v = record {
  shows_left = v.shows_left;
  shows_right = refl;
  shows_state = v.shows_state;
}
assign-Shown true (took second_fork) p v = record {
  shows_left = refl;
  shows_right = v.shows_right;
  shows_state = v.shows_state;
}
assign-Shown false (took first_fork) p v = record {
  shows_left = refl;
  shows_right = v.shows_right;
  shows_state = v.shows_state;
}
assign-Shown false (took second_fork) p v = record {
  shows_left = v.shows_left;
  shows_right = refl;
  shows_state = v.shows_state;
}
assign-Shown even eat p v = record {
  shows_left = v.shows_left;
  shows_right = v.shows_right;
  shows_state = refl;
}
assign-Shown even finish p v = record {
  shows_left = v.shows_left;
  shows_right = v.shows_right;
  shows_state = refl;
}
assign-Shown even (drop left) p v = record {
  shows_left = refl;
  shows_right = v.shows_right;
  shows_state = v.shows_state;
}
assign-Shown even (drop right) p v = record {
  shows_left = v.shows_left;
  shows_right = refl;
  shows_state = v.shows_state;
}
assign-Shown even think p v = record {
  shows_left = v.shows_left;
  shows_right = v.shows_right;
  shows_state = refl;
}
assign-Shown even leave p v = record {
  shows_left = v.shows_left;
  shows_right = v.shows_right;
  shows_state = refl;
}

pub write-Local :
    (n i : ℕ) (b : Section) (t : Table)
    → (t.phils i).pc ≡ write b
    → Local n i t (record t {
      phils = put_phil i (record (assign (is_even i) b (t.phils i)) { pc = after_write b }) t.phils;
    })
write-Local n i b t at =
    moved n i (write b) t (record (assign (is_even i) b (t.phils i)) { pc = after_write b }) t.forks
      t.printing_lock t.printed at (ap (λ x. t.printing_lock + bit x) (inside-after_write b))
      (λ s. ap (λ x. t.forks (fork_index n i s) + bit x) (owns-after_write (is_even i) b s))
      (λ k x y. refl) (assign-Shown (is_even i) b (t.phils i))

-- Leaving a section, the pauses and the test of the loop change no account but the lock's.
pub inside-after_section : (b : Section) → inside (after_section b) ≡ false
unfolding after_section
inside-after_section hungry = refl
inside-after_section (took first_fork) = refl
inside-after_section (took second_fork) = refl
inside-after_section eat = refl
inside-after_section finish = refl
inside-after_section (drop left) = refl
inside-after_section (drop right) = refl
inside-after_section think = refl
inside-after_section leave = refl

pub owns-after_section :
    (even : Bool) (b : Section) (s : Side)
    → (owns even (after_section b) s ≡ owns_after even b s)
      × (shows even (after_section b) s ≡ owns_after even b s)
      × (eats (after_section b) ≡ eats (unlock b))
unfolding after_section
owns-after_section even hungry s = (refl, refl, refl)
owns-after_section even (took first_fork) s = (refl, refl, refl)
owns-after_section even (took second_fork) s = (refl, refl, refl)
owns-after_section even eat s = (refl, refl, refl)
owns-after_section even finish s = (refl, refl, refl)
owns-after_section even (drop left) s = (refl, refl, refl)
owns-after_section even (drop right) s = (refl, refl, refl)
owns-after_section even think s = (refl, refl, refl)
owns-after_section even leave s = (refl, refl, refl)

pub grab-owns :
    (even : Bool) (x : Turn)
    → (owns even (grab x) (side even x) ≡ false)
      × (owns even (lock (took x)) (side even x) ≡ true)
      × (owns even (lock (took x)) (other (side even x)) ≡ owns even (grab x) (other (side even x)))
unfolding side
grab-owns true first_fork = (refl, refl, refl)
grab-owns true second_fork = (refl, refl, refl)
grab-owns false first_fork = (refl, refl, refl)
grab-owns false second_fork = (refl, refl, refl)

pub grab-shows :
    (even : Bool) (x : Turn) (s : Side) → shows even (lock (took x)) s ≡ shows even (grab x) s
grab-shows even first_fork s = refl
grab-shows even second_fork s = refl

pub put_down-owns :
    (even : Bool) (x : Side)
    → (owns even (put_down x) x ≡ true)
      × (owns even (print (drop x)) x ≡ false)
      × (owns even (print (drop x)) (other x) ≡ owns even (put_down x) (other x))
put_down-owns even left = (refl, refl, refl)
put_down-owns even right = (refl, refl, refl)

pub rest-owns :
    (even : Bool) (r : Rest) (s : Side)
    → (inside (after_rest r) ≡ false)
      × (owns even (after_rest r) s ≡ owns even (dawdle r) s)
      × (shows even (after_rest r) s ≡ shows even (dawdle r) s)
      × (eats (after_rest r) ≡ eats (dawdle r))
unfolding after_rest
rest-owns even after_eat s = (refl, refl, refl, refl)
rest-owns even after_finish s = (refl, refl, refl, refl)
rest-owns even after_think s = (refl, refl, refl, refl)

-- The test of the loop has three outcomes.
pub loop_test-cases :
    (p : PhilInfo)
    → (loop_test p ≡ grab first_fork) ⊎ (loop_test p ≡ lock hungry) ⊎ (loop_test p ≡ lock leave)
unfolding loop_test
loop_test-cases p = ground arith

pub loop-owns :
    (even : Bool) (p : PhilInfo) (s : Side)
    → (inside (loop_test p) ≡ false)
      × (owns even (loop_test p) s ≡ false)
      × (shows even (loop_test p) s ≡ false)
      × (eats (loop_test p) ≡ false)
loop-owns even p s = elim (loop_test-cases p) [
  | inl e ↦ rw e (refl, refl, refl, refl)
  | inr (inl e) ↦ rw e (refl, refl, refl, refl)
  | inr (inr e) ↦ rw e (refl, refl, refl, refl)
]
