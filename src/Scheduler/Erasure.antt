-- ===== src/Scheduler/Erasure.antt =====
-- Asgn2/scheduler.c, `rr_remove`: the links around a thread that is in the queue.
use csc.Prelude.{
  ℕ, zero, suc, ◌-◌, ◌<◌, ◌≡◌, refl, sym, ap, subst, inl, inr, true, false, List, [], ◌∷◌, ◌++◌,
  arith, ◌==◌, length, if◌then◌else◌, Bool-cases,
}
use csc.Scheduler.RoundRobin.{Thread, null, Sched, set, find_loop, unlink, detach}
use csc.Scheduler.Links.{
  has, IsDistinct, Linked, Linked-split, Linked-join, has-append, IsDistinct-split, has_tail,
  relink_end, relink_start,
}

abbrev pub erase : Thread → List Thread → List Thread
erase a [] = []
erase a (x ∷ xs) = if a == x then xs else (x ∷ erase a xs)

pub find_loop-has :
    (s : Sched) (fuel : ℕ) (p h a t : Thread) (xs : List Thread)
    → Linked s.prev s.next p h xs t null
    → length xs < fuel
    → find_loop fuel s a h ≡ has a xs
unfolding find_loop
find_loop-has s zero p h a t xs l enough = elim enough [ ]
find_loop-has s (suc fuel) p h a t [] (end, _) enough = rw end refl
find_loop-has s (suc fuel) p h a t (x ∷ xs) (at, pos, back, rest) enough =
    ground (arith, find_loop-has s fuel x (s.next x) a t xs rest (omega arith))

-- The place of a thread in the queue.
pub record Place (a : Thread) (xs : List Thread) : Type 0 where
  pub ys : List Thread
  pub zs : List Thread
  pub whole : xs ≡ ys ++ a ∷ zs
  pub erased : erase a xs ≡ ys ++ zs

pub place : (a : Thread) (xs : List Thread) → has a xs ≡ true → Place a xs
place a [] h = cc
place a (x ∷ xs) h = elim (Bool-cases (a == x)) [
  | inl hit ↦
      let same : a ≡ x = ground arith in
      record { ys = []; zs = xs; whole = rw same refl; erased = rw hit refl }
  | inr miss ↦
      let r = place a xs (ground arith) in
      record {
        ys = x ∷ r.ys;
        zs = r.zs;
        whole = ap (λ l. x ∷ l) r.whole;
        erased = rw (miss, r.erased) refl;
      }
]

-- The links after the victim is taken out are those of the list `xs`.
abbrev Leaves : Thread → Sched → List Thread → Type 0
Leaves a r xs = Linked (set r.prev a null) (set r.next a null) null r.head xs r.tail null

unlink_only :
    (s : Sched) (a : Thread)
    → (a == s.head) ≡ true
    → (a == s.tail) ≡ true
    → unlink a s ≡ record s { head = null; tail = null }
unfolding unlink
unlink_only s a first last = rw (first, last) refl

unlink_first :
    (s : Sched) (a : Thread)
    → (a == s.head) ≡ true
    → (a == s.tail) ≡ false
    → unlink a s ≡ record s { prev = set s.prev (s.next a) null; head = s.next a }
unfolding unlink
unlink_first s a first last = rw (first, last) refl

unlink_last :
    (s : Sched) (a : Thread)
    → (a == s.head) ≡ false
    → (a == s.tail) ≡ true
    → unlink a s ≡ record s { next = set s.next (s.prev a) null; tail = s.prev a }
unfolding unlink
unlink_last s a first last = rw (first, last) refl

unlink_middle :
    (s : Sched) (a : Thread)
    → (a == s.head) ≡ false
    → (a == s.tail) ≡ false
    → unlink a s ≡ record s {
      next = set s.next (s.prev a) (s.next a);
      prev = set s.prev (s.next a) (s.prev a);
    }
unfolding unlink
unlink_middle s a first last = rw (first, last) refl

unlink_links :
    (s : Sched) (a : Thread) (ys zs : List Thread)
    → Linked s.prev s.next null s.head (ys ++ a ∷ zs) s.tail null
    → IsDistinct (ys ++ a ∷ zs)
    → Leaves a (unlink a s) (ys ++ zs)
unlink_links s a [] [] (at, pos, back, (end, last)) d =
    rw (unlink_only s a (ground arith) (ground arith)) (refl, refl)
unlink_links s a [] (z ∷ zs) (at, pos, back, l) d =
    let there = has_tail s.prev s.next a (s.next a) z zs s.tail null l in
    subst (λ r. Leaves a r (z ∷ zs)) (sym (unlink_first s a (ground arith) (ground arith)))
      (relink_start s.prev s.next _ _ a null (s.next a) z zs s.tail null l (ground arith)
        (λ x i. ground arith) (λ x i. ground arith))
unlink_links s a (y ∷ ys) [] l d =
    let (u, m, front, (at, pos, back, (end, last))) =
      Linked-split s.prev s.next null s.head (y ∷ ys) (a ∷ []) s.tail null l in
    let (d1, d2, apart) = IsDistinct-split (y ∷ ys) (a ∷ []) d in
    let there = has_tail s.prev s.next null s.head y ys u m front in
    subst (λ r. Leaves a r ((y ∷ ys) ++ []))
      (sym (unlink_last s a (ground (arith, apart y)) (ground arith)))
      (Linked-join _ _ null s.head (y ∷ ys) [] u null (s.prev a) null
        (relink_end s.prev s.next _ _ null s.head y ys u m null front d1
          (λ x i. ground (arith, apart x)) (λ x i ne. ground (arith, apart x))
          (ground (arith, apart u)))
        (refl, back))
unlink_links s a (y ∷ ys) (z ∷ zs) l d =
    let (u, m, front, (at, pos, back, end)) =
      Linked-split s.prev s.next null s.head (y ∷ ys) (a ∷ z ∷ zs) s.tail null l in
    let (d1, (fresh, d2), apart) = IsDistinct-split (y ∷ ys) (a ∷ z ∷ zs) d in
    let there = has_tail s.prev s.next null s.head y ys u m front in
    let there2 = has_tail s.prev s.next a (s.next a) z zs s.tail null end in
    subst (λ r. Leaves a r ((y ∷ ys) ++ z ∷ zs))
      (sym (unlink_middle s a (ground (arith, apart y)) (ground arith)))
      (Linked-join _ _ null s.head (y ∷ ys) (z ∷ zs) u (s.next a) s.tail null
        (relink_end s.prev s.next _ _ null s.head y ys u m (s.next a) front d1
          (λ x i. ground (arith, apart x)) (λ x i ne. ground (arith, apart x))
          (ground (arith, apart u)))
        (relink_start s.prev s.next _ _ a u (s.next a) z zs s.tail null end (ground arith)
          (λ x i. ground (arith, apart x)) (λ x i. ground (arith, apart u))))

pub has-absent : (a : Thread) (xs : List Thread) → has a xs ≡ false → erase a xs ≡ xs
has-absent a [] h = refl
has-absent a (x ∷ xs) h =
    let miss : (a == x) ≡ false = ground arith in
    rw miss (ap (λ l. x ∷ l) (has-absent a xs (ground arith)))

pub IsDistinct-erase :
    (a : Thread) (ys zs : List Thread) → IsDistinct (ys ++ a ∷ zs) → IsDistinct (ys ++ zs)
IsDistinct-erase a [] zs d = d.1
IsDistinct-erase a (y ∷ ys) zs (fresh, d) =
    (ground (arith, has-append y ys (a ∷ zs), has-append y ys zs), IsDistinct-erase a ys zs d)

pub count_unlink : (a : Thread) (s : Sched) → (detach a (unlink a s)).count ≡ s.count - 1
unfolding detach unlink
count_unlink a s = ground arith

pub detach_links :
    (s : Sched) (a : Thread) (ys zs : List Thread)
    → Linked s.prev s.next null s.head (ys ++ a ∷ zs) s.tail null
    → IsDistinct (ys ++ a ∷ zs)
    → Linked
        (detach a (unlink a s)).prev
        (detach a (unlink a s)).next
        null
        (detach a (unlink a s)).head
        (ys ++ zs)
        (detach a (unlink a s)).tail
        null
unfolding detach
detach_links s a ys zs l d = unlink_links s a ys zs l d
