-- ===== src/Scheduler/Links.antt =====
-- Asgn2/scheduler.c: what it means that the links of the threads form a list.
use csc.Prelude.{
  ◌<◌, ◌≡◌, refl, subst, ◌≢◌, Bool, true, false, ◌||◌, List, [], ◌∷◌, ◌++◌, arith, ◌==◌, length,
}
use csc.Scheduler.RoundRobin.{Thread, null, Sched}

abbrev pub has : Thread → List Thread → Bool
has a [] = false
has a (x ∷ xs) = (a == x) || has a xs

abbrev pub IsDistinct : List Thread → Type 0
IsDistinct [] = Unit {0}
IsDistinct (x ∷ xs) = (has x xs ≡ false) × IsDistinct xs

-- From `h` on, behind `p`, the links lead through `xs` to `stop`; `t` is the last thread, or `p`.
abbrev pub Linked :
    (Thread → Thread) → (Thread → Thread) → Thread → Thread → List Thread → Thread → Thread → Type 0
Linked prev next p h [] t stop = (h ≡ stop) × (t ≡ p)
Linked prev next p h (x ∷ xs) t stop =
    (h ≡ x) × (0 < x) × (prev x ≡ p) × Linked prev next x (next x) xs t stop

-- The scheduler holds the threads `xs`, in this order.
pub record Holds (s : Sched) (xs : List Thread) : Type 0 where
  pub counted : s.count ≡ length xs
  pub distinct : IsDistinct xs
  pub linked : Linked s.prev s.next null s.head xs s.tail null

-- Links are followed only from the threads of the list.
pub Linked-frame :
    (prev next prev' next' : Thread → Thread) (p h : Thread) (xs : List Thread) (t stop : Thread)
    → ((x : Thread) → has x xs ≡ true → (prev' x ≡ prev x) × (next' x ≡ next x))
    → Linked prev next p h xs t stop
    → Linked prev' next' p h xs t stop
Linked-frame prev next prev' next' p h [] t stop same l = l
Linked-frame prev next prev' next' p h (x ∷ xs) t stop same (at, pos, back, rest) = (
  at,
  pos,
  ground (arith, same x),
  rw (same x (ground arith)).1
      (Linked-frame prev next prev' next' x (next x) xs t stop (λ y h. same y (ground arith)) rest),
)

pub Linked-split :
    (prev next : Thread → Thread) (p h : Thread) (xs ys : List Thread) (t stop : Thread)
    → Linked prev next p h (xs ++ ys) t stop
    → (u : Thread) × (m : Thread) × Linked prev next p h xs u m × Linked prev next u m ys t stop
Linked-split prev next p h [] ys t stop l = (p, h, (refl, refl), l)
Linked-split prev next p h (x ∷ xs) ys t stop (at, pos, back, rest) =
    let (u, m, front, end) = Linked-split prev next x (next x) xs ys t stop rest in
    (u, m, (at, pos, back, front), end)

pub Linked-join :
    (prev next : Thread → Thread) (p h : Thread) (xs ys : List Thread) (u m t stop : Thread)
    → Linked prev next p h xs u m
    → Linked prev next u m ys t stop
    → Linked prev next p h (xs ++ ys) t stop
Linked-join prev next p h [] ys u m t stop (a, b) l =
    rw a (subst (λ q. Linked prev next q m ys t stop) b l)
Linked-join prev next p h (x ∷ xs) ys u m t stop (at, pos, back, rest) l =
    (at, pos, back, Linked-join prev next x (next x) xs ys u m t stop rest l)

pub has-append : (a : Thread) (xs ys : List Thread) → has a (xs ++ ys) ≡ (has a xs || has a ys)
has-append a [] ys = refl
has-append a (x ∷ xs) ys = ground (arith, has-append a xs ys)

pub IsDistinct-snoc :
    (xs : List Thread) (a : Thread) → IsDistinct xs → has a xs ≡ false → IsDistinct (xs ++ a ∷ [])
IsDistinct-snoc [] a d h = (refl, tt)
IsDistinct-snoc (x ∷ xs) a d h =
    (ground (arith, has-append x xs (a ∷ [])), IsDistinct-snoc xs a d.1 (ground arith))

pub IsDistinct-split :
    (xs ys : List Thread)
    → IsDistinct (xs ++ ys)
    → IsDistinct xs × IsDistinct ys × ((a : Thread) → has a xs ≡ true → has a ys ≡ false)
IsDistinct-split [] ys d = (tt, d, λ a h. cc)
IsDistinct-split (x ∷ xs) ys d =
    let (front, back, apart) = IsDistinct-split xs ys d.1 in
    (
      (ground (arith, has-append x xs ys), front),
      back,
      λ a h. ground (arith, has-append x xs ys, apart a),
    )

pub has_tail :
    (prev next : Thread → Thread) (p h x : Thread) (xs : List Thread) (t stop : Thread)
    → Linked prev next p h (x ∷ xs) t stop
    → has t (x ∷ xs) ≡ true
has_tail prev next p h x [] t stop l = ground arith
has_tail prev next p h x (y ∷ xs) t stop (at, pos, back, rest) =
    ground (arith, has_tail prev next x (next x) y xs t stop rest)

pub nonnull :
    (prev next : Thread → Thread) (p h : Thread) (xs : List Thread) (t stop a : Thread)
    → Linked prev next p h xs t stop
    → has a xs ≡ true
    → 0 < a
nonnull prev next p h [] t stop a l m = cc
nonnull prev next p h (x ∷ xs) t stop a (at, pos, back, rest) m =
    ground (arith, nonnull prev next x (next x) xs t stop a rest)

-- The last thread of a segment is given another successor.
pub relink_end :
    (prev next prev' next' : Thread → Thread) (p h y : Thread) (ys : List Thread) (u m m' : Thread)
    → Linked prev next p h (y ∷ ys) u m
    → IsDistinct (y ∷ ys)
    → ((x : Thread) → has x (y ∷ ys) ≡ true → prev' x ≡ prev x)
    → ((x : Thread) → has x (y ∷ ys) ≡ true → x ≢ u → next' x ≡ next x)
    → next' u ≡ m'
    → Linked prev' next' p h (y ∷ ys) u m'
relink_end prev next prev' next' p h y [] u m m' (at, pos, back, (e, last)) d same_prev same_next
      ends =
    (at, pos, ground (arith, same_prev y), (rw (← last) ends, last))
relink_end prev next prev' next' p h y (z ∷ ys) u m m' (at, pos, back, rest) d same_prev same_next
      ends =
    let there = has_tail prev next y (next y) z ys u m rest in
    (
      at,
      pos,
      ground (arith, same_prev y),
      rw (same_next y (ground arith) (ground arith)) (
          relink_end prev next prev' next' y (next y) z ys u m m' rest d.1
            (λ x i. same_prev x (ground arith)) (λ x i. same_next x (ground arith)) ends),
    )

-- The first thread of a segment is given another predecessor.
pub relink_start :
    (prev next prev' next' : Thread → Thread) (p p' h z : Thread) (zs : List Thread)
    (t stop : Thread)
    → Linked prev next p h (z ∷ zs) t stop
    → prev' z ≡ p'
    → ((x : Thread) → has x zs ≡ true → prev' x ≡ prev x)
    → ((x : Thread) → has x (z ∷ zs) ≡ true → next' x ≡ next x)
    → Linked prev' next' p' h (z ∷ zs) t stop
relink_start prev next prev' next' p p' h z zs t stop (at, pos, back, rest) starts same_prev
      same_next =
    (
      at,
      pos,
      starts,
      rw (same_next z (ground arith)) (
          Linked-frame prev next prev' next' z (next z) zs t stop
            (λ x i. (same_prev x i, same_next x (ground arith))) rest),
    )
