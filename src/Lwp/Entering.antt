-- ===== src/Lwp/Entering.antt =====
-- Asgn2/lwp.c, lwp_create and lwp_start: a new thread enters the library, and the invariant is kept.
use csc.Prelude.{
  ℕ, ◌+◌, ◌^◌, ◌%◌, ◌<◌, ◌≡◌, ◌≢◌, ◌⊎◌, refl, sym, ap, ◌∙◌, subst, true, false, ◌||◌, ◌==◌, List,
  [], ◌∷◌, ◌++◌, length-append, arith, Bool-cases, inl, inr,
}
use native.Mathlib.Nat.{mod-eq_of_lt}
use csc.Scheduler.Links.{has}
use csc.Lwp.Chains.{insert-Queued}
use csc.Lwp.SetScheduler.{Scheduler, IsScheduler}
use csc.Lwp.Words.{lwp_live}
use csc.Lwp.Stacks.{mktermstat_lem}
use csc.Lwp.ThreadQueue.{insert}
use csc.Lwp.Registers.{Registers}
use csc.Lwp.Library.{Library}
use csc.Lwp.Create.{set_field, clear_links}
use csc.Lwp.Erased.{Queued-frame}
use csc.Lwp.Ending.{has-snoc}
use csc.Lwp.Consistent.{ready, IsKnown, IsNamed, IsConsistent}

-- An address that malloc may give for a thread: not NULL, and not that of a thread of the library.
pub record IsFresh {S : Type 0} (l : Library S) (ts zs : List ℕ) (new_thread : ℕ) : Type 0 where
  pub real : 0 < new_thread
  pub not_live : has new_thread ts ≡ false
  pub not_dead : (z : ℕ) → has z zs ≡ true → l.zombie_thread z ≢ new_thread
  pub few_ids : l.curr_tid < l.fuel

-- A write of the field of one thread leaves that of another.
pub set_field-other {ℓ} :
    {A : Type ℓ} (f : ℕ → A) (p : ℕ) (v : A) (q : ℕ) → q ≢ p → set_field f p v q ≡ f q
set_field-other f p v q ne = let other : (q == p) ≡ false = ground arith in rw other refl

pub set_field-same {ℓ} : {A : Type ℓ} (f : ℕ → A) (p : ℕ) (v : A) → set_field f p v p ≡ v
set_field-same f p v = let same : (p == p) ≡ true = ground arith in rw same refl

module _ {S : Type 0} (l : Library S) (ts zs : List ℕ) (new_thread : ℕ)
    (fresh : IsFresh l ts zs new_thread) where
  pub known_other : (x : ℕ) → IsKnown l ts zs x → x ≢ new_thread
  known_other x (inl alive) e =
      let a : has new_thread ts ≡ true = subst (λ v. has v ts ≡ true) e alive in
      let b = fresh.not_live in cc
  known_other x (inr (z, i, d)) e = fresh.not_dead z i (d ∙ e)

  -- The new thread has an id of its own.
  pub IsNamed-enter :
      (l' : Library S) (ts' : List ℕ)
      → IsNamed l ts zs
      → 0 < l.curr_tid
      → l'.tid ≡ set_field l.tid new_thread l.curr_tid
      → l'.curr_tid ≡ l.curr_tid + 1
      → l'.freed ≡ set_field l.freed new_thread false
      → ((x : ℕ) → IsKnown l' ts' zs x → (x ≡ new_thread) ⊎ IsKnown l ts zs x)
      → IsNamed l' ts' zs
  IsNamed-enter l' ts' n started names next kept split = record {
    nonnull = λ x k. elim (split x k) [ inl new ↦ rw new fresh.real | inr old ↦ n.nonnull x old ];
    named = λ x k. elim (split x k) [
      | inl new ↦
          let id : l'.tid x ≡ l.curr_tid =
            ap l'.tid new
            ∙ (ap (λ f. f new_thread) names ∙ set_field-same l.tid new_thread l.curr_tid) in
          omega (arith, id, next, started)
      | inr old ↦
          let id = tid_old x old in let (a, b) = n.named x old in omega (arith, id, next, a, b)
    ];
    apart = λ x y k j e. elim (split x k) [
      | inl new ↦ elim (split y j) [
        | inl new' ↦ new ∙ sym new'
        | inr old ↦
            let id : l'.tid x ≡ l.curr_tid =
              ap l'.tid new
              ∙ (ap (λ f. f new_thread) names ∙ set_field-same l.tid new_thread l.curr_tid) in
            let id' = tid_old y old in
            let (a, b) = n.named y old in absurd (omega (arith, id, id', b, e))
      ]
      | inr old ↦ elim (split y j) [
        | inl new ↦
            let id : l'.tid y ≡ l.curr_tid =
              ap l'.tid new
              ∙ (ap (λ f. f new_thread) names ∙ set_field-same l.tid new_thread l.curr_tid) in
            let id' = tid_old x old in
            let (a, b) = n.named x old in absurd (omega (arith, id, id', b, e))
        | inr old' ↦ n.apart x y old old' (sym (tid_old x old) ∙ (e ∙ tid_old y old'))
      ]
    ];
    kept = λ x k. elim (split x k) [
      | inl new ↦
          ap l'.freed new ∙ (ap (λ f. f new_thread) kept ∙ set_field-same l.freed new_thread false)
      | inr old ↦
          ap (λ f. f x) kept
          ∙ (set_field-other l.freed new_thread false x (known_other x old) ∙ n.kept x old)
    ];
  }
    where
      tid_old : (x : ℕ) → IsKnown l ts zs x → l'.tid x ≡ l.tid x
      tid_old x old =
          ap (λ f. f x) names ∙ set_field-other l.tid new_thread l.curr_tid x (known_other x old)

-- The fields of a new state that the invariant does not speak of.
pub record Rest : Type 0 where
  pub curr_thread : ℕ
  pub stack : ℕ → ℕ
  pub stacksize : ℕ → ℕ
  pub exited : ℕ → ℕ
  pub state : ℕ → Registers
  pub word : ℕ → ℕ

-- The state in which a new thread is live.
abbrev pub entered : {S : Type 0} → Scheduler S → ℕ → Rest → Library S → Library S
entered ops new_thread r l = record l {
  curr_thread = r.curr_thread;
  stack = r.stack;
  stacksize = r.stacksize;
  exited = r.exited;
  state = r.state;
  word = r.word;
  curr_tid = (l.curr_tid + 1) % 2 ^ 64;
  tid = set_field l.tid new_thread l.curr_tid;
  freed = set_field l.freed new_thread false;
  status = set_field l.status new_thread lwp_live;
  live = insert new_thread (clear_links new_thread l.live);
  waiting = clear_links new_thread l.waiting;
  sched = ops.admit new_thread l.sched;
}

module _ {S : Type 0} {ops : Scheduler S} (laws : IsScheduler ops) where
  -- A live thread that is admitted.
  pub enters :
      (l : Library S) (new_thread : ℕ) (r : Rest) (ts ws zs : List ℕ)
      → IsConsistent laws l ts ws zs
      → IsFresh l ts zs new_thread
      → IsConsistent laws (entered ops new_thread r l) (ts ++ new_thread ∷ []) ws zs
  unfolding clear_links
  enters l new_thread r ts ws zs k fresh =
      let q = k.queues in
      let p = k.pooled in
      let long = length-append {0} ts (new_thread ∷ []) in
      let next : (l.curr_tid + 1) % 2 ^ 64 ≡ l.curr_tid + 1 =
        mod-eq_of_lt
          (let a = fresh.few_ids in let b = q.word in let c = q.enough in omega (arith, a, b)) in
      let more = λ (x : ℕ). has-snoc x new_thread ts in
      let not_asleep : has new_thread ws ≡ false = elim (Bool-cases (has new_thread ws)) [
        | inl asleep ↦ let a = q.sleepers new_thread asleep in let b = fresh.not_live in cc
        | inr o ↦ o
      ] in
      record {
        queues = record {
          live =
              insert-Queued (clear_links new_thread l.live) new_thread ts
                (Queued-frame new_thread ts q.live fresh.not_live) fresh.real fresh.not_live;
          waiting = Queued-frame new_thread ws q.waiting not_asleep;
          zombies = q.zombies;
          sleepers = λ x i. let a = more x in let b = q.sleepers x i in ground arith;
          few = let a = q.few in omega (arith, next, long, a);
          fewer = let a = q.fewer in omega (arith, long, a);
          enough = let a = fresh.few_ids in omega (arith, next, a);
          word = q.word;
        };
        pooled = record {
          awake = p.awake + 1;
          pool =
              laws.pool_ext _ _ _ _ (λ x. let a = more x in admitted x not_asleep a)
                (laws.admits l.sched p.awake (ready ts ws) new_thread p.pool fresh.real
                  (let a = fresh.not_live in ground arith));
          number = let a = p.number in omega (arith, long, a);
        };
        split = record {
          lives = λ x i. elim (Bool-cases (x == new_thread)) [
            | inl at ↦ rw at ((mktermstat_lem 0).3)
            | inr other ↦ let a = more x in rw other (k.split.lives x (ground arith))
          ];
          dead = λ z i.
              let (a, b) = k.split.dead z i in
              let ne = fresh.not_dead z i in
              let m = more (l.zombie_thread z) in
              let other : (l.zombie_thread z == new_thread) ≡ false = ground arith in
              (ground arith, rw other b);
          once = k.split.once;
        };
        ids =
            IsNamed-enter l ts zs new_thread fresh (entered ops new_thread r l)
              (ts ++ new_thread ∷ []) k.ids (let a = q.few in omega (arith, a)) refl next refl
              (λ x n. elim n [
                | inl alive ↦ elim (Bool-cases (x == new_thread)) [
                  | inl at ↦ inl (ground arith)
                  | inr other ↦ let a = more x in inr (inl (ground arith))
                ]
                | inr dead ↦ inr (inr dead)
              ]);
      }
    where
      admitted :
          (x : ℕ)
          → has new_thread ws ≡ false
          → has x (ts ++ new_thread ∷ []) ≡ (has x ts || x == new_thread)
          → (x == new_thread || ready ts ws x) ≡ ready (ts ++ new_thread ∷ []) ws x
      admitted x off a = elim (Bool-cases (x == new_thread)) [
        | inl at ↦
            let same : x ≡ new_thread = ground arith in
            let o : has x ws ≡ false = rw same off in ground arith
        | inr other ↦ ground arith
      ]
