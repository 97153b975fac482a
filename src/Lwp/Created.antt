-- ===== src/Lwp/Created.antt =====
-- Asgn2/lwp.c, lwp_create: the thread that is made, and what stays.
use csc.Prelude.{
  ℕ, ◌+◌, ◌<◌, ◌≤◌, ◌^◌, ◌≡◌, ◌⊎◌, refl, ap, ◌∙◌, subst, sym, true, [], ◌∷◌, ◌++◌, arith, Option,
  some, inl, inr,
}
use csc.Scheduler.Links.{has}
use csc.Lwp.SetScheduler.{Scheduler, IsScheduler}
use csc.Lwp.Words.{get_stack_size, first_stack, lwp_live}
use csc.Lwp.Stacks.{first_stack_lem}
use csc.Lwp.Registers.{fpu_init}
use csc.Lwp.Library.{Library}
use csc.Lwp.Create.{set_field, fake_saved_bp, lwp_create, tid2thread}
use csc.Lwp.Consistent.{IsKnown, IsSound}
use csc.Lwp.Calls.{IsNewThread, IsNewThread-IsFresh}
use csc.Lwp.Entering.{known_other, set_field-other, set_field-same, entered, enters}
use csc.Lwp.Ending.{has-snoc}
use csc.Lwp.Creation.{first_registers, created_rest, lwp_create_succeeds}
use csc.Lwp.Lookup.{finds_known}

-- The thread can be started: `swap_rfiles` loads its registers, and its return leads to lwp_wrap with the
-- function and the argument, and from there to lwp_exit. The id finds it.
pub record IsStartable {S : Type 0} (l' : Library S) (tid new_thread : ℕ)
    (lwp_exit_at lwp_wrap_at function argument : ℕ) : Type 0 where
  pub found : tid2thread tid l' ≡ new_thread
  pub status : l'.status new_thread ≡ lwp_live
  pub first_argument : (l'.state new_thread).rdi ≡ function
  pub second_argument : (l'.state new_thread).rsi ≡ argument
  pub base : (l'.state new_thread).rbp ≡ (l'.state new_thread).rsp
  pub fpu : (l'.state new_thread).fxsave ≡ fpu_init
  pub saved_base : l'.word (l'.state new_thread).rsp ≡ fake_saved_bp
  pub returns_to : l'.word ((l'.state new_thread).rsp + 8) ≡ lwp_wrap_at
  pub then_to : l'.word ((l'.state new_thread).rsp + 16) ≡ lwp_exit_at

three_words :
    (w : ℕ → ℕ) (a b c u v x : ℕ)
    → b ≡ c + 8
    → a ≡ b + 8
    → let w' = set_field (set_field (set_field w a u) b v) c x in
      (w' c ≡ x)
      × (w' (c + 8) ≡ v)
      × (w' (c + 16) ≡ u)
      × ((y : ℕ) → (y < c) ⊎ (c + 24 ≤ y) → w' y ≡ w y)
three_words w a b c u v x e f = (
  ground arith,
  ground arith,
  ground arith,
  λ y out. elim out [ inl below ↦ ground arith | inr above ↦ ground arith ],
)

module _ {S : Type 0} {ops : Scheduler S} (laws : IsScheduler ops) where
  -- In a sound state, where malloc has memory for a thread and ids do not wrap around, and with a
  -- stack of at least 48 bytes that mmap places below 2 ^ 64: lwp_create returns the next id, and
  -- this id finds a live thread that starts in lwp_wrap with the function and the argument and would
  -- return from there to lwp_exit; no word outside the new stack changes, and no register or stack of
  -- a known thread.
  pub lwp_create_lem :
      (lwp_exit_at lwp_wrap_at new_thread : ℕ) (limit page : Option ℕ) (function argument : ℕ)
      → (l : Library S) (s : IsSound laws l) → IsNewThread l new_thread
      → (stack_base : ℕ) → 48 ≤ get_stack_size limit page
      → stack_base + get_stack_size limit page < 2 ^ 64
      → let r =
          lwp_create ops lwp_exit_at lwp_wrap_at
            (some new_thread)
            limit
            page
            (some stack_base)
            function
            argument
            l in
        (r.0 ≡ l.curr_tid)
        × IsStartable r.1 r.0 new_thread lwp_exit_at lwp_wrap_at function argument
        × ((a : ℕ)
            → (a < stack_base) ⊎ (stack_base + get_stack_size limit page ≤ a)
            → r.1.word a ≡ l.word a)
        × ((x : ℕ) → IsKnown l s.ts s.zs x → (r.1.state x ≡ l.state x) × (r.1.stack x ≡ l.stack x))
  lwp_create_lem e w new_thread limit page f arg l s new stack_base big small =
      let size = get_stack_size limit page in
      let fs = first_stack stack_base size in
      let fresh = IsNewThread-IsFresh l s.ts s.zs new_thread s.consistent.ids new in
      let rest = created_rest e w f arg new_thread stack_base size l in
      let l' = entered ops new_thread rest l in
      let (low, mid, top, high, sp, bp, aligned) = first_stack_lem stack_base size big small in
      let (at0, at8, at16, others) =
        three_words l.word fs.lwp_exit_return_pointer fs.wrapper_return_pointer fs.saved_bp_pointer
          e w fake_saved_bp mid top in
      let k = enters laws l new_thread rest s.ts s.ws s.zs s.consistent fresh in
      let here : has new_thread (s.ts ++ new_thread ∷ []) ≡ true =
        (let a = has-snoc new_thread new_thread s.ts in ground arith) in
      let id : l'.tid new_thread ≡ l.curr_tid = set_field-same l.tid new_thread l.curr_tid in
      let regs =
        set_field-same l.state new_thread (first_registers fs f arg (l.state new_thread)) in
      let rsp : (l'.state new_thread).rsp ≡ fs.saved_bp_pointer = ap (λ r. r.rsp) regs ∙ sp in
      rw (lwp_create_succeeds ops e w new_thread stack_base limit page f arg l (omega (arith, big)))
        (
          refl,
          record {
            found =
                subst (λ t. tid2thread t l' ≡ new_thread) id
                  (finds_known laws l' (s.ts ++ new_thread ∷ []) s.ws s.zs new_thread k (inl here));
            status = set_field-same l.status new_thread lwp_live;
            first_argument = ap (λ r. r.rdi) regs;
            second_argument = ap (λ r. r.rsi) regs;
            base = ap (λ r. r.rbp) regs ∙ (bp ∙ sym rsp);
            fpu = ap (λ r. r.fxsave) regs;
            saved_base = ap l'.word rsp ∙ at0;
            returns_to = ap (λ p. l'.word (p + 8)) rsp ∙ at8;
            then_to = ap (λ p. l'.word (p + 16)) rsp ∙ at16;
          },
          λ a out. others a (elim out [
            | inl below ↦ inl (omega (arith, below, low))
            | inr above ↦ inr (omega (arith, above, high, mid, top))
          ]),
          λ x known.
              let ne = known_other l s.ts s.zs new_thread fresh x known in
              (
                set_field-other l.state new_thread _ x ne,
                set_field-other l.stack new_thread stack_base x ne,
              ),
        )
