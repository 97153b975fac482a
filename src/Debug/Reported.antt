-- ===== src/Debug/Reported.antt =====
-- Asgn1/malloc.c: each call of the allocator reports itself once.
use Prim.Native.String.{String}
use csc.Prelude.{
  ℕ, ◌+◌, ◌≡◌, refl, ◌∙◌, Bool, true, false, ltb, Option, none, some, List, [], ◌∷◌, ◌++◌,
  Option-cases, if◌then◌else◌, ◌==◌, Bool-cases, inl, inr,
}
use csc.Malloc.Blocks.{
  Cursor, block, cursor, whole, u64, u64_sub, header_size, chunk_size, find_fit, findblock,
  splitblock, round_up_16,
}
use csc.Malloc.Calls.{Sbrk, Heap, sbrk_pointer, use_split, use_block, grow, extend, malloc, free}
use csc.Debug.Output.{Message, message, result_size}
use csc.Debug.Written.{shown}
use csc.Debug.Events.{
  Event, custom, debug, suppress, customs, quietly, address, malloc_id, free_id, splitblock_events,
  findblock_events, merge_events, use_block_events, grow_events, extend_events, malloc_events,
  free_events,
}

-- The statements that print, of those that are executed from a value of `suppress_debug` on.
abbrev pub heard : Bool → List Event → List Event
heard q [] = []
heard q (custom s ∷ es) = if q then heard q es else (custom s ∷ heard q es)
heard q (debug id p r m n bs ∷ es) = if q then heard q es else (debug id p r m n bs ∷ heard q es)
heard q (suppress b ∷ es) = heard b es

-- The value of `suppress_debug` behind them.
abbrev pub ends : Bool → List Event → Bool
ends q [] = q
ends q (custom s ∷ es) = ends q es
ends q (debug id p r m n bs ∷ es) = ends q es
ends q (suppress b ∷ es) = ends b es

-- The messages of `print_debug_msg`.
abbrev pub reports : List Event → List Event
reports [] = []
reports (custom s ∷ es) = reports es
reports (debug id p r m n bs ∷ es) = debug id p r m n bs ∷ reports es
reports (suppress b ∷ es) = reports es

-- What standard error gets.
abbrev pub transcript :
    (format : Message → Option (List ℕ)) (text : String → Option (List ℕ)) → List Event → List ℕ
transcript format text [] = []
transcript format text (custom s ∷ es) = shown (text s) ++ transcript format text es
transcript format text (debug id p r m n bs ∷ es) =
    shown (format (message id p r m n (result_size r bs))) ++ transcript format text es
transcript format text (suppress b ∷ es) = transcript format text es

-- Statements from which just `e` is reported, and which leave `suppress_debug` as it was; if it is
-- set, nothing is.
abbrev pub Reports : List Event → Event → Type 0
Reports es e =
    (reports (heard false es) ≡ e ∷ [])
    × (ends false es ≡ false)
    × (reports (heard true es) ≡ [])
    × (ends true es ≡ true)

pub heard-customs :
    (q : Bool) (ss : List String) (es : List Event)
    → (reports (heard q (customs ss ++ es)) ≡ reports (heard q es))
      × (ends q (customs ss ++ es) ≡ ends q es)
heard-customs q [] es = (refl, refl)
heard-customs true (s ∷ ss) es = heard-customs true ss es
heard-customs false (s ∷ ss) es = heard-customs false ss es

pub customs-Reports :
    (ss : List String) (es : List Event) {e : Event} → Reports es e → Reports (customs ss ++ es) e
customs-Reports ss es r =
    let a = heard-customs false ss es in
    let b = heard-customs true ss es in (a.0 ∙ r.0, a.1 ∙ r.1, b.0 ∙ r.2, b.1 ∙ r.3)

-- Behind statements that are executed quietly, the rest is heard.
pub heard-quietly :
    (q : Bool) (es rest : List Event) {e : Event}
    → Reports es e
    → (reports (heard q (quietly es ++ rest)) ≡ reports (heard false rest))
      × (ends q (quietly es ++ rest) ≡ ends false rest)
heard-quietly q es rest r = after true es rest r.2 r.3
  where
    after :
        (p : Bool) (es rest : List Event)
        → reports (heard p es) ≡ []
        → ends p es ≡ true
        → (reports (heard p ((es ++ suppress false ∷ []) ++ rest)) ≡ reports (heard false rest))
          × (ends p ((es ++ suppress false ∷ []) ++ rest) ≡ ends false rest)
    after p [] rest a b = (refl, refl)
    after true (custom s ∷ es) rest a b = after true es rest a b
    after false (custom s ∷ es) rest a b = after false es rest a b
    after true (debug id x r m n bs ∷ es) rest a b = after true es rest a b
    after false (debug id x r m n bs ∷ es) rest a b = cc
    after p (suppress c ∷ es) rest a b = after c es rest a b

use_block-Reports :
    (c : Cursor) (n size : ℕ) (h : Heap)
    → Reports
        (use_block_events c n size)
        (debug malloc_id 0 (address (use_block c n h).0) 0 size (use_block c n h).1.blocks)
unfolding use_block use_split use_block_events
use_block-Reports c n size h =
    let used : Cursor = record c { here = record (c.here) { is_free = false } } in
    customs-Reports (splitblock_events used n)
      (debug malloc_id 0 (splitblock used n).1 0 size (splitblock used n).0
        ∷ custom "MALLOC: malloc succeeded\n"
        ∷ [])
      (refl, refl, refl, refl)

module _ (sbrk : Sbrk) where
  grow-Reports :
      (n new_size size : ℕ) (h : Heap)
      → Reports (grow_events sbrk n new_size size h) (
          debug malloc_id 0
            (address (grow sbrk n new_size h).0)
            0
            size
            (grow sbrk n new_size h).1.blocks)
  unfolding grow grow_events
  grow-Reports n new_size size h = elim (Option-cases (sbrk h.brk new_size)) [
    | inl e ↦ rw (e, grow, grow_events) (refl, refl, refl, refl)
    | inr ((p, b), e) ↦
        rw (e, grow, grow_events)
          (use_block-Reports (cursor h.blocks (block p (u64_sub new_size header_size) true) []) n
            size (record h { brk = b }))
  ]

  extend-Reports :
      (n size : ℕ) (h : Heap)
      → Reports
          (extend_events sbrk n size h)
          (debug malloc_id 0 (address (extend sbrk n h).0) 0 size (extend sbrk n h).1.blocks)
  unfolding extend extend_events
  extend-Reports n size h =
      let used = u64 (header_size + n) in
      let new_size = if ltb used chunk_size then chunk_size else used in
      let curr_break = sbrk_pointer (sbrk h.brk 0) in
      let padding = u64_sub (round_up_16 curr_break) curr_break in
      elim (Option-cases (sbrk h.brk padding)) [
        | inl e ↦ rw (e, extend, extend_events) (refl, refl, refl, refl)
        | inr ((p, b), e) ↦
            rw (e, extend, extend_events) (grow-Reports n new_size size (record h { brk = b }))
      ]

  pub malloc-Reports :
      (size : ℕ) (h : Heap)
      → Reports
          (malloc_events sbrk size h)
          (debug malloc_id 0 (address (malloc sbrk size h).0) 0 size (malloc sbrk size h).1.blocks)
  unfolding malloc malloc_events
  malloc-Reports size h = elim (Bool-cases (size == 0)) [
    | inl zero_size ↦ rw zero_size (refl, refl, refl, refl)
    | inr real ↦ rw real (elim (Option-cases (find_fit (round_up_16 size) h.blocks)) [
      | inl e ↦ rw e (extend-Reports (round_up_16 size) size h)
      | inr (c, e) ↦ rw e (use_block-Reports c (round_up_16 size) size h)
    ])
  ]

pub free-Reports :
    (p : Option ℕ) (h : Heap)
    → Reports (free_events p h) (debug free_id (address p) 0 0 0 (free p h).blocks)
unfolding free free_events
free-Reports none h = (refl, refl, refl, refl)
free-Reports (some p) h = elim (Option-cases (findblock p h.blocks)) [
  | inl e ↦ rw (e, free) (customs-Reports (findblock_events p h.blocks) _ (refl, refl, refl, refl))
  | inr (c, e) ↦ elim (Bool-cases c.here.is_free) [
    | inl twice ↦
        rw (e, free, twice)
          (customs-Reports (findblock_events p h.blocks) _ (refl, refl, refl, refl))
    | inr used ↦
        let merged = whole (record c { here = record (c.here) { is_free = true } }) in
        rw (e, free, used)
          (customs-Reports (findblock_events p h.blocks) _
            (customs-Reports (merge_events merged) _ (refl, refl, refl, refl)))
  ]
]
