-- ===== src/Malloc/Release.antt =====
-- Asgn1/malloc.c, `free`: the region that holds the pointer is given back, and no other changes.
use csc.Prelude.{
  ℕ, ◌+◌, ◌<◌, ◌≡◌, refl, sym, ◌∙◌, subst, true, false, Option, none, some, All, List, [], ◌++◌,
  ◌∷◌, arith, Bool-cases, Option-cases, inl, inr,
}
use csc.Malloc.Headers.{store_headers, store_headers-twice}
use csc.Malloc.Memory.{Away, store_headers-Away, merge_free_nodes-Away}
use csc.Malloc.Blocks.{BlockHeader, Cursor, whole, findblock, merge_free_nodes}
use csc.Malloc.Calls.{Heap, Sbrk, free, malloc}
use csc.Malloc.Layout.{Tiles-swap, Regions, regions, regions-append}
use csc.Malloc.Merge.{merge_free_nodes_lem}
use csc.Malloc.Search.{Holds, IsFound, findblock-IsFound}
use csc.Malloc.Invariant.{Inv, IsSbrk, IsRequest}
use csc.Malloc.Regions.{release, Seen, IsFound-Seen, Apart, Tiles-Apart, release_hit}
use csc.Malloc.Allocate.{Allocated, MallocSpec, malloc-MallocSpec}

pub Seen-heap : (p : ℕ) (h : Heap) → Inv h → Seen p (regions h.blocks) (findblock p h.blocks)
Seen-heap p h v =
    IsFound-Seen p v.start h.brk h.blocks (findblock p h.blocks) v.tiles
      (findblock-IsFound p v.start h.brk h.blocks v.tiles)

pub whole_found :
    (p : ℕ) (h : Heap) (c : Cursor) → Inv h → findblock p h.blocks ≡ some c → whole c ≡ h.blocks
whole_found p h c v e =
    (subst (IsFound (Holds p) h.blocks) e (findblock-IsFound p v.start h.brk h.blocks v.tiles)).0

-- What `free` leaves.
pub record Freed (p : ℕ) (h h' : Heap) : Type 0 where
  pub used : regions h'.blocks ≡ release p (regions h.blocks)
  pub same_bytes : (a : ℕ) → All (Away a) h.blocks → h'.bytes a ≡ h.bytes a
  pub same_break : h'.brk ≡ h.brk
  pub valid : Inv h'

freed : Cursor → Cursor
freed c = record c { here = record (c.here) { is_free = true } }

-- The headers stay where they are.
freed-Away : (c : Cursor) (a : ℕ) → All (Away a) (whole c) → All (Away a) (whole (freed c))
unfolding freed
freed-Away c a = over c.before
  where
    over :
        (xs : List BlockHeader)
        → All (Away a) (xs ++ c.here ∷ c.after)
        → All (Away a) (xs ++ record (c.here) { is_free = true } ∷ c.after)
    over [] (away, others) = (away, others)
    over (x ∷ xs) (away, others) = (away, over xs others)

free_block-Freed :
    (p : ℕ) (h : Heap) (c : Cursor)
    → Inv h
    → whole c ≡ h.blocks
    → c.here.is_free ≡ false
    → Seen p (regions h.blocks) (some c)
    → Freed p h (record h {
      blocks = merge_free_nodes (whole (freed c));
      bytes = store_headers (merge_free_nodes (whole (freed c))) h.bytes;
    })
unfolding freed
free_block-Freed p h c v same used seen =
    let (tiles, regs, merged) = merge_free_nodes_lem (whole (freed c)) v.start h.brk v.small (
      Tiles-swap c.before (c.here ∷ c.after) ((freed c).here ∷ c.after) v.start h.brk h.brk
        (rw same v.tiles) (λ m u. u)) in
    record {
      used = regs ∙ regions-append c.before ((freed c).here ∷ c.after) ∙ sym (rw used at seen).1;
      same_bytes = λ a away. store_headers-Away (merge_free_nodes (whole (freed c))) a h.bytes (
          merge_free_nodes-Away (whole (freed c)) a
            (freed-Away c a (subst (All (Away a)) (sym same) away)));
      same_break = refl;
      valid = record {
        start = v.start;
        small = v.small;
        tiles = tiles;
        coalesced = merged;
        stored = store_headers-twice (merge_free_nodes (whole (freed c))) h.bytes;
      };
    }

unchanged-Freed :
    (p : ℕ) (h : Heap) → Inv h → release p (regions h.blocks) ≡ regions h.blocks → Freed p h h
unchanged-Freed p h v e = record {
  used = sym e;
  same_bytes = λ a away. refl;
  same_break = refl;
  valid = v;
}

-- In a well-formed heap `free` of a pointer other than NULL gives back the region in use that
-- the pointer lies in, its interior included. A pointer into no region, a block already free
-- among them, changes no region. The memory outside the headers, the break and the form of the heap are kept.
pub free-Freed : (p : ℕ) (h : Heap) → Inv h → Freed p h (free (some p) h)
unfolding free freed
free-Freed p h v = elim (Option-cases (findblock p h.blocks)) [
  | inl e ↦
      rw (e, free) (unchanged-Freed p h v (subst (Seen p (regions h.blocks)) e (Seen-heap p h v)).1)
  | inr (c, e) ↦
      let seen = subst (Seen p (regions h.blocks)) e (Seen-heap p h v) in
      elim (Bool-cases c.here.is_free) [
        | inl unused ↦ rw (e, free) (rw unused (unchanged-Freed p h v (rw unused at seen).1))
        | inr used ↦
            rw (e, free) (rw used (free_block-Freed p h c v (whole_found p h c v e) used seen))
      ]
]

release_new :
    (size i p : ℕ) (old : Regions) (bytes : ℕ → ℕ) (h : Heap)
    → i < size
    → Allocated size p old bytes h
    → release (p + i) (regions h.blocks) ≡ old
release_new size i p old bytes h inside a = rw a.is_now (
    release_hit (p + i) p a.capacity a.valid.start h.brk a.before a.after
      (subst (λ rs. Apart a.valid.start rs h.brk) a.is_now
        (Tiles-Apart h.blocks a.valid.start h.brk a.valid.tiles))
      (ground (arith, a.enough))
    ∙ sym a.was)

-- In a well-formed heap, what `malloc` returns for fewer than 2 ^ 62 bytes, `free` gives back,
-- by the pointer itself or by one to any of the bytes asked for: the regions in use are again
-- those before the call.
pub free-malloc :
    {sbrk : Sbrk} (laws : IsSbrk sbrk) (size i p : ℕ) (h : Heap)
    → Inv h
    → IsRequest size
    → i < size
    → (malloc sbrk size h).0 ≡ some p
    → regions (free (some (p + i)) (malloc sbrk size h).1).blocks ≡ regions h.blocks
free-malloc {sbrk} laws size i p h v req inside e =
    given_back (malloc sbrk size h) e (malloc-MallocSpec laws size h v req)
  where
    given_back :
        (r : Option ℕ × Heap)
        → r.0 ≡ some p
        → MallocSpec size h r
        → regions (free (some (p + i)) r.1).blocks ≡ regions h.blocks
    given_back (none, h') e spec = cc
    given_back (some q, h') e spec =
        let a =
          let same : q ≡ p = cc in
          subst (λ x. Allocated size x (regions h.blocks) h.bytes h') same spec in
        (free-Freed (p + i) h' a.valid).used
        ∙ release_new size i p (regions h.blocks) h.bytes h' inside a
