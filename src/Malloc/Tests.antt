-- ===== src/Malloc/Tests.antt =====
-- Asgn1/malloc.c: runs on a small heap, and the theorems at the states that they reach.
use csc.Prelude.{
  All, ◌+◌, ◌-◌, ◌^◌, ◌<◌, ◌≡◌, refl, true, false, ◌&&◌, ◌==◌, none, some, [], ◌∷◌, arith, ltb,
  if◌then◌else◌,
}
use csc.Malloc.Blocks.{block, merge_loop, merge_free_nodes, splitblock, findblock, find_fit}
use csc.Malloc.Headers.{store_headers, store_headers-twice, store_header, header_byte}
use csc.Malloc.Calls.{
  Heap, Sbrk, malloc, free, calloc, realloc, use_block, use_split, grow, extend, move_block,
  grow_into, resize,
}
use csc.Malloc.Layout.{regions}
use csc.Malloc.Search.{Fits}
use csc.Malloc.Invariant.{Inv, IsSbrk}
use csc.Malloc.Regions.{Apart}
use csc.Malloc.Allocate.{MallocSpec, malloc-MallocSpec}
use csc.Malloc.Release.{Freed, free-Freed, free-malloc}
use csc.Malloc.Resized.{ReallocSpec}
use csc.Malloc.Resize.{realloc-ReallocSpec}
use csc.Malloc.Zeroed.{CallocSpec, calloc_overflow, calloc-CallocSpec}
use csc.Malloc.Refusal.{Refuses, malloc_fails}
use csc.Malloc.Scan.{scan, findblock-scan}
use csc.Malloc.Overflow.{malloc_wraps}
use csc.Malloc.History.{start, later, malloc_call, free_call, empty, Reach-Inv}

-- A kernel that grants everything below 2 ^ 47.
abbrev grant : Sbrk
grant b n = if ltb (b + n) (2 ^ 47) && ltb n (2 ^ 63) then some (b, b + n) else none

grant-IsSbrk : IsSbrk grant
grant-IsSbrk = record {
  query = λ b h. ground arith;
  grows = λ b n p b' small signed e. ground arith;
}

abbrev fresh : Heap
fresh = empty 4096 (λ _. 7)

abbrev one : Heap
one = record fresh { blocks = block 4096 112 false ∷ block 4240 65360 true ∷ []; brk = 69632 }

abbrev two : Heap
two = record one {
  blocks = block 4096 112 false ∷ block 4240 16 false ∷ block 4288 65312 true ∷ [];
  bytes =
      store_headers (block 4096 112 false ∷ block 4240 16 false ∷ block 4288 65312 true ∷ [])
        (λ _. 7);
}

malloc_first :
    ((malloc grant 100 fresh).0 ≡ some 4128) × ((malloc grant 100 fresh).1.blocks ≡ one.blocks)
unfolding malloc find_fit extend grow use_block use_split splitblock merge_free_nodes merge_loop
malloc_first = (refl, refl)

-- The header of the rest is in memory, and the payload is not touched.
malloc_stores :
    let m = (malloc grant 100 fresh).1.bytes in
    (m 4096 ≡ 112) × (m 4104 ≡ 0) × (m 4113 ≡ 16) × (m 4128 ≡ 7) × (m 4248 ≡ 1)
unfolding malloc find_fit extend grow use_block use_split splitblock merge_free_nodes merge_loop
    store_headers store_header header_byte
malloc_stores = (refl, refl, refl, refl, refl)

malloc_second : ((malloc grant 5 one).0 ≡ some 4272) × ((malloc grant 5 one).1.blocks ≡ two.blocks)
unfolding malloc find_fit extend grow use_block use_split splitblock merge_free_nodes merge_loop
malloc_second = (refl, refl)

free_second : (free (some 4275) two).blocks ≡ one.blocks
unfolding free findblock merge_free_nodes merge_loop
free_second = refl

realloc_moves : (realloc grant (some 4128) 200 two).0 ≡ some 4320
unfolding realloc resize findblock grow_into move_block malloc find_fit extend grow use_block
    use_split splitblock merge_free_nodes merge_loop
realloc_moves = refl

fresh-Inv : Inv fresh
unfolding store_headers
fresh-Inv = record {
  start = 4096;
  small = omega arith;
  tiles = refl;
  coalesced = tt;
  stored = λ a. refl;
}

two-Inv : Inv two
two-Inv = record {
  start = 4096;
  small = omega arith;
  tiles = omega arith;
  coalesced = (refl, (refl, (refl, tt)));
  stored = store_headers-twice two.blocks (λ _. 7);
}

malloc-MallocSpec_example : MallocSpec 100 fresh (malloc grant 100 fresh)
malloc-MallocSpec_example = malloc-MallocSpec grant-IsSbrk 100 fresh fresh-Inv (omega arith)

free-Freed_example : Freed 4275 two (free (some 4275) two)
free-Freed_example = free-Freed 4275 two two-Inv

free-malloc_example : regions (free (some (4128 + 3)) (malloc grant 100 fresh).1).blocks ≡ []
free-malloc_example =
    free-malloc grant-IsSbrk 100 3 4128 fresh fresh-Inv (omega arith) (omega arith) malloc_first.0

realloc-ReallocSpec_example :
    ReallocSpec 200 4130 (4128, 112) two (realloc grant (some 4130) 200 two)
realloc-ReallocSpec_example =
    realloc-ReallocSpec grant-IsSbrk 4130 200 (4128, 112) two two-Inv refl (omega arith)
      (omega arith)

calloc-CallocSpec_example : CallocSpec 40 two (calloc grant 5 8 two)
calloc-CallocSpec_example = calloc-CallocSpec grant-IsSbrk 5 8 two two-Inv (omega arith)

calloc_overflow_example : calloc grant (2 ^ 62) 5 two ≡ (none, record two { enomem = true })
calloc_overflow_example = calloc_overflow grant (2 ^ 62) 5 two (omega arith)

malloc_wraps_example : ((malloc grant (2 ^ 64 - 1) two).0 ≡ some 4320) × (65312 < 2 ^ 64 - 1)
unfolding find_fit
malloc_wraps_example =
    malloc_wraps grant (2 ^ 64 - 1) two (block 4096 112 false ∷ block 4240 16 false ∷ []) []
      (block 4288 65312 true) two-Inv (omega arith) (omega arith) refl (refl, (refl, tt)) refl

Reach-Inv_example :
    (v : Inv (free (some 4128) (malloc grant 100 fresh).1)) × Apart v.start
      (regions (free (some 4128) (malloc grant 100 fresh).1).blocks)
      (free (some 4128) (malloc grant 100 fresh).1).brk
Reach-Inv_example = Reach-Inv grant-IsSbrk (
    later (later (start 4096 (λ _. 7) (omega arith)) (malloc_call 100 (omega arith)))
      (free_call (some 4128)))

-- A kernel with no memory left.
abbrev no_more : Sbrk
no_more b n = if (n == 0) && ltb b (2 ^ 47) then some (b, b) else none

refused : (malloc no_more 100 fresh).0 ≡ none
unfolding malloc find_fit extend grow
refused = refl

no_more-IsSbrk : IsSbrk no_more
no_more-IsSbrk = record { query = λ b h. ground arith; grows = λ b n p b' h signed e. ground arith }

malloc_fails_example : All (λ b. ¬ Fits 112 b) fresh.blocks × Refuses no_more 100 4096
malloc_fails_example =
    malloc_fails no_more-IsSbrk 100 fresh fresh-Inv (omega arith) (omega arith) refused

findblock-scan_example : findblock 4136 two.blocks ≡ scan 4136 two.blocks
findblock-scan_example = findblock-scan 4136 two-Inv.start two.brk two.blocks two-Inv.tiles
