-- ===== src/Malloc/History.antt =====
-- Asgn1/malloc.c: a program's calls, in any order.
use csc.Prelude.{ℕ, ◌*◌, ◌^◌, ◌<◌, ◌≡◌, Option, none, some, [], refl, false}
use csc.Malloc.Headers.{store_headers}
use csc.Malloc.Calls.{Heap, Sbrk, malloc, free, calloc, realloc}
use csc.Malloc.Layout.{regions}
use csc.Malloc.Invariant.{Inv, IsSbrk, IsRequest}
use csc.Malloc.Regions.{find_region, Apart, Tiles-Apart}
use csc.Malloc.Allocate.{MallocSpec, malloc-MallocSpec}
use csc.Malloc.Release.{free-Freed}
use csc.Malloc.Resized.{ReallocSpec}
use csc.Malloc.Resize.{realloc-ReallocSpec}
use csc.Malloc.Zeroed.{CallocSpec, calloc-CallocSpec}

-- A process starts with no block, at any break in user space.
abbrev pub empty : ℕ → (ℕ → ℕ) → Heap
empty brk bytes = record { blocks = []; brk = brk; bytes = bytes; enomem = false }

module _ (sbrk : Sbrk) where
  -- One call. A pointer given to `realloc` lies in a region in use, as the C library asks; one given
  -- to `free` may be any.
  pub data Step (h : Heap) : Heap → Type 0 where
    malloc_call : (size : ℕ) → IsRequest size → Step h (malloc sbrk size h).1
    free_call : (p : Option ℕ) → Step h (free p h)
    calloc_call : (nmemb size : ℕ) → IsRequest (nmemb * size) → Step h (calloc sbrk nmemb size h).1
    realloc_call :
        (p size : ℕ) (r : ℕ × ℕ)
        → find_region p (regions h.blocks) ≡ some r
        → 0 < size
        → IsRequest size
        → Step h (realloc sbrk (some p) size h).1
    realloc_null : (size : ℕ) → IsRequest size → Step h (realloc sbrk none size h).1
    realloc_zero : (p : ℕ) → Step h (realloc sbrk (some p) 0 h).1

  pub data Reach : Heap → Type 0 where
    start : (brk : ℕ) (bytes : ℕ → ℕ) → brk < 2 ^ 47 → Reach (empty brk bytes)
    later : {h h' : Heap} → Reach h → Step h h' → Reach h'

MallocSpec-Inv : (size : ℕ) (h : Heap) (r : Option ℕ × Heap) → MallocSpec size h r → Inv r.1
MallocSpec-Inv size h (none, h') s = s.valid
MallocSpec-Inv size h (some p, h') s = s.valid

CallocSpec-Inv : (size : ℕ) (h : Heap) (r : Option ℕ × Heap) → CallocSpec size h r → Inv r.1
CallocSpec-Inv size h (none, h') s = s.valid
CallocSpec-Inv size h (some p, h') s = s.0.valid

ReallocSpec-Inv :
    (size p : ℕ) (x : ℕ × ℕ) (h : Heap) (r : Option ℕ × Heap) → ReallocSpec size p x h r → Inv r.1
ReallocSpec-Inv size p x h (none, h') s = s.valid
ReallocSpec-Inv size p x h (some q, h') s = s.valid

free-Inv : (p : Option ℕ) (h : Heap) → Inv h → Inv (free p h)
unfolding free
free-Inv none h v = v
free-Inv (some p) h v = (free-Freed p h v).valid

module _ {sbrk : Sbrk} (laws : IsSbrk sbrk) where
  Step-Inv : {h h' : Heap} → Step sbrk h h' → Inv h → Inv h'
  unfolding realloc
  Step-Inv {h} (malloc_call size req) v =
      MallocSpec-Inv size h (malloc sbrk size h) (malloc-MallocSpec laws size h v req)
  Step-Inv {h} (free_call p) v = free-Inv p h v
  Step-Inv {h} (calloc_call nmemb size req) v =
      CallocSpec-Inv (nmemb * size) h (calloc sbrk nmemb size h)
        (calloc-CallocSpec laws nmemb size h v req)
  Step-Inv {h} (realloc_call p size r found pos req) v =
      ReallocSpec-Inv size p r h (realloc sbrk (some p) size h)
        (realloc-ReallocSpec laws p size r h v found pos req)
  Step-Inv {h} (realloc_null size req) v =
      MallocSpec-Inv size h (malloc sbrk size h) (malloc-MallocSpec laws size h v req)
  Step-Inv {h} (realloc_zero p) v = free-Inv (some p) h v

  -- Over an `sbrk` that keeps its laws, whatever a program calls, as long as its sizes stay
  -- below 2 ^ 62 and it reallocates only regions in use, the heap stays well formed: the blocks
  -- fill the heap from its start to the break without a gap, no two neighbours are free, the headers
  -- in memory are those of the list, and the regions handed out never overlap.
  pub Reach-Inv : {h : Heap} → Reach sbrk h → (v : Inv h) × Apart v.start (regions h.blocks) h.brk
  unfolding store_headers
  Reach-Inv r = let v = inv r in (v, Tiles-Apart _ v.start _ v.tiles)
    where
      inv : {h : Heap} → Reach sbrk h → Inv h
      inv (start brk bytes small) = record {
        start = brk;
        small = small;
        tiles = refl;
        coalesced = tt;
        stored = λ a. refl;
      }
      inv (later r st) = Step-Inv st (inv r)
