-- ===== src/Arena/Blocks.antt =====
-- What the blocks that src/memory/arena.c hands out have in common, and where its check of the size
-- wraps around.
use cleric.Common.{
  ℕ, ◌+◌, ◌-◌, ◌%◌, ◌^◌, ◌≤◌, ◌<◌, ◌≡◌, refl, Option, none, some, List, [], ◌∷◌, arith, ltb, ltb→lt,
  ◌⊎◌, All, All-mono, Bool-cases, inl, inr, false,
}
use cleric.Arena.{Arena, align_up, max_alignment, arena_alloc}

-- An arena in use: its block is not NULL and at an aligned address, and of less than 2^61 bytes.
pub record IsLive (start : ℕ) (a : Arena) : Type 0 where
  pub present : a.start ≡ some start
  pub aligned : start % max_alignment ≡ 0
  pub small : a.total_size < 2 ^ 61
  pub within : a.offset ≤ a.total_size

pub record Block : Type 0 where
  pub address : ℕ
  pub size : ℕ

-- A block lies between two addresses, and is aligned.
abbrev pub IsPlaced : ℕ → ℕ → Block → Type 0
IsPlaced from to b =
    (from ≤ b.address) × (b.address + b.size ≤ to) × (b.address % max_alignment ≡ 0)

abbrev add_block : Option ℕ → ℕ → List Block × Arena → List Block × Arena
add_block none size rest = rest
add_block (some address) size (blocks, a) = (record { address = address; size = size } ∷ blocks, a)

-- Allocates the sizes in order, and collects the blocks of those that succeed.
abbrev pub alloc_all : List ℕ → Arena → List Block × Arena
alloc_all [] a = ([], a)
alloc_all (size ∷ sizes) a =
    let (p, a') = arena_alloc a size in let rest = alloc_all sizes a' in add_block p size rest

-- Every block ends before each later one begins.
abbrev pub AreApart : List Block → Type 0
AreApart [] = Unit
AreApart (b ∷ bs) = All (λ c. b.address + b.size ≤ c.address) bs × AreApart bs

align_up-bounds :
    (n : ℕ)
    → n < 2 ^ 61
    → (n ≤ align_up n max_alignment)
      × (align_up n max_alignment < n + max_alignment)
      × (align_up n max_alignment % max_alignment ≡ 0)
unfolding align_up
align_up-bounds n h = (omega arith, omega arith, omega arith)

-- Where the end of the block does not wrap around.
no_wrap : (c size : ℕ) → c < 2 ^ 63 → size < 2 ^ 63 → (c + size) % 2 ^ 64 ≡ c + size
no_wrap c size h k = omega arith

-- An allocation of less than 2^63 bytes, from an arena in use, ends in one of two ways. Where the
-- size does not fit behind the aligned offset it answers NULL and leaves the arena as it is. Else
-- the block begins at an aligned address, not before the old offset, and ends at the new one, and
-- the arena stays in use.
pub arena_alloc-cases :
    (start : ℕ) (a : Arena) (size : ℕ)
    → IsLive start a
    → size < 2 ^ 63
    → (((arena_alloc a size).0 ≡ none)
        × ((arena_alloc a size).1 ≡ a)
        × (a.total_size < align_up a.offset max_alignment + size))
      ⊎ ((p : ℕ) × ((arena_alloc a size).0 ≡ some p)
          × (start + a.offset ≤ p)
          × (p % max_alignment ≡ 0)
          × (p + size ≡ start + (arena_alloc a size).1.offset)
          × ((arena_alloc a size).1.total_size ≡ a.total_size)
          × IsLive start (arena_alloc a size).1)
unfolding arena_alloc
arena_alloc-cases start a size h small =
    let c = align_up a.offset max_alignment in
    let below = h.within in
    let room = h.small in
    let even = h.aligned in
    let (above, near, whole) = align_up-bounds a.offset (omega arith) in
    let exact = no_wrap c size (omega arith) small in
    elim (Bool-cases (ltb a.total_size (c + size))) [
      | inl e ↦ inl (rw (h.present, exact, e) (refl, refl, ltb→lt a.total_size (c + size) e))
      | inr e ↦ inr (
          rw (h.present, exact, e)
            (
              start + c,
              refl,
              omega arith,
              omega arith,
              omega arith,
              refl,
              record {
                present = refl;
                aligned = h.aligned;
                small = h.small;
                within = ground arith;
              },
            ))
    ]

-- All sizes are below 2^63.
abbrev pub AreSmall : List ℕ → Type 0
AreSmall sizes = All (λ size. size < 2 ^ 63) sizes

-- From an arena in use, with a block of less than 2^61 bytes at an aligned address, allocations of
-- sizes below 2^63 give blocks that are aligned, that lie behind what was allocated before and
-- within the arena's memory, and of which each ends before every later one begins.
pub alloc_all-AreApart :
    (start : ℕ) (sizes : List ℕ) (a : Arena)
    → IsLive start a
    → AreSmall sizes
    → All (IsPlaced (start + a.offset) (start + a.total_size)) (alloc_all sizes a).0
      × AreApart (alloc_all sizes a).0
alloc_all-AreApart start [] a h small = (tt, tt)
alloc_all-AreApart start (size ∷ sizes) a h (s, ss) = elim (arena_alloc-cases start a size h s) [
  | inl (failed, same, full) ↦ rw (failed, same) (alloc_all-AreApart start sizes a h ss)
  | inr (p, got, above, even, end, total, live) ↦
      let a' = (arena_alloc a size).1 in
      let (placed, apart) = alloc_all-AreApart start sizes a' live ss in
      let within = live.within in
      let bs = (alloc_all sizes a').0 in
      rw got (
        (
          (above, omega arith, even),
          All-mono (IsPlaced (start + a'.offset) (start + a'.total_size)) _
              (λ c (low, high, e). (omega arith, omega arith, e)) bs placed,
        ),
        (
          All-mono (IsPlaced (start + a'.offset) (start + a'.total_size)) _
              (λ c (low, high, e). omega arith) bs placed,
          apart,
        ),
      )
]

-- A size that is short of 2^64 by 16 at least, and by no more than the offset, passes the check, since the sum wraps
-- around: for an arena in use, the allocation succeeds and the offset moves back into memory that is
-- handed out.
pub arena_alloc-wraps :
    (start : ℕ) (a : Arena) (k : ℕ)
    → IsLive start a
    → max_alignment ≤ k
    → k ≤ a.offset
    → (arena_alloc a (2 ^ 64 - k)).0 ≡ some (start + align_up a.offset max_alignment)
      × ((arena_alloc a (2 ^ 64 - k)).1.offset ≡ align_up a.offset max_alignment - k)
unfolding arena_alloc
arena_alloc-wraps start a k h pos le =
    let c = align_up a.offset max_alignment in
    let room = h.small in
    let below = h.within in
    let (above, near, whole) = align_up-bounds a.offset (omega arith) in
    let back : (c + (2 ^ 64 - k)) % 2 ^ 64 ≡ c - k = omega arith in
    let fits : ltb a.total_size (c - k) ≡ false = ground arith in
    rw (h.present, back, fits) (refl, refl)
