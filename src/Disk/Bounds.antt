-- ===== src/Disk/Bounds.antt =====
-- pkg/bootc/bootc_disk.go: the size of a disk image and its description.
use podman_bootc.Base.{
  ℕ, ◌+◌, ◌-◌, ◌*◌, ◌%◌, ◌^◌, ◌≤◌, ◌<◌, ◌≡◌, refl, ◌==◌, Option, none, some, arith, ltb, ◌≢◌, inl,
  inr, Bool-cases, ==_iff, false,
}
use podman_bootc.Base.Int.{
  ℤ, pos, negsuc, ◌≤ℤ◌, add64-pos, sub64-pos, mul64_two, ltb_ℤ-pos, mul64, rem64,
}
use podman_bootc.Disk.Size.{align, disk_size, disk_size_minimum, at_least, at_least_some}

-- A size asked for is met by `n`.
abbrev pub IsMet : Option ℤ → ℕ → Type 0
IsMet none n = Unit
IsMet (some r) n = r ≤ℤ pos n

-- No size asked for is so near to 2^63 that rounding up passes it.
abbrev pub IsSmall : Option ℤ → Type 0
IsSmall none = Unit
IsSmall (some r) = r ≤ℤ pos (2 ^ 63 - 4096)

-- A size that a disk may have: whole blocks, the minimum, room for the image twice, what was asked for.
pub record IsEnough (image : ℕ) (requested : Option ℤ) (n : ℕ) : Type 0 where
  pub whole_blocks : n % 4096 ≡ 0
  pub minimum : disk_size_minimum ≤ n
  pub twice : image * 2 ≤ n
  pub asked : IsMet requested n

align_whole : (n : ℕ) → n % 4096 ≡ 0 → align (pos n) 4096 ≡ pos n
unfolding align rem64
align_whole n h = ground arith

align_up :
    (n : ℕ) → n % 4096 ≢ 0 → n + 4096 ≤ 2 ^ 63 → align (pos n) 4096 ≡ pos (n + (4096 - n % 4096))
unfolding align rem64
align_up n h k =
    rw
      (
        sub64-pos 4096 (n % 4096) (omega arith) (omega arith),
        add64-pos n (4096 - n % 4096) (omega arith),
      )
      (ground arith)

nonzero : (a b : ℕ) → (a == b) ≡ false → a ≢ b
nonzero a b h = ground arith

-- What `align` makes of a size that is far enough from the end of int64.
pub align_pos :
    (n : ℕ)
    → n + 4096 ≤ 2 ^ 63
    → (s : ℕ) × (align (pos n) 4096 ≡ pos s) × (s % 4096 ≡ 0) × (n ≤ s) × (s < n + 4096)
align_pos n h = elim (Bool-cases (n % 4096 == 0)) [
  | inl e ↦ (
    n,
    align_whole n ((==_iff (n % 4096) 0).0 e),
    (==_iff (n % 4096) 0).0 e,
    omega arith,
    omega arith,
  )
  | inr e ↦
      let ne = nonzero (n % 4096) 0 e in
      (n + (4096 - n % 4096), align_up n ne h, omega arith, omega arith, omega arith)
]

no_less : (x r : ℕ) → at_least (negsuc r) (pos x) ≡ pos x
no_less x r = ground arith

met_up : (r : Option ℤ) (m n : ℕ) → IsMet r m → m ≤ n → IsMet r n
met_up none m n h k = tt
met_up (some (pos r)) m n h k = omega arith
met_up (some (negsuc r)) m n h k = omega arith

block_le : (n k m : ℕ) → n % 4096 ≡ 0 → k % 4096 ≡ 0 → n < m + 4096 → m ≤ k → n ≤ k
block_le n k m a b c d = omega arith

refl_le : (n : ℕ) → n ≤ n
refl_le n = omega arith

-- The larger of two sizes: the smallest number that reaches both.
larger :
    (m n : ℕ)
    → (x : ℕ) × (at_least (pos m) (pos n) ≡ pos x)
      × (m ≤ x)
      × (n ≤ x)
      × ((k : ℕ) → m ≤ k → n ≤ k → x ≤ k)
larger m n = elim (Bool-cases (ltb n m)) [
  | inl e ↦ (m, rw (ltb_ℤ-pos n m, e) refl, refl_le m, ground arith, λ k h _. h)
  | inr e ↦ (n, rw (ltb_ℤ-pos n m, e) refl, ground arith, refl_le n, λ k _ h. h)
]

-- What is aligned: the largest of the sizes that it must reach.
wanted :
    (image : ℕ) (requested : Option ℤ)
    → image * 2 + 4096 ≤ 2 ^ 63
    → IsSmall requested
    → (n : ℕ) × (at_least_some requested
          (at_least (pos disk_size_minimum) (mul64 (pos image) (pos 2)))
        ≡ pos n)
      × (n + 4096 ≤ 2 ^ 63)
      × (disk_size_minimum ≤ n)
      × (image * 2 ≤ n)
      × IsMet requested n
      × ((k : ℕ) → disk_size_minimum ≤ k → image * 2 ≤ k → IsMet requested k → n ≤ k)
wanted image none h small =
    let (x, e, low, two, least) = larger disk_size_minimum (image * 2) in
    (
      x,
      rw (mul64_two image (omega arith)) e,
      omega (arith, least (2 ^ 63 - 4096) (omega arith) (omega arith)),
      low,
      two,
      tt,
      λ k a b _. least k a b,
    )
wanted image (some (pos r)) h small =
    let (x, e, low, two, least) = larger disk_size_minimum (image * 2) in
    let (y, e', met, up, least') = larger r x in
    (
      y,
      rw (mul64_two image (omega arith), e) e',
      omega (
        arith,
        least' (2 ^ 63 - 4096) (omega arith) (least (2 ^ 63 - 4096) (omega arith) (omega arith)),
      ),
      omega arith,
      omega arith,
      omega arith,
      λ k a b c. least' k (omega arith) (least k a b),
    )
wanted image (some (negsuc r)) h small =
    let (x, e, low, two, least) = larger disk_size_minimum (image * 2) in
    (
      x,
      rw (mul64_two image (omega arith), e) (no_less x r),
      omega (arith, least (2 ^ 63 - 4096) (omega arith) (omega arith)),
      low,
      two,
      omega arith,
      λ k a b _. least k a b,
    )

-- For every image of at most 2^62 - 2048 bytes, and every requested size (or none) of at most
-- 2^63 - 4096: the size of the disk is a number of bytes that is a whole number of blocks of 4096, at
-- least the minimum of 10 GiB, at least twice the image and at least the requested size, and no
-- smaller number of bytes is all of these.
pub disk_size-least :
    (image : ℕ) (requested : Option ℤ)
    → image * 2 + 4096 ≤ 2 ^ 63
    → IsSmall requested
    → (n : ℕ) × (disk_size (pos image) requested ≡ pos n)
      × IsEnough image requested n
      × ((k : ℕ) → IsEnough image requested k → n ≤ k)
unfolding disk_size
disk_size-least image requested h small =
    let (m, e, room, low, two, met, least) = wanted image requested h small in
    let (n, e', blocks, up, near) = align_pos m room in
    (
      n,
      rw e e',
      record {
        whole_blocks = blocks;
        minimum = omega arith;
        twice = omega arith;
        asked = met_up requested m n met up;
      },
      λ k enough.
          let above = least k enough.minimum enough.twice enough.asked in
          block_le n k m blocks enough.whole_blocks near above,
    )

doubled : (a : ℕ) → 2 ^ 62 ≤ a → a < 2 ^ 63 → mul64 (pos a) (pos 2) ≡ negsuc (2 ^ 64 - a * 2 - 1)
unfolding mul64
doubled a h k = ground arith

at_least_minimum : (r : ℕ) → at_least (pos disk_size_minimum) (negsuc r) ≡ pos disk_size_minimum
at_least_minimum r = ground arith

-- For every image of 2^62 up to 2^63 - 1 bytes, and no requested size, doubling wraps around: the disk
-- gets the minimum size, less than the image.
pub disk_size-overflow :
    (image : ℕ)
    → 2 ^ 62 ≤ image
    → image < 2 ^ 63
    → (disk_size (pos image) none ≡ pos disk_size_minimum) × (disk_size_minimum < image)
unfolding disk_size
disk_size-overflow image h k = (
  rw (doubled image h k, at_least_minimum (2 ^ 64 - image * 2 - 1))
      (align_whole disk_size_minimum (omega arith)),
  omega arith,
)
