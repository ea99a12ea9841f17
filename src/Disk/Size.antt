-- ===== src/Disk/Size.antt =====
-- pkg/bootc/bootc_disk.go: the size of the disk image, in int64 arithmetic.
use podman_bootc.Base.{ℕ, ◌*◌, Option, none, some, if◌then◌else◌, ◌==◌}
use podman_bootc.Base.Int.{ℤ, pos, negsuc, add64, sub64, mul64, rem64, ltb_ℤ}

-- `containerSizeToDiskSizeMultiplier` and `diskSizeMinimum`.
abbrev pub container_size_to_disk_size_multiplier : ℕ
container_size_to_disk_size_multiplier = 2

abbrev pub disk_size_minimum : ℕ
disk_size_minimum = 10 * 1024 * 1024 * 1024

abbrev is_zero : ℤ → ℕ → ℤ → ℤ
is_zero size d (pos n) = if n == 0 then size else add64 size (sub64 (pos d) (pos n))
is_zero size d (negsuc n) = add64 size (sub64 (pos d) (negsuc n))

-- `align(size, align)`, for a positive `align`.
unfoldable pub align : ℤ → ℕ → ℤ
align size d = is_zero size d (rem64 size d)

-- `if size < m { size = m }`.
abbrev pub at_least : ℤ → ℤ → ℤ
at_least m size = if ltb_ℤ size m then m else size

abbrev pub at_least_some : Option ℤ → ℤ → ℤ
at_least_some none size = size
at_least_some (some m) size = at_least m size

-- The size that `bootcInstallImageToDisk` computes from the size of the image and the requested size.
unfoldable pub disk_size : ℤ → Option ℤ → ℤ
unfolding align
disk_size image_size requested =
    align
      (at_least_some requested (
        at_least (pos disk_size_minimum)
          (mul64 image_size (pos container_size_to_disk_size_multiplier))))
      4096
