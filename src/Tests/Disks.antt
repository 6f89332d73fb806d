-- ===== src/Tests/Disks.antt =====
-- Transfers to a disk of one byte value per sector.
use cherios.Base.{ℕ, ◌+◌, ◌≤◌, ◌<◌, ◌≡◌, ok, arith}
use cherios.Disk.{Bytes, disk_read, disk_write}
use cherios.Disk.Ram.{disk_write-read}

abbrev zeros : Bytes
zeros i = 0

abbrev letters : Bytes
letters i = 97 + i

disk_write-read_example :
    (after : Bytes) × (found : Bytes) × (disk_write zeros 0 letters 797 2 ≡ ok (0, after))
    × (disk_read after 0 zeros 797 2 ≡ ok (0, found))
    × ((i : ℕ) → i < 1024 → found i ≡ 97 + i)
    × ((i : ℕ) → 1024 ≤ i → found i ≡ 0)
    × ((i : ℕ) → i < 408064 → after i ≡ 0)
    × ((i : ℕ) → 409088 ≤ i → after i ≡ 0)
disk_write-read_example = disk_write-read zeros letters 797 2 zeros (omega arith)
