-- ===== src/Disk/Ram.antt =====
-- The build of fatfs/src/diskio.c with `idisk`: reading after writing, and the end of the disk.
use cherios.Base.{ℕ, ◌+◌, ◌*◌, ◌%◌, ◌≤◌, ◌<◌, ◌≡◌, refl, ok, halt, assertion, two_64, arith}
use cherios.Disk.{Bytes, memcpy, idisk_sz, sector_sz, in_disk, disk_read, disk_write}

in_disk-ok :
    (sector count : ℕ)
    → (sector + count) * sector_sz < idisk_sz
    → (in_disk sector count ≡ ok (sector * sector_sz))
      × (count * sector_sz % two_64 ≡ count * sector_sz)
unfolding in_disk
in_disk-ok sector count lt = (ground arith, omega arith)

-- What is written to sectors in front of the last one is read again, into a buffer that is
-- otherwise left as it is; the other bytes of the disk do not change.
pub disk_write-read :
    (idisk buff : Bytes) (sector count : ℕ) (into : Bytes)
    → (sector + count) * sector_sz < idisk_sz
    → (after : Bytes) × (found : Bytes) × (disk_write idisk 0 buff sector count ≡ ok (0, after))
      × (disk_read after 0 into sector count ≡ ok (0, found))
      × ((i : ℕ) → i < count * sector_sz → found i ≡ buff i)
      × ((i : ℕ) → count * sector_sz ≤ i → found i ≡ into i)
      × ((i : ℕ) → i < sector * sector_sz → after i ≡ idisk i)
      × ((i : ℕ) → (sector + count) * sector_sz ≤ i → after i ≡ idisk i)
unfolding disk_write disk_read memcpy
disk_write-read idisk buff sector count into lt =
    let (inside, len) = in_disk-ok sector count lt in
    let after = memcpy idisk (sector * sector_sz) buff 0 (count * sector_sz) in
    (
      after,
      memcpy into 0 after (sector * sector_sz) (count * sector_sz),
      rw (inside, len) refl,
      rw (inside, len) refl,
      λ i h. ground arith,
      λ i h. ground arith,
      λ i h. ground arith,
      λ i h. ground arith,
    )

-- The last sector, number 799, can neither be read nor written: a transfer that ends with it fails
-- an assertion.
pub disk_last-assertion :
    (idisk buff : Bytes) (sector count : ℕ)
    → sector + count ≡ 800
    → (disk_read idisk 0 buff sector count ≡ halt assertion)
      × (disk_write idisk 0 buff sector count ≡ halt assertion)
unfolding disk_read disk_write in_disk
disk_last-assertion idisk buff sector count e = ground arith
