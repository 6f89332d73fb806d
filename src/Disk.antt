-- ===== src/Disk.antt =====
-- fatfs/src/diskio.c: the disk below the file system, in both builds: the array `idisk`, and with
-- VIRTIO_BLOCK the block driver, whose replies are a parameter. A buffer is a function from the
-- index; the copies of a transfer go byte by byte.
pub mod Ram
use cherios.Base.{
  ℕ, zero, suc, ◌+◌, ◌-◌, ◌*◌, ◌%◌, ◌^◌, Bool, true, false, ◌&&◌, Res, ok, halt, assertion, overrun,
  assert, ◌>>=◌, ◌>>◌, ◌==◌, leb, ltb, if◌then◌else◌, two_64,
}

abbrev pub sector_sz : ℕ
sector_sz = 512

-- 800 sectors
abbrev pub idisk_sz : ℕ
idisk_sz = 409600

abbrev pub Bytes : Type 0
Bytes = ℕ → ℕ

-- `memcpy(dst + at, src + from, len)`
unfoldable pub memcpy : Bytes → ℕ → Bytes → ℕ → ℕ → Bytes
memcpy dst at src from len i = if leb at i && ltb i (at + len) then src (from + (i - at)) else dst i

-- FR_OK, FR_DISK_ERR and FR_NOT_READY of `FRESULT`, RES_OK of `DRESULT`
abbrev pub res_ok : ℕ
res_ok = 0

abbrev pub fr_disk_err : ℕ
fr_disk_err = 1

abbrev pub fr_not_ready : ℕ
fr_not_ready = 3

-- The bytes of a transfer, as `size_t` has them, and the test of its end; what lies outside the
-- array is out of bounds for `memcpy`.
unfoldable pub in_disk : ℕ → ℕ → Res ℕ
in_disk sector count = do
  let start = sector * sector_sz % two_64
  let len = count * sector_sz % two_64
  assert (ltb ((start + len) % two_64) idisk_sz)
  if leb (start + len) idisk_sz then ok start else halt overrun

-- `disk_read` on `idisk`: the result, and the buffer afterwards
unfoldable pub disk_read : Bytes → ℕ → Bytes → ℕ → ℕ → Res (ℕ × Bytes)
unfolding in_disk memcpy
disk_read idisk pdrv buff sector count = do
  assert (pdrv == 0)
  start ← in_disk sector count
  ok (res_ok, memcpy buff 0 idisk start (count * sector_sz % two_64))

-- `disk_write` on `idisk`: the result, and the array afterwards
unfoldable pub disk_write : Bytes → ℕ → Bytes → ℕ → ℕ → Res (ℕ × Bytes)
unfolding in_disk memcpy
disk_write idisk pdrv buff sector count = do
  assert (pdrv == 0)
  start ← in_disk sector count
  ok (res_ok, memcpy idisk start buff 0 (count * sector_sz % two_64))

-- `disk_ioctl`: the result, and what `*buf` becomes; `disk_sz` is `idisk_sz`, or what
-- `virtio_blk_size` answers.
unfoldable pub disk_ioctl : ℕ → ℕ → ℕ → ℕ → Res (ℕ × ℕ)
disk_ioctl disk_sz pdrv cmd buf = do
  assert (pdrv == 0)
  if cmd == 0
      then ok (res_ok, buf)
      else (if cmd == 1
          then ok (res_ok, disk_sz)
          else (if cmd == 3 then ok (res_ok, 1) else halt assertion))

-- The driver as its clients see it: each request gives a result, 0 if it succeeded.
pub record BlockDevice : Type 1 where
  pub State : Type 0
  pub status : State → ℕ × State
  pub init : State → ℕ × State
  pub read : State → ℕ → ℕ × Bytes × State
  pub write : State → Bytes → ℕ → ℕ × State

module _ (dev : BlockDevice) where
  open dev use {State}

  unfoldable pub disk_status : State → ℕ → Res (ℕ × State)
  disk_status s pdrv = do
    assert (pdrv == 0)
    let (vret, s1) = dev.status s
    ok ((if vret == 0 then res_ok else fr_disk_err), s1)

  unfoldable pub disk_initialize : State → ℕ → Res (ℕ × State)
  disk_initialize s pdrv = do
    assert (pdrv == 0)
    let (vret, s1) = dev.init s
    ok ((if vret == 0 then res_ok else fr_not_ready), s1)

  -- The loop of `disk_read`: `n` sectors from the `i`th on
  unfoldable pub read_sectors : ℕ → ℕ → State → Bytes → ℕ → Res (ℕ × Bytes × State)
  unfolding memcpy
  read_sectors zero i s buff sector = ok (res_ok, buff, s)
  read_sectors (suc n) i s buff sector =
      let (ret, block, s1) = dev.read s ((sector + i) % two_64) in
      elim (ret == 0) [
        | true ↦ read_sectors n (i + 1) s1 (memcpy buff (sector_sz * i) block 0 sector_sz) sector
        | false ↦ halt assertion
      ]

  unfoldable pub virtio_disk_read : State → ℕ → Bytes → ℕ → ℕ → Res (ℕ × Bytes × State)
  unfolding read_sectors
  virtio_disk_read s pdrv buff sector count = do
    assert (pdrv == 0)
    read_sectors count 0 s buff sector

  unfoldable pub write_sectors : ℕ → ℕ → State → Bytes → ℕ → Res (ℕ × State)
  write_sectors zero i s buff sector = ok (res_ok, s)
  write_sectors (suc n) i s buff sector =
      let (ret, s1) = dev.write s (λ j. buff (sector_sz * i + j)) ((sector + i) % two_64) in
      elim (ret == 0) [ true ↦ write_sectors n (i + 1) s1 buff sector | false ↦ halt assertion ]

  unfoldable pub virtio_disk_write : State → ℕ → Bytes → ℕ → ℕ → Res (ℕ × State)
  unfolding write_sectors
  virtio_disk_write s pdrv buff sector count = do
    assert (pdrv == 0)
    write_sectors count 0 s buff sector
