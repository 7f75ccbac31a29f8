-- ===== src/BlockIo/Tests.antt =====
-- A slot of the cache at work, with numbers for the bytes of a block.
use ov.Prelude.{ℕ, ◌*◌, ◌≡◌, refl, true, false}
use ov.BlockIo.{BlockData, DeviceRead, lock, read}
use ov.BlockIo.Laws.{read-read_failed}

-- A device that fails, and leaves rubbish in the buffer; and one that does not.
abbrev broken : DeviceRead ℕ
broken i old = (99, false)

abbrev working : DeviceRead ℕ
working i old = (i * 10, true)

abbrev recycled : BlockData ℕ
recycled = record { index = 3; valid = true; dirty = false; bytes = 30 }

abbrev fresh : BlockData ℕ
fresh = record { index = 4; valid = false; dirty = true; bytes = 0 }

read-broken : (read broken (lock 4 fresh)).1 ≡ false
unfolding read lock
read-broken = refl

read-read_failed_example : (read working (lock 4 (read broken (lock 4 fresh)).0)).1 ≡ true
read-read_failed_example = read-read_failed broken working 4 fresh refl read-broken
