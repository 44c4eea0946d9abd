-- ===== src/Plip/Module.antt =====
-- plIpcore/plIpcore_dev.c, `plipdev_init` and `plipdev_exit`: what the module holds of the kernel.
use petalinux_driver.Prelude.{◌≡◌, refl, Bool, true, false, if◌then◌else◌}
use petalinux_driver.Kernel.{Errno, Code, code, neg}
use petalinux_driver.CharDev.{
  Holding, nothing, everything, Answers, open_chardev, OpenCase, not_opened, opened,
  open_chardev-OpenCase,
}
use petalinux_driver.Plip.{Board, plip_init}

-- The list is initialised last, once the device is there.
pub init_list : Code × Holding → Board → Code × Holding × Board
init_list (code n, m) b = (code n, m, plip_init b)
init_list (neg e, m) b = (neg e, m, b)

pub plipdev_init : Answers → Holding → Board → Code × Holding × Board
plipdev_init q m b = init_list (open_chardev q m) b

pub plipdev_exit : Holding → Holding
plipdev_exit m = if m.memory then record m { cdev = false; region = false; memory = false } else m

-- What the module holds after its start, and after its end.
pub data InitCase (r : Code) (m : Holding) (b b' : Board) : Type 0 where
  failed_start :
      (e : Errno) (memory : Bool)
      → r ≡ neg e
      → m ≡ record nothing { memory = memory }
      → b' ≡ b
      → InitCase r m b b'
  started :
      r ≡ code 0
      → m ≡ everything
      → b'.ready ≡ true
      → plipdev_exit m ≡ record nothing { class_ = true; node = true }
      → InitCase r m b b'

init_list-InitCase :
    (r : Code × Holding) (b : Board)
    → OpenCase r.0 r.1
    → let (r', m, b') = init_list r b in InitCase r' m b b'
unfolding init_list plipdev_exit plip_init
init_list-InitCase (neg x, m) b (not_opened e memory k h) = failed_start e memory k h refl
init_list-InitCase (neg x, m) b (opened k h) = cc
init_list-InitCase (code x, m) b (not_opened e memory k h) = cc
init_list-InitCase (code x, m) b (opened k h) = started k h refl (rw h)

-- A start of the module from nothing either fails, and then at most its memory is still held and
-- the board is as it was, or succeeds with the list of devices ready; the end of the module then
-- gives back all but the class and the node.
pub plipdev_init-InitCase :
    (q : Answers) (b : Board) → let (r, m, b') = plipdev_init q nothing b in InitCase r m b b'
unfolding plipdev_init
plipdev_init-InitCase q b = init_list-InitCase (open_chardev q nothing) b (open_chardev-OpenCase q)
