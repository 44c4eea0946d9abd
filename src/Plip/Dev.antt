-- ===== src/Plip/Dev.antt =====
-- plIpcore/plIpcore_dev.c: the requests of the character device.
use petalinux_driver.Prelude.{ℕ, ◌-◌, ◌^◌, Bool, Option, none, some, ◌==◌, if◌then◌else◌}
use petalinux_driver.Kernel.{Result, ok, ◌>>=◌}
use petalinux_driver.Plip.{Device, Board, Host, lookup_device, ip_core_read, ip_core_write}

-- plip_iocReg_t
pub record IocReg : Type 0 where
  pub addr : ℕ
  pub value : ℕ
  pub id : ℕ

-- -1 and -EFAULT as patterns.
abbrev pub minus_one : ℕ
minus_one = 2 ^ 32 - 1

abbrev pub minus_efault : ℕ
minus_efault = 2 ^ 32 - 14

abbrev pub ioc_reg_read : ℕ
ioc_reg_read = 100

abbrev pub ioc_reg_write : ℕ
ioc_reg_write = 101

-- The reply to the caller: the result, and what is written to its structure, if anything is.
pub record Reply : Type 0 where
  pub ret : ℕ
  pub stored : Option IocReg
  pub board : Board

abbrev pub refuse : Board → Reply
refuse b = record { ret = minus_one; stored = none; board = b }

-- `copied` says whether copy_to_user succeeded.
unfoldable pub read_register : Host → (copied : Bool) → IocReg → Device → Board → Result Reply
read_register h copied r d b = elim d.read [
  | none ↦ ok (refuse b)
  | some _ ↦ do
    (ret, b') ← ip_core_read h d r.addr b
    ok (
        if copied
        then record { ret = ret; stored = some (record r { value = ret }); board = b' }
        else record { ret = minus_efault; stored = none; board = b' })
]

unfoldable pub ioctl_read : Host → (copied : Bool) → IocReg → Board → Result Reply
ioctl_read h copied r b = do
  held ← lookup_device r.id b
  elim held [ none ↦ ok (refuse b) | some d ↦ read_register h copied r d b ]

unfoldable pub write_register : IocReg → Device → Board → Result Reply
write_register r d b = elim d.write [
  | none ↦ ok (refuse b)
  | some _ ↦ do
    (ret, b') ← ip_core_write d r.addr r.value b
    ok (record { ret = ret; stored = none; board = b' })
]

unfoldable pub ioctl_write : IocReg → Board → Result Reply
ioctl_write r b = do
  held ← lookup_device r.id b
  elim held [ none ↦ ok (refuse b) | some d ↦ write_register r d b ]

-- `r` is the structure that copy_from_user left, whose result the code does not test.
unfoldable pub plipdev_ioctl : Host → (copied : Bool) → (cmd : ℕ) → IocReg → Board → Result Reply
plipdev_ioctl h copied cmd r b =
    if cmd == ioc_reg_read
    then ioctl_read h copied r b
    else if cmd == ioc_reg_write
    then ioctl_write r b
    else ok (record { ret = 0; stored = none; board = b })
