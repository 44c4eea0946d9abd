-- ===== src/Tests/Cores.antt =====
-- plIpcore/, at a concrete board.
use petalinux_driver.Prelude.{
  ℕ, total, ◌<◌, ◌+◌, ◌≡◌, refl, true, false, List, [], ◌∷◌, none, some, arith,
}
use petalinux_driver.Kernel.{ok}
use petalinux_driver.Plip.{
  plip_remove, mapped, Board, Host, cap_ctl, fpga_release_note, match_data, device_register,
  device_alloc, alloc_private, add_device, find_device, lookup_device, ip_core_write,
  PlatformDevice, Probe, probed, plip_probe,
}
use petalinux_driver.Plip.Dev.{
  ioctl_write, write_register, plipdev_ioctl, IocReg, Reply, ioc_reg_write,
}
use petalinux_driver.Plip.Heap.{IsFresh, is_live}
use petalinux_driver.Plip.Register.{
  core_device, ProbeCase, plip_probe_cases, plip_remove-plip_probe,
}
use petalinux_driver.Plip.Ioctl.{IsAccess, plipdev_ioctl-IsAccess, Served, plip_probe-Served}
use petalinux_driver.CharDev.{Answers, nothing}
use petalinux_driver.Plip.Module.{InitCase, plipdev_init, plipdev_init-InitCase}

live_above : (a : ℕ) (heap : List ℕ) → total (λ x. x) heap < a → is_live a heap ≡ false
live_above a [] h = refl
live_above a (x ∷ heap) h = ground (arith, live_above a heap)

-- An allocator that never gives an address twice, and registers of all ones.
abbrev roomy : Host
roomy = record {
  kzalloc = λ heap size. some (total (λ x. x) heap + 1);
  ioread32 = λ trace reg. 0xffff_ffff;
}

roomy-IsFresh : IsFresh roomy
roomy-IsFresh heap size a e = live_above a heap (ground arith)

abbrev core : PlatformDevice
core = record { compatible = some cap_ctl; resource = mapped 0x4300_0000; drvdata = none }

-- A board that holds one core already.
abbrev board : Board
board = record {
  ready = true;
  devices = core_device 0x10 (some 0x20) fpga_release_note (mapped 0x4200_0000) ∷ [];
  heap = 0x10 ∷ 0x20 ∷ [];
  trace = [];
}

probed_core :
    (pdev' : PlatformDevice) × (b' : Board) × (plip_probe roomy core board ≡ ok (probed, pdev', b'))
unfolding plip_probe match_data device_register device_alloc alloc_private add_device
probed_core = (_, _, refl)

plip_probe_cases_example :
    (r : Probe) × (pdev' : PlatformDevice) × (b' : Board) × (plip_probe roomy core board
      ≡ ok (r, pdev', b'))
    × ProbeCase roomy core board r pdev' b'
plip_probe_cases_example = plip_probe_cases roomy core board refl (refl, tt) roomy-IsFresh

plip_remove-plip_probe_example : plip_remove probed_core.0 probed_core.1 ≡ ok (0, board)
plip_remove-plip_probe_example =
    plip_remove-plip_probe roomy core board refl (refl, tt) probed_core.0 probed_core.1
      roomy-IsFresh probed_core.2

abbrev request : IocReg
request = record { addr = 3; value = 7; id = 1 }

plip_probe-Served_example : Served roomy request probed_core.1 0x4300_0000
unfolding match_data find_device
plip_probe-Served_example =
    plip_probe-Served roomy core board cap_ctl 0x4300_0000 request refl refl refl refl refl
      probed_core.0 probed_core.1 roomy-IsFresh (refl, tt) probed_core.2

answered :
    (reply : Reply) × (plipdev_ioctl roomy true ioc_reg_write (record request { id = 2 }) board
      ≡ ok reply)
unfolding plipdev_ioctl ioctl_write lookup_device find_device write_register ip_core_write
    match_data
answered = (_, refl)

plipdev_ioctl-IsAccess_example : IsAccess (record request { id = 2 }) board answered.0.board
plipdev_ioctl-IsAccess_example =
    plipdev_ioctl-IsAccess roomy true ioc_reg_write (record request { id = 2 }) board answered.0
      answered.1

abbrev no_node : Answers
no_node = record { has_memory = true; region_error = none; has_class = true; has_node = false }

plipdev_init-InitCase_example :
    let (r, m, b') = plipdev_init no_node nothing board in InitCase r m board b'
plipdev_init-InitCase_example = plipdev_init-InitCase no_node board
