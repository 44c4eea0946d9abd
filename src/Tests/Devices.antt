-- ===== src/Tests/Devices.antt =====
-- The probe of a device of vxdma/vxdma.c, at concrete device trees.
use petalinux_driver.Prelude.{
  ◌%◌, ◌^◌, ◌<◌, ◌==◌, ◌&&◌, ℕ, ◌≡◌, refl, inr, true, false, List, [], ◌∷◌, Option, none, some,
  arith,
}
use petalinux_driver.Kernel.{
  Direction, dma_mem_to_dev, dma_dev_to_mem, other_direction, Errno, code, ok, fault, Fault,
}
use petalinux_driver.Vxdma.Probe.{
  channel_word, number, ChannelKind, mm2s, s2mm, Node, Headers, XilinxDevice, DeviceNode,
  blank_device, device_probe, chan_probe, probe_children, register_controller, channel_place,
  place_channel, finish_probe, set_slot, set_copy_align, xlate,
}
use petalinux_driver.Vxdma.Engine.{chan_reset}
use petalinux_driver.Vxdma.Probe.Table.{chan_probe-s2mm, device_probe-wild_access}
use petalinux_driver.Vxdma.Chan.{Chan}
use petalinux_driver.Vxdma.Segment.{alloc_chan_resources}
use petalinux_driver.VxdmaDev.{private_word, xdma_filter}
use petalinux_driver.VxdmaDev.Filter.{match_word, xdma_filter-channel_word}
use petalinux_driver.VxdmaDev.Lifetime.{execute-device_probe}
use petalinux_driver.VxdmaDev.Machine.Start.{started}
use petalinux_driver.VxdmaDev.Machine.Phases.{Machine, execute}
use petalinux_driver.VxdmaDev.Machine.Upright.{Upright}
use petalinux_driver.Tests.Machines.{crossed, crossed-IsPlain}
use petalinux_driver.Tests.Fixtures.{prompt_platform}

abbrev directions : Direction → ℕ
directions dma_mem_to_dev = 1
directions dma_dev_to_mem = 2
directions other_direction = 0

abbrev headers : Headers
headers = record {
  fls = λ n. 2;
  ip_dma = 0x10_0000;
  device_id_shift = 28;
  direction_value = directions;
}

abbrev channel_node : ChannelKind → Option Errno → Node
channel_node kind error = record {
  include_dre = false;
  datawidth = number 32;
  kind = kind;
  device_id = number 0;
  irq = 61;
  no_memory = false;
  irq_error = error;
}

abbrev device_node : List Node → DeviceNode
device_node children = record {
  no_memory = false;
  ioremap_error = none;
  include_sg = true;
  children = children;
  register_error = none;
}

chan_probe-s2mm_example :
    chan_probe prompt_platform headers (channel_node s2mm none) (blank_device true)
    ≡ fault Fault.out_of_bounds
chan_probe-s2mm_example =
    chan_probe-s2mm prompt_platform headers (channel_node s2mm none) (blank_device true) 32 0 refl
      refl refl refl refl

device_probe-wild_access_example :
    device_probe prompt_platform headers (device_node (channel_node mm2s (some Errno.ebusy) ∷ []))
    ≡ fault Fault.wild_access
device_probe-wild_access_example =
    device_probe-wild_access prompt_platform headers
      (device_node (channel_node mm2s (some Errno.ebusy) ∷ []))
      (channel_node mm2s (some Errno.ebusy)) 32 0 refl refl refl refl refl refl refl
      (inr (Errno.ebusy, refl))

registered :
    (x : XilinxDevice) × (device_probe prompt_platform headers
        (device_node (channel_node mm2s none ∷ []))
      ≡ ok (code 0, some x))
unfolding device_probe probe_children register_controller chan_probe channel_place place_channel
    finish_probe set_slot set_copy_align chan_reset
registered = (_, refl)

directions_small : (d : Direction) → directions d < 2 ^ 8
directions_small dma_mem_to_dev = omega arith
directions_small dma_dev_to_mem = omega arith
directions_small other_direction = omega arith

execute-device_probe_example :
    (c : Chan) × (m' : Machine) × (device_id : ℕ) × (xlate (λ c. some c) 1 registered.0
      ≡ ok (some c))
    × (number 0 ≡ number device_id)
    × (xdma_filter (private_word c.private) (some (match_word headers dma_mem_to_dev))
        ≡ (device_id % 16 == 0))
    × (execute prompt_platform crossed (started (alloc_chan_resources prompt_platform c).1) ≡ ok m')
    × Upright m'
execute-device_probe_example =
    execute-device_probe prompt_platform headers (device_node (channel_node mm2s none ∷ []))
      (channel_node mm2s none) registered.0 0 0x1000_0000 (λ c. some c) crossed
      (record { ip = refl; shift = refl; small = directions_small }) refl refl (λ t. refl)
      crossed-IsPlain registered.1

xdma_filter-channel_word_example :
    xdma_filter
      (private_word (channel_word headers dma_dev_to_mem 3))
      (some (match_word headers dma_dev_to_mem))
    ≡ ((3 % 16 == 0) && (2 == 2))
xdma_filter-channel_word_example =
    xdma_filter-channel_word headers dma_dev_to_mem dma_dev_to_mem 3
      (record { ip = refl; shift = refl; small = directions_small })
