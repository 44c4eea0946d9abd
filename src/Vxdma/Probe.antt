-- ===== src/Vxdma/Probe.antt =====
-- vxdma/vxdma.c, `xilinx_dma_chan_probe`, `xilinx_dma_probe`, `of_dma_xilinx_xlate` and the removal:
-- the table of a device's channels.
pub mod Table
pub mod Lookup
use petalinux_driver.Prelude.{
  ℕ, zero, suc, ◌+◌, ◌-◌, ◌*◌, ◌/◌, ◌%◌, ◌^◌, Bool, true, false, not, List, [], ◌∷◌, ◌++◌, Option,
  none, some, bit_and, bit_or, ltb, if◌then◌else◌,
}
use petalinux_driver.Kernel.{
  Direction, dma_mem_to_dev, dma_dev_to_mem, Errno, enomem, einval, Code, code, neg, Fault, Result,
  ok, fault, ◌>>=◌, freed_irq, killed_tasklet, Platform,
}
use petalinux_driver.Vxdma.Chan.{
  Chan, u32, not32, irq_all_mask, reg_control, mm2s_ctrl_offset, s2mm_ctrl_offset,
  max_chans_per_device, dma_ctrl_write,
}
use petalinux_driver.Vxdma.Engine.{chan_reset}

-- What a read of a number of the device tree gives.
pub data Property : Type 0 where
  number : ℕ → Property
  missing : Errno → Property

pub data ChannelKind : Type 0 where
  mm2s s2mm neither : ChannelKind

-- A channel's node of the device tree, with the answers of the services that are asked for it:
-- whether the allocation fails, and the error of `request_irq`, if there is one.
pub record Node : Type 0 where
  pub include_dre : Bool
  pub datawidth : Property
  pub kind : ChannelKind
  pub device_id : Property
  pub irq : ℕ
  pub no_memory : Bool
  pub irq_error : Option Errno

-- The constants of the kernel's headers, `fls`, and what a zeroed `struct dma_chan` starts with.
pub record Headers : Type 0 where
  pub fls : ℕ → ℕ
  pub ip_dma : ℕ
  pub device_id_shift : ℕ
  pub direction_value : Direction → ℕ

-- A channel in the table, and whether it is in the list of the engine's channels.
pub record Slot : Type 0 where
  pub chan : Chan
  pub listed : Bool

-- struct xilinx_dma_device
pub record XilinxDevice : Type 0 where
  pub has_sg : Bool
  pub copy_align : ℕ
  pub slots : List (Option Slot)

abbrev pub empty_table : List (Option Slot)
empty_table = none ∷ none ∷ []

-- `xdev->chan[i] = ...`
unfoldable pub set_slot : ℕ → Slot → List (Option Slot) → Result (List (Option Slot))
set_slot i s [] = fault Fault.out_of_bounds
set_slot zero s (x ∷ xs) = ok (some s ∷ xs)
set_slot (suc i) s (x ∷ xs) = do xs' ← set_slot i s xs; ok (x ∷ xs')

-- Without data realignment in the hardware, buffers are aligned to the width of the data.
unfoldable pub set_copy_align : Headers → Bool → ℕ → XilinxDevice → XilinxDevice
set_copy_align k include_dre value x =
    let width = value / 8 in
    let has_dre = if ltb 8 width then false else include_dre in
    if has_dre then x else record x { copy_align = k.fls (u32 (width + (2 ^ 32 - 1))) }

-- A zeroed channel.
pub blank_chan : Platform → Bool → (id offset : ℕ) → Direction → (private : ℕ) → Chan
blank_chan p has_sg id offset direction private = record {
  ctrl_offset = offset;
  ctrl_reg = 0;
  pending_list = [];
  done_list = [];
  active_list = [];
  free_seg_list = [];
  cookies = record { cookie = 0; completed_cookie = 0 };
  seg_p = 0;
  irq = 0;
  id = id;
  has_sg = has_sg;
  cyclic = false;
  err = false;
  idle = false;
  residue = 0;
  desc_pendingcount = 0;
  private = private;
  direction = direction;
  trace = [];
}

-- `channel_place` is the channel's index, its registers and its direction.
unfoldable pub channel_place : ChannelKind → Option (ℕ × ℕ × Direction)
channel_place mm2s = some (1, mm2s_ctrl_offset, dma_mem_to_dev)
channel_place s2mm = some (2, s2mm_ctrl_offset, dma_dev_to_mem)
channel_place neither = none

unfoldable pub channel_word : Headers → Direction → (device_id : ℕ) → ℕ
channel_word k direction device_id =
    bit_or (bit_or (bit_and (k.direction_value direction) 0xff) k.ip_dma)
      (u32 (device_id * 2 ^ k.device_id_shift))

abbrev pub store : XilinxDevice → ℕ → Slot → Result XilinxDevice
store x i s = set_slot i s x.slots >>= λ slots. ok (record x { slots = slots })

-- The channel is in the table before it is reset; the interrupt and the list come last. `chan` is
-- one object, so that what happens to it later shows in the table.
unfoldable pub finish_probe :
    Node → (i : ℕ) → Code × Chan → XilinxDevice → Result (Code × XilinxDevice)
finish_probe n i (neg e, c) x = do
  x' ← store x i (record { chan = c; listed = false })
  ok (neg e, x')
finish_probe n i (code _, c) x =
    let requested = record c { irq = n.irq } in
    elim n.irq_error [
      | some e ↦ do x' ← store x i (record { chan = requested; listed = false }); ok (neg e, x')
      | none ↦ do
        x' ← store x i (record { chan = record requested { idle = true }; listed = true })
        ok (code 0, x')
    ]

unfoldable pub place_channel :
    Platform → Headers → Node → ℕ × ℕ × Direction → XilinxDevice → Result (Code × XilinxDevice)
place_channel p k n (i, offset, direction) x = elim n.device_id [
  | missing e ↦ ok (neg e, x)
  | number device_id ↦
      let c = blank_chan p x.has_sg i offset direction (channel_word k direction device_id) in
      finish_probe n i (chan_reset p c) x
]

unfoldable pub chan_probe : Platform → Headers → Node → XilinxDevice → Result (Code × XilinxDevice)
chan_probe p k n x = if n.no_memory then ok (neg enomem, x) else elim n.datawidth [
  | missing e ↦ ok (neg e, x)
  | number value ↦
      let x' = set_copy_align k n.include_dre value x in
      elim (channel_place n.kind) [
        | none ↦ ok (neg einval, x')
        | some place ↦ place_channel p k n place x'
      ]
]

-- list_del of a node that was never in a list writes through its null links.
pub chan_remove : Slot → Result Slot
chan_remove s =
    let c₁ = record (s.chan) { ctrl_reg = bit_and (s.chan.ctrl_reg) (not32 irq_all_mask) } in
    let c₂ = dma_ctrl_write reg_control c₁.ctrl_reg c₁ in
    let c₃ = if ltb 0 c₂.irq then record c₂ { trace = freed_irq c₂.irq ∷ c₂.trace } else c₂ in
    let c₄ = record c₃ { trace = killed_tasklet ∷ c₃.trace } in
    if s.listed then ok (record { chan = c₄; listed = false }) else fault Fault.wild_access

-- The loop over the table, at the end of both functions.
pub remove_all : List (Option Slot) → Result (List (Option Slot))
remove_all [] = ok []
remove_all (none ∷ rest) = do rest' ← remove_all rest; ok (none ∷ rest')
remove_all (some s ∷ rest) = do s' ← chan_remove s; rest' ← remove_all rest; ok (some s' ∷ rest')

-- The loop over the children, up to the first that fails.
unfoldable pub probe_children :
    Platform → Headers → List Node → XilinxDevice → Result (Code × XilinxDevice)
probe_children p k [] x = ok (code 0, x)
probe_children p k (n ∷ ns) x = do
  (r, x') ← chan_probe p k n x
  elim r [ neg e ↦ ok (neg e, x') | code _ ↦ probe_children p k ns x' ]

abbrev pub clear_table : Errno → XilinxDevice → Result (Code × XilinxDevice)
clear_table e x = remove_all x.slots >>= λ slots. ok (neg e, record x { slots = slots })

-- `register_error` is the error of `of_dma_controller_register`, if there is one.
unfoldable pub register_controller :
    Option Errno → Code × XilinxDevice → Result (Code × XilinxDevice)
register_controller register_error (neg e, x) = clear_table e x
register_controller none (code _, x) = ok (code 0, x)
register_controller (some e) (code _, x) = clear_table e x

-- The device of the platform: the answers for its memory, its registers and the scatter-gather
-- property, and its children.
pub record DeviceNode : Type 0 where
  pub no_memory : Bool
  pub ioremap_error : Option Errno
  pub include_sg : Bool
  pub children : List Node
  pub register_error : Option Errno

abbrev pub blank_device : Bool → XilinxDevice
blank_device has_sg = record { has_sg = has_sg; copy_align = 0; slots = empty_table }

unfoldable pub device_probe : Platform → Headers → DeviceNode → Result (Code × Option XilinxDevice)
device_probe p k n = if n.no_memory then ok (neg enomem, none) else elim n.ioremap_error [
  | some e ↦ ok (neg e, none)
  | none ↦ do
    probed ← probe_children p k n.children (blank_device n.include_sg)
    (r, x) ← register_controller n.register_error probed
    ok (r, some x)
]

unfoldable pub device_remove : XilinxDevice → Result (Code × XilinxDevice)
device_remove x = do slots ← remove_all x.slots; ok (code 0, record x { slots = slots })

-- An entry of the table.
pub slot_at : ℕ → List (Option Slot) → Result (Option Slot)
slot_at i [] = fault Fault.out_of_bounds
slot_at zero (x ∷ xs) = ok x
slot_at (suc i) (x ∷ xs) = slot_at i xs

-- `chan_id` is an `int`: a cell of 2 ^ 31 or more is negative, and below the table. The channel of an
-- empty entry is a wild pointer.
-- `dma_get_slave_channel` gives NULL for a channel that somebody has.
pub xlate :
    (dma_get_slave_channel : Chan → Option Chan) (cell : ℕ) → XilinxDevice → Result (Option Chan)
xlate dma_get_slave_channel cell x =
    if ltb cell (2 ^ 31)
    then (if ltb cell max_chans_per_device
        then (do
          held ← slot_at cell x.slots
          elim held [
            | none ↦ fault Fault.wild_access
            | some s ↦ ok (dma_get_slave_channel (s.chan))
          ])
        else ok none)
    else fault Fault.out_of_bounds
