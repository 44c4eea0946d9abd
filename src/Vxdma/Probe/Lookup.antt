-- ===== src/Vxdma/Probe/Lookup.antt =====
-- vxdma/vxdma.c, `of_dma_xilinx_xlate`: what a client finds in the table of a device that is probed.
use petalinux_driver.Prelude.{
  ℕ, ◌≡◌, refl, inl, inr, true, false, [], ◌∷◌, Option, none, some, Bool-cases, Option-cases, arith,
}
use petalinux_driver.Kernel.{
  Direction, Errno, Code, code, neg, Fault, Result, ok, fault, ◌>>=◌, >>=-eq-ok, Platform,
}
use petalinux_driver.Vxdma.Chan.{Chan, mm2s_ctrl_offset}
use petalinux_driver.Vxdma.Engine.{chan_reset}
use petalinux_driver.Vxdma.Engine.Frame.{chan_reset_frame}
use petalinux_driver.Vxdma.Probe.{
  number, mm2s, Node, Headers, XilinxDevice, empty_table, set_slot, set_copy_align, blank_chan,
  channel_place, channel_word, finish_probe, place_channel, chan_probe, probe_children,
  register_controller, DeviceNode, blank_device, device_probe, slot_at, xlate,
}
use petalinux_driver.Vxdma.Probe.Table.{Property-cases}

-- A channel without descriptors, ready for the allocation of its segments.
pub record IsUnused (c : Chan) : Type 0 where
  pub free : c.free_seg_list ≡ []
  pub pending : c.pending_list ≡ []
  pub active : c.active_list ≡ []
  pub done : c.done_list ≡ []
  pub count : c.desc_pendingcount ≡ 0
  pub idle : c.idle ≡ true
  pub plain : c.cyclic ≡ false

-- What the lookup gives in a device that is probed.
pub record IsFound (k : Headers) (n : Node) (x : XilinxDevice) : Type 0 where
  pub chan : Chan
  pub second : (get : Chan → Option Chan) → xlate get 1 x ≡ ok (get chan)
  pub first : (get : Chan → Option Chan) → xlate get 0 x ≡ fault Fault.wild_access
  pub beyond : (get : Chan → Option Chan) → xlate get 2 x ≡ ok none
  pub unused : IsUnused chan
  pub irq : chan.irq ≡ n.irq
  pub place : (chan.id ≡ 1) × (chan.ctrl_offset ≡ mm2s_ctrl_offset)
  pub word :
      (device_id : ℕ) × (n.device_id ≡ number device_id)
      × (chan.private ≡ channel_word k Direction.dma_mem_to_dev device_id)

finish_probe-IsFound :
    (h : Headers) (n : Node) (r : Code × Chan) (c : Chan) (x x' : XilinxDevice) (k device_id : ℕ)
    → x.slots ≡ empty_table
    → r.1 ≡ record c { ctrl_reg = (r.1).ctrl_reg; err = (r.1).err; trace = (r.1).trace }
    → c ≡ record c {
      free_seg_list = [];
      pending_list = [];
      active_list = [];
      done_list = [];
      desc_pendingcount = 0;
      cyclic = false;
      id = 1;
      ctrl_offset = 0;
    }
    → n.device_id ≡ number device_id
    → c.private ≡ channel_word h Direction.dma_mem_to_dev device_id
    → finish_probe n 1 r x ≡ ok (code k, x')
    → IsFound h n x'
unfolding finish_probe set_slot xlate slot_at
finish_probe-IsFound hs n (neg e, c') c x x' k device_id h u b did w q = ground arith
finish_probe-IsFound hs n (code m, c') c x x' k device_id h u b did w q =
    elim (Option-cases n.irq_error) [
      | inr (e, bad) ↦ ground arith
      | inl fine ↦ record {
        chan = record c' { irq = n.irq; idle = true };
        second = ground arith;
        first = ground arith;
        beyond = ground arith;
        unused = record {
          free = ground arith;
          pending = ground arith;
          active = ground arith;
          done = ground arith;
          count = ground arith;
          idle = refl;
          plain = ground arith;
        };
        irq = refl;
        place = (ground arith, ground arith);
        word = (device_id, did, ground arith);
      }
    ]

chan_probe-IsFound :
    (p : Platform) (k : Headers) (n : Node) (x x' : XilinxDevice) (m : ℕ)
    → n.kind ≡ mm2s
    → x.slots ≡ empty_table
    → chan_probe p k n x ≡ ok (code m, x')
    → IsFound k n x'
unfolding chan_probe channel_place place_channel set_copy_align blank_chan
chan_probe-IsFound p k n x x' m kind h e = elim (Bool-cases n.no_memory) [
  | inl none_left ↦ ground arith
  | inr room ↦ elim (Property-cases n.datawidth) [
    | inr (e₁, bad) ↦ ground arith
    | inl (width, dw) ↦ elim (Property-cases n.device_id) [
      | inr (e₁, bad) ↦ ground arith
      | inl (device_id, did) ↦
          let x₁ = set_copy_align k n.include_dre width x in
          let c =
            blank_chan p x₁.has_sg 1 0 Direction.dma_mem_to_dev
              (channel_word k Direction.dma_mem_to_dev device_id) in
          finish_probe-IsFound k n (chan_reset p c) c x₁ x' m device_id (ground arith)
            (chan_reset_frame p c) refl did refl (ground arith)
    ]
  ]
]

register_controller-code :
    (o : Option Errno) (r : Code) (x x' : XilinxDevice) (m : ℕ)
    → register_controller o (r, x) ≡ ok (code m, x')
    → (j : ℕ) × (r ≡ code j) × (x ≡ x')
unfolding register_controller
register_controller-code o (neg e) x x' m h = ground arith
register_controller-code none (code j) x x' m h = (j, refl, ground arith)
register_controller-code (some e) (code j) x x' m h = ground arith

probe_one :
    (p : Platform) (k : Headers) (n : Node) (x x' : XilinxDevice) (m : ℕ)
    → probe_children p k (n ∷ []) x ≡ ok (code m, x')
    → (j : ℕ) × (chan_probe p k n x ≡ ok (code j, x'))
unfolding probe_children
probe_one p k n x x' m h =
    let ((r, x₁), e, rest) = >>=-eq-ok (chan_probe p k n x) _ h in ends r x₁ e rest
  where
    ends :
        (r : Code) (x₁ : XilinxDevice)
        → chan_probe p k n x ≡ ok (r, x₁)
        → elim r [ neg e ↦ ok (neg e, x₁) | code _ ↦ probe_children p k [] x₁ ] ≡ ok (code m, x')
        → (j : ℕ) × (chan_probe p k n x ≡ ok (code j, x'))
    ends (neg e) x₁ q rest = cc
    ends (code j) x₁ q rest = (j, ground arith)

-- If the probe of a device with one channel, from memory to the device, succeeds, then a lookup of
-- cell 1 gives a channel at the first registers with the interrupt of its node, with the word of
-- its direction and of the number of its node, without descriptors and segments, not cyclic and
-- idle; a lookup of cell 0 makes a wild access, and of cell 2 gives no channel.
pub device_probe-IsFound :
    (p : Platform) (k : Headers) (d : DeviceNode) (n : Node) (x : XilinxDevice) (m : ℕ)
    → d.children ≡ n ∷ []
    → n.kind ≡ mm2s
    → device_probe p k d ≡ ok (code m, some x)
    → IsFound k n x
unfolding device_probe
device_probe-IsFound p k d n x m only kind h = elim (Bool-cases d.no_memory) [
  | inl none_left ↦ ground arith
  | inr room ↦ elim (Option-cases d.ioremap_error) [
    | inr (e, bad) ↦ ground arith
    | inl fine ↦
        let x₀ = blank_device d.include_sg in
        let register : Code × XilinxDevice → Result (Code × Option XilinxDevice) =
          λ y. register_controller d.register_error y >>= λ z. ok (z.0, some z.1) in
        let h' : (probe_children p k d.children x₀ >>= register) ≡ ok (code m, some x) =
          ground arith in
        let ((r, x₁), e, rest) = >>=-eq-ok (probe_children p k d.children x₀) register h' in
        let ((r₂, x₂), e₂, rest₂) =
          >>=-eq-ok (register_controller d.register_error (r, x₁)) _ rest in
        let (j, q, same) = register_controller-code d.register_error r x₁ x m (ground arith) in
        let (i, done) = probe_one p k n x₀ x j (ground arith) in
        chan_probe-IsFound p k n x₀ x i kind refl done
  ]
]
