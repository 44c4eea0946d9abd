-- ===== src/VxdmaDev/Lifetime.antt =====
-- vxdma/vxdma.c with vxdma/vxdma_dev.c, from the probe of a device to the runs of a client.
use petalinux_driver.Prelude.{
  refl, arith, ◌&&◌, Bool, false, ◌%◌, ◌==◌, ◌∙◌, true, ℕ, ◌≡◌, ◌∙◌, List, [], ◌∷◌, Option, some,
  All,
}
use petalinux_driver.Kernel.{dma_mem_to_dev, Event, Platform, code, ok}
use petalinux_driver.Vxdma.Chan.{Chan}
use petalinux_driver.Vxdma.Segment.{alloc_chan_resources}
use petalinux_driver.Vxdma.Probe.{
  number, mm2s, Node, Headers, DeviceNode, XilinxDevice, device_probe, xlate,
}
use petalinux_driver.Vxdma.Probe.Lookup.{device_probe-IsFound}
use petalinux_driver.VxdmaDev.{private_word, xdma_filter}
use petalinux_driver.VxdmaDev.Filter.{match_word, HasValues, xdma_filter-channel_word}
use petalinux_driver.VxdmaDev.Machine.Phases.{Machine, Phase, execute}
use petalinux_driver.VxdmaDev.Machine.Start.{started, started-Upright}
use petalinux_driver.VxdmaDev.Machine.Upright.{IsPlainPhase, Upright}
use petalinux_driver.VxdmaDev.Machine.Run.{execute-Upright}

and-true : (b : Bool) → (b && true) ≡ b
and-true true = refl
and-true false = refl

-- If the probe of a device with one channel, from memory to the device, succeeds, and there is
-- memory for the segments, then there is a channel such that the lookup of cell 1 gives what
-- dma_get_slave_channel makes of it, and that the filter of a client that asks for this direction
-- accepts exactly if the number of the device is a multiple of 16. Take calls that terminate
-- nothing, and prepare only scatterlists of at least one byte and cyclic buffers whose periods have
-- at least one byte and whose number of periods, as an unsigned int, is not 0. Once its segments
-- are allocated, every run of such calls, of interrupt handlers and submissions with such calls
-- before they take the lock, and of tasklet runs with such calls while their callbacks run, has a
-- result, whatever the device answers. The machine after it is upright: the channel is well-formed,
-- every descriptor that clients hold has a segment, all segments together are no more than were
-- allocated, the cookies that were given out are those that were finished followed by those still
-- in the channel, in order, and unless the tasklet is scheduled, the done list is empty or starts
-- with a cyclic descriptor. The headers' constants have the kernel's values.
pub execute-device_probe :
    (p : Platform) (k : Headers) (d : DeviceNode) (n : Node) (x : XilinxDevice) (m seg_p : ℕ)
    (get : Chan → Option Chan) (phases : List Phase)
    → HasValues k
    → d.children ≡ n ∷ []
    → n.kind ≡ mm2s
    → ((t : List Event) → p.dma_zalloc_coherent t ≡ some seg_p)
    → All IsPlainPhase phases
    → device_probe p k d ≡ ok (code m, some x)
    → (c : Chan) × (m' : Machine) × (device_id : ℕ) × (xlate get 1 x ≡ ok (get c))
      × (n.device_id ≡ number device_id)
      × (xdma_filter (private_word c.private) (some (match_word k dma_mem_to_dev))
          ≡ (device_id % 16 == 0))
      × (execute p phases (started (alloc_chan_resources p c).1) ≡ ok m')
      × Upright m'
execute-device_probe p k d n x m seg_p get phases values only kind memory proper h =
    let found = device_probe-IsFound p k d n x m only kind h in
    let c = found.chan in
    let upright = started-Upright p c seg_p (memory c.trace) found.unused in
    let (m', e, a, f) =
      execute-Upright p phases (started (alloc_chan_resources p c).1) proper upright in
    let (device_id, did, word) = found.word in
    let own : (k.direction_value dma_mem_to_dev == k.direction_value dma_mem_to_dev) ≡ true =
      ground arith in
    let asked : xdma_filter (private_word c.private) (some (match_word k dma_mem_to_dev))
        ≡ (device_id % 16 == 0) =
      rw word (
        xdma_filter-channel_word k dma_mem_to_dev dma_mem_to_dev device_id values
        ∙ simp (own, and-true)) in
    (c, m', device_id, found.second get, did, asked, e, a)
