-- ===== src/Tests/Clients.antt =====
-- The clients of the DMA driver, the accelerator and the interrupt demo, at concrete answers.
use petalinux_driver.Prelude.{
  ◌+◌, ◌*◌, ◌-◌, ◌/◌, ◌≡◌, refl, true, false, [], ◌∷◌, ◌++◌, Option, none, some, ◌==◌, leb, length,
  if◌then◌else◌, arith,
}
use petalinux_driver.Kernel.{dma_mem_to_dev, Errno, did_read, wrote, ok, ◌>>=◌, is_ok}
use petalinux_driver.Vxdma.Chan.{Chan, TxDesc, max_trans_len}
use petalinux_driver.Vxdma.Prep.{fill, fill_fuel, prep_slave_sg, slave_request}
use petalinux_driver.Vxdma.Prep.Reference.{sizes, chopped, fill-sizes}
use petalinux_driver.Vxdma.Prep.Fits.{is_held, prep_slave_sg-is_held}
use petalinux_driver.VxdmaDev.Transfer.{on_interrupt, on_tasklet, axidma_start_transfer}
use petalinux_driver.VxdmaDev.Transfer.Wait.{Waited, axidma_start_transfer-Waited}
use petalinux_driver.VxdmaDev.Test.{Bench, Trial}
use petalinux_driver.VxdmaDev.Test.Buffers.{AreSound}
use petalinux_driver.Vxhls.{regs_at, Accel, Device, vxhls_read_reg, vxhls_write_reg}
use petalinux_driver.Vxhls.Registers.{vxhls_read_reg-vxhls_write_reg}
use petalinux_driver.Vxhls.Dev.{Side, HlsTrial, xhls_test}
use petalinux_driver.Vxhls.Dev.Ends.{HlsCase, xhls_test-HlsCase}
use petalinux_driver.IntrDemo.{Processes, Demo, signal_to, intr_demo_ioctl, look_up, Probing}
use petalinux_driver.IntrDemo.Signals.{interrupts, copies, interrupts-intr_demo_ioctl}
use petalinux_driver.IntrDemo.Resources.{ProbeCase, eg_module_probe-ProbeCase}
use petalinux_driver.Tests.Fixtures.{prompt_platform, busy, waiting}
use petalinux_driver.Tests.Transfers.{waiting-Inv}

fill-sizes_example :
    fill
      (fill_fuel busy)
      (slave_request prompt_platform dma_mem_to_dev none)
      0x2000_0000
      0x90_0000
      0
      []
      busy
    ≡ ok (
        chopped
          (slave_request prompt_platform dma_mem_to_dev none)
          0x2000_0000
          0
          (sizes 0x90_0000)
          []
          busy)
fill-sizes_example =
    fill-sizes (slave_request prompt_platform dma_mem_to_dev none) 0x2000_0000 0x90_0000 [] busy

prep_slave_sg-is_held_example :
    (held : Option TxDesc) × (c' : Chan) × (prep_slave_sg prompt_platform
        ((0x2000_0000, 0x190_0000) ∷ [])
        dma_mem_to_dev
        none
        busy
      ≡ ok (held, c'))
    × (is_held held
        ≡ leb ((0x190_0000 + (max_trans_len - 1)) / max_trans_len) (length busy.free_seg_list))
prep_slave_sg-is_held_example =
    prep_slave_sg-is_held prompt_platform 0x2000_0000 0x190_0000 dma_mem_to_dev none busy
      (omega arith) refl refl

axidma_start_transfer-Waited_example :
    Waited prompt_platform 4 (on_interrupt ∷ on_tasklet ∷ []) waiting (
      is_ok
        (axidma_start_transfer prompt_platform 4 4 true (on_interrupt ∷ on_tasklet ∷ []) waiting))
axidma_start_transfer-Waited_example =
    axidma_start_transfer-Waited prompt_platform 4 4 (on_interrupt ∷ on_tasklet ∷ []) waiting
      waiting-Inv

abbrev bench : Bench
bench = record { rx = waiting; tx = waiting; held = [] }

bench-AreSound : AreSound bench
bench-AreSound = record { rx = waiting-Inv; tx = waiting-Inv }

abbrev trial : Trial
trial = record {
  rx_platform = prompt_platform;
  tx_platform = prompt_platform;
  rx_found = true;
  tx_found = true;
  no_src = false;
  no_dest = false;
  rx_handle = 0x3000_0000;
  tx_handle = 0x2000_0000;
  rx_wakes = on_interrupt ∷ [];
  tx_wakes = on_interrupt ∷ on_tasklet ∷ [];
}

-- Registers that keep what is written to them.
abbrev memory : Device
memory [] reg = 0
memory (wrote at v ∷ t) reg = if reg == at then v else memory t reg
memory (_ ∷ t) reg = memory t reg

abbrev accel : Accel
accel = record { st = regs_at 0x4300_0000; trace = [] }

vxhls_read_reg-vxhls_write_reg_example :
    (vxhls_write_reg 2 7 accel >>= λ a'. vxhls_read_reg memory 2 a') ≡ (
      vxhls_read_reg memory 2 accel >>= λ r. ok (
        if 2 == 0 then 7 else r.0,
        record accel { trace = did_read (0x4300_0000 + 2) ∷ wrote (0x4300_0000 + 4 * 2) 7 ∷ [] },
      ))
vxhls_read_reg-vxhls_write_reg_example =
    vxhls_read_reg-vxhls_write_reg memory accel 0x4300_0000 2 7 (λ t at v reg. refl) refl

abbrev side : Side
side = record { platform = prompt_platform; handle = 0x2000_0000; wakes = on_interrupt ∷ [] }

abbrev hls_trial : HlsTrial
hls_trial = record {
  no_input_a = false;
  no_input_b = false;
  no_output = false;
  tx_found = true;
  rx_found = true;
  input_a = side;
  input_b = side;
  output = side;
}

xhls_test-HlsCase_example : HlsCase hls_trial bench (xhls_test memory hls_trial bench accel)
xhls_test-HlsCase_example =
    xhls_test-HlsCase memory hls_trial 0x4300_0000 bench accel bench-AreSound refl

-- One process, and then none.
abbrev one_process : Processes
one_process = record { find_vpid = λ owner. some owner; pid_task = λ pid. some 70 }

abbrev no_process : Processes
no_process = record { find_vpid = λ owner. none; pid_task = λ pid. none }

abbrev idle_demo : Demo
idle_demo = record { owner = 0; current_task = none; sent = [] }

interrupts-intr_demo_ioctl_example :
    (interrupts 10 (one_process ∷ no_process ∷ []) (intr_demo_ioctl true 1200 idle_demo).1).sent
    ≡ copies (one_process ∷ no_process ∷ []) (signal_to 10 70) ++ []
unfolding look_up
interrupts-intr_demo_ioctl_example =
    interrupts-intr_demo_ioctl 10 1200 70 one_process (no_process ∷ []) idle_demo refl refl

abbrev refused_irq : Probing
refused_irq = record {
  has_memory_resource = true;
  no_memory = false;
  region_granted = true;
  is_mapped = true;
  has_irq = true;
  irq_error = some Errno.ebusy;
}

eg_module_probe-ProbeCase_example : ProbeCase refused_irq 0
eg_module_probe-ProbeCase_example = eg_module_probe-ProbeCase refused_irq 0
