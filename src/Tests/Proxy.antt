-- ===== src/Tests/Proxy.antt =====
-- vdmaproxy/dma_proxy.c, at concrete answers.
use petalinux_driver.Prelude.{ℕ, ◌≡◌, refl, Bool, true, false, [], ◌∷◌, none, arith}
use petalinux_driver.Kernel.{dma_mem_to_dev, code, fault, Fault}
use petalinux_driver.VxdmaDev.Transfer.{on_interrupt, on_tasklet}
use petalinux_driver.DmaProxy.{Proxy, proxy_no_error, Call, transfer, proxy_ioctl}
use petalinux_driver.DmaProxy.Transfers.{TransferCase, transfer-TransferCase, proxy_ioctl_no_bytes}
use petalinux_driver.DmaProxy.Module.{Opening, dma_proxy_init}
use petalinux_driver.DmaProxy.Module.Channel.{loaded}
use petalinux_driver.DmaProxy.Module.Start.{StartOf, dma_proxy_init-StartCase}
use petalinux_driver.Tests.Fixtures.{prompt_platform, waiting}
use petalinux_driver.Tests.Transfers.{waiting-Inv}

abbrev call : Call
call = record {
  cached_buffers = true;
  platform = prompt_platform;
  mapped_at = 0x2000_0000;
  cmp = 4;
  wakes = on_interrupt ∷ on_tasklet ∷ [];
}

-- A channel with two free segments.
abbrev proxy : ℕ → Proxy
proxy length = record {
  chan = waiting;
  direction = dma_mem_to_dev;
  length = length;
  status = proxy_no_error;
  interface_phys_addr = 0x3000_0000;
  dma_handle = 0;
  cookie = code 0;
  held = [];
}

transfer-TransferCase_example : TransferCase call (proxy 0x100) (transfer call (proxy 0x100))
transfer-TransferCase_example = transfer-TransferCase call (proxy 0x100) waiting-Inv (omega arith)

proxy_ioctl_no_bytes_example : proxy_ioctl call (proxy 0) ≡ fault Fault.wild_access
proxy_ioctl_no_bytes_example = proxy_ioctl_no_bytes call (proxy 0) refl refl refl

-- Answers to the start of a channel, with or without memory for its interface.
abbrev answers : Bool → Opening
answers allocated = record {
  found = true;
  region_error = none;
  cdev_error = none;
  class_made = true;
  parent_bad = false;
  node_made = true;
  allocated = allocated;
}

dma_proxy_init-StartCase_example :
    StartOf true (dma_proxy_init true (answers true) (answers true) loaded)
dma_proxy_init-StartCase_example =
    dma_proxy_init-StartCase true (answers true) (answers true) refl refl refl
