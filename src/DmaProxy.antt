-- ===== src/DmaProxy.antt =====
-- vdmaproxy/dma_proxy.c, vdmaproxy/dma_proxy.h: a channel that user space drives through memory it
-- shares with the kernel. A transfer; Module has the start and the end of the module.
pub mod Transfers
pub mod Module
use petalinux_driver.Prelude.{
  ℕ, ◌+◌, Bool, true, false, List, [], ◌∷◌, map, Option, none, some, ltb, ◌==◌, if◌then◌else◌,
}
use petalinux_driver.Kernel.{
  Direction, DmaStatus, Platform, ebusy, eagain, Code, code, neg, Result, ok, ◌>>=◌,
}
use petalinux_driver.Kernel.Ledger.{Resource, mapping, release}
use petalinux_driver.Vxdma.Chan.{TxDesc, Chan}
use petalinux_driver.Vxdma.Engine.{issue_pending}
use petalinux_driver.Vxdma.Queue.{tx_submit}
use petalinux_driver.Vxdma.Prep.{prep_slave_sg}
use petalinux_driver.VxdmaDev.Transfer.{
  Wake, Report, not_waited, timed_out, finished, ended_with, completions, wait_for,
}

pub data ProxyStatus : Type 0 where
  proxy_no_error proxy_busy proxy_timeout proxy_error : ProxyStatus

-- struct dma_proxy_channel with its interface: `length` and `status` are the shared fields.
pub record Proxy : Type 0 where
  pub chan : Chan
  pub direction : Direction
  pub length : ℕ
  pub status : ProxyStatus
  pub interface_phys_addr : ℕ
  pub dma_handle : ℕ
  pub cookie : Code
  pub held : List Resource

-- The answers to a transfer: the module's parameter, the device, the address of a mapping, and what
-- happens during the wait. The channel's completion is `cmp`.
pub record Call : Type 0 where
  pub cached_buffers : Bool
  pub platform : Platform
  pub mapped_at : ℕ
  pub cmp : ℕ
  pub wakes : List Wake

-- The buffer is the first field of the interface.
abbrev pub buffer_offset : ℕ
buffer_offset = 0

-- What was prepared is submitted, and issued whether the submission was accepted or not.
pub submit_and_issue : Call → Option TxDesc → Chan → Result (Code × Chan)
submit_and_issue q none c = ok (neg ebusy, c)
submit_and_issue q (some d) c = do
  (r, c₁) ← tx_submit q.platform (record d { callback = some (q.cmp) }) c
  c₂ ← issue_pending q.platform c₁
  ok (r, c₂)

pub proxy_start : Call → Proxy → Result (Code × Chan)
proxy_start q x = do
  (chan_desc, c) ← prep_slave_sg q.platform ((x.dma_handle, x.length) ∷ []) x.direction none x.chan
  submit_and_issue q chan_desc c

pub status_of : Report → ProxyStatus
status_of not_waited = proxy_busy
status_of timed_out = proxy_timeout
status_of finished = proxy_no_error
status_of (ended_with s) = proxy_error

pub unmap : Call → List Resource → Result (List Resource)
unmap q held = if q.cached_buffers then release (mapping 0) held else ok held

-- `before` is how often the completion was called before the transfer, which initialised it.
pub wait_for_transfer : Call → (cookie before : ℕ) → Proxy → Result Proxy
wait_for_transfer q cookie before x = do
  (r, c) ← wait_for q.platform q.cmp cookie before q.wakes x.chan
  held ← unmap q x.held
  ok (record x { chan = c; status = status_of r; held = held })

pub prepare_buffer : Call → Proxy → Proxy
prepare_buffer q x =
    if q.cached_buffers
    then record x { dma_handle = q.mapped_at; held = mapping 0 ∷ x.held }
    else record x { dma_handle = x.interface_phys_addr + buffer_offset }

-- A submission that is refused ends the transfer as it stands.
pub after_start : Call → (before : ℕ) → Code × Chan → Proxy → Result Proxy
after_start q before (neg e, c) x = ok (record x { chan = c; cookie = neg e })
after_start q before (code k, c) x =
    wait_for_transfer q k before (record x { chan = c; cookie = code k })

pub transfer : Call → Proxy → Result Proxy
transfer q x =
    let x' = prepare_buffer q x in
    proxy_start q x' >>= λ r. after_start q (completions q.cmp x.chan.trace) r x'

-- The result does not tell how the transfer went.
pub proxy_ioctl : Call → Proxy → Result (Code × Proxy)
proxy_ioctl q x = do x' ← transfer q x; ok (code 0, x')

-- `remap_failed` says whether `remap_pfn_range` failed, `common` is the result of `dma_common_mmap`.
pub proxy_mmap : (cached_buffers : Bool) → (remap_failed : Bool) → (common : Code) → Code
proxy_mmap cached_buffers remap_failed common =
    if cached_buffers then (if remap_failed then neg eagain else code 0) else common
