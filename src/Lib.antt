-- ===== src/Lib.antt =====
-- Verification library of the petalinuxDriver kernel modules.
--
-- The repository holds Linux drivers for the programmable logic of a board. The parts with logic of
-- their own, and the files that model them:
--   vxdma/vxdma.h, vxdma/vxdma.c   the driver of the Xilinx AXI DMA engine
--     Vxdma/Chan       registers, hardware descriptors, segments, descriptors, `struct
--                      xilinx_dma_chan`, and the register accessors
--     Vxdma/Segment    the pool of segments: xilinx_dma_alloc_tx_segment to
--                      xilinx_dma_free_chan_resources
--     Vxdma/Engine     xilinx_dma_halt, _start, _chan_reset, _start_transfer, _issue_pending
--     Vxdma/Queue      xilinx_dma_irq_handler, _complete_descriptor, _chan_desc_cleanup,
--                      append_desc_queue, xilinx_dma_tx_submit, _tx_status, _terminate_all
--     Vxdma/Prep       xilinx_dma_prep_slave_sg, _prep_dma_cyclic
--     Vxdma/Probe      xilinx_dma_chan_probe, _probe, _remove, of_dma_xilinx_xlate
--     Vxdma/Pool, Ring, Invariant, Terminate and the modules below Engine, Queue, Prep and Probe
--     hold the theorems, named for what they are about; Prelude/Bits has the arithmetic of bit fields.
--   vxdma/vxdma_dev.c              a client of the engine
--     VxdmaDev           axidma_prep_buffer, xdma_filter
--     VxdmaDev/Client    the client's calls with the driver's interrupts and tasklet runs, as steps
--     VxdmaDev/Protocol  the stages of a transfer, as a client may think of them
--     VxdmaDev/Transfer  axidma_start_transfer, the wait for a completion
--     VxdmaDev/Filter    the word of vxaxidma_test's requests
--     VxdmaDev/Test      axidma_test_transfer, vxaxidma_test, vxdma_dev_ioctl
--     VxdmaDev/Machine   a channel with its tasklet, under the calls of any clients: between the
--                        tasklet's runs, while one of its callbacks has the lock given back, and
--                        before the interrupt handler or a submission takes the lock
--     VxdmaDev/Run, Timeline, Refinement, Status, Lifetime and the modules below Machine, Transfer and
--     Test hold the theorems.
--   vdmaproxy/dma_proxy.c          a channel that user space drives through shared memory
--     DmaProxy           start_transfer (here `proxy_start`), wait_for_transfer, transfer, ioctl, mmap
--     DmaProxy/Module    cdevice_init, cdevice_exit, create_channel, dma_proxy_init, dma_proxy_exit
--     DmaProxy/Transfers, Module/Channel and Module/Start hold the theorems.
--   vxhls/                         an accelerator behind the DMA engine
--     Vxhls              vxhls.c: register access, probe and removal
--     Vxhls/Dev          vxhls_dev.c: its set-up, the test of two matrices and the ioctl
--     Vxhls/Registers and the modules below Dev hold the theorems.
--   axidma/axidma.c                the test of vxdma_dev.c as a module
--     Axidma             its operations; Axidma/Start compares them
--   intrDemo/intrDemo.c            an interrupt that reaches a process as a signal
--     IntrDemo           its operations; IntrDemo/Signals and IntrDemo/Resources hold the theorems
--   plIpcore/                      the list of the board's cores and the access to their registers
--     Plip             plIpcore.c, commonIp.c and plIpcore_utils.c
--     Plip/Dev         plipdev_ioctl of plIpcore_dev.c
--     Plip/Module      plipdev_init and plipdev_exit of plIpcore_dev.c
--     Plip/Heap, Plip/Register and Plip/Ioctl hold the theorems.
-- CharDev has the steps that four of these modules take to make their character device.
-- Kernel holds what the drivers take from the Linux kernel: error numbers, the fault of a null or
-- wild access and of `BUG()`, the history of events, and `Platform`, whose fields are the answers
-- of the device, of the allocators and of the dmaengine cookie helpers. They are parameters of every
-- operation and may depend on the whole history, so a theorem holds whatever the device answers.
-- Kernel/Ledger is what a driver holds of the kernel: buffers, mappings, channels, an interrupt; to
-- give back what is not held is a fault.
-- Tests holds concrete channels and the theorems applied to them.
--
-- Correspondence. An operation has its C function's name without the prefix `xilinx_dma_` and
-- takes and gives the channel. An intrusive list is a `List`; a segment stands in the one list that
-- holds it. A `u32` field is a number, and `% 2 ^ 32` is written out where the C code wraps.
-- `list_first_entry` and `list_last_entry` of a list that may be empty, and `BUG()`, are values of
-- `Fault`. What the driver does under its spin lock is one step here. Three parts of it are not under
-- one hold of the lock: the tasklet gives the lock back for each callback, the interrupt handler takes
-- it only for the completion, and a submission tests and resets the channel before it takes it. In
-- Vxdma/Queue nothing comes in between, in VxdmaDev/Machine any calls do, given as one list for each
-- round of the tasklet's loop, one for the handler and one for the submission; calls that come in
-- between have no such gaps of their own. A client's preparation and its submission are separate calls
-- there, and a descriptor may wait between them. Two other pieces of code run without the lock and are
-- one step all the same: the freeing of a descriptor that is refused, and what a preparation does
-- besides taking segments.
--
-- Fuel. The loop that cuts a stretch into segments has one round for each free segment and two more;
-- the pool ends the loop before the fuel does.
--
-- A wait is a list of the interrupts and tasklet runs that fall into it, in their order; it is over in
-- time if one of them calls the client's completion. Two channels of one client run one after the
-- other, since they share no state of the driver.
--
-- Not modelled: messages, the order of a lock's holders, the contents of the buffers and the loops that
-- compare or print them, the mapping of user space pages behind `mmap`, and the internal test of
-- vdmaproxy/dma_proxy.c, which is not compiled.
mod Prelude
pub mod Kernel
pub mod CharDev
pub mod Vxdma
pub mod VxdmaDev
pub mod Vxhls
pub mod IntrDemo
pub mod DmaProxy
pub mod Plip
pub mod Axidma
mod Tests
