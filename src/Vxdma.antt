-- ===== src/Vxdma.antt =====
-- vxdma/vxdma.c and vxdma/vxdma.h: the driver of the Xilinx AXI DMA engine.
pub mod Chan
pub mod Segment
pub mod Engine
pub mod Queue
pub mod Prep
pub mod Pool
pub mod Invariant
pub mod Ring
pub mod Terminate
pub mod Probe
