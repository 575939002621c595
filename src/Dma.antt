-- ===== src/Dma.antt =====
-- include/modules/pcie_dma.hpp: `PcieGen4x16Dma`, a ring of 64 packets, a count of the packets
-- posted and the interrupt line.
pub mod Posts
mod Tests
use fpga_sim_core.Prelude.{
  ℕ, ◌+◌, ◌%◌, ◌^◌, Bool, true, false, Option, List, replicate, if◌then◌else◌,
}
use fpga_sim_core.Ring
use fpga_sim_core.Ring.{RingBuffer}

pub record PcieTlp : Type 0 where
  pub address : ℕ
  pub byte_count : ℕ
  pub tag : ℕ
  pub payload : List ℕ

abbrev pub ring_depth : ℕ
ring_depth = 64

-- `PcieTlp{}`.
unfoldable pub blank_tlp : PcieTlp
blank_tlp = record { address = 0; byte_count = 0; tag = 0; payload = replicate 256 0 }

pub record PcieGen4x16Dma : Type 0 where
  pub ring : RingBuffer PcieTlp
  pub posted : ℕ
  pub msix : Bool

unfoldable pub fresh : PcieGen4x16Dma
fresh = record { ring = Ring.empty ring_depth blank_tlp; posted = 0; msix = false }

unfoldable pub reset : PcieGen4x16Dma → PcieGen4x16Dma
reset d = record d { ring = Ring.empty ring_depth blank_tlp; posted = 0; msix = false }

unfoldable pub post_write : PcieGen4x16Dma → PcieTlp → PcieGen4x16Dma × Bool
post_write d tlp =
    let (ring', pushed) = Ring.push ring_depth d.ring tlp in
    if pushed
    then (record d { ring = ring'; posted = (d.posted + 1) % 2 ^ 64; msix = true }, true)
    else (record d { ring = ring' }, false)

unfoldable pub consume : PcieGen4x16Dma → PcieGen4x16Dma × Option PcieTlp
consume d =
    let (ring', tlp) = Ring.pop ring_depth blank_tlp d.ring in (record d { ring = ring' }, tlp)

unfoldable pub clear_msix : PcieGen4x16Dma → PcieGen4x16Dma
clear_msix d = record d { msix = false }
