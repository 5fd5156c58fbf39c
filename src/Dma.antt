-- ===== src/Dma.antt =====
-- include/speutils/spu_dmalib.h: the calls of the MFC intrinsics that each function makes, in order.
use speutils_debs.Base.{
  ℕ, zero, suc, ◌+◌, ◌*◌, ◌/◌, ◌%◌, ◌^◌, Bool, List, [], ◌∷◌, ◌==◌, u32, Outcome, ok, ◌>>=◌,
}
pub mod Masks
pub mod Wait
pub mod Examples

pub data Direction : Type 0 where
  get : Direction
  put : Direction

-- The plain command, the one with a barrier and the one with a fence.
pub data Order : Type 0 where
  plain : Order
  barrier : Order
  fence : Order

-- The calls: mfc_get, mfc_getb, mfc_putf, …; mfc_getl, …; mfc_write_tag_mask;
-- mfc_read_tag_status_any and _all; mfc_getllar, mfc_putllc, mfc_putlluc, mfc_putqlluc; and
-- spu_readch(MFC_RdAtomicStat).
pub data Call : Type 0 where
  transfer : Direction → Order → (ls ea size tag : ℕ) → Call
  transfer_list : Direction → Order → (ls ea list size tag : ℕ) → Call
  write_tag_mask : (mask : ℕ) → Call
  read_tag_status_any : Call
  read_tag_status_all : Call
  getllar : (ls ea : ℕ) → Call
  putllc : (ls ea : ℕ) → Call
  putlluc : (ls ea : ℕ) → Call
  putqlluc : (ls ea tag : ℕ) → Call
  read_atomic_status : Call

-- 1<<tag
unfoldable pub bit_of : ℕ → ℕ
bit_of tag = u32 (2 ^ tag)

unfoldable pub dma_get_n_wait : (ls ea size tag : ℕ) → List Call
dma_get_n_wait ls ea size tag =
    transfer get plain ls ea size tag ∷ write_tag_mask (bit_of tag) ∷ read_tag_status_any ∷ []

unfoldable pub dma_put_n_wait : (ls ea size tag : ℕ) → List Call
dma_put_n_wait ls ea size tag =
    transfer put plain ls ea size tag ∷ write_tag_mask (bit_of tag) ∷ read_tag_status_any ∷ []

unfoldable pub dma_wait_tag : (tag : ℕ) → List Call
dma_wait_tag tag = write_tag_mask (bit_of tag) ∷ read_tag_status_all ∷ []

unfoldable pub dma_wait_all : (mask : ℕ) → List Call
dma_wait_all mask = write_tag_mask mask ∷ read_tag_status_all ∷ []

unfoldable pub dma_wait_any : (mask : ℕ) → List Call
dma_wait_any mask = write_tag_mask mask ∷ read_tag_status_any ∷ []

unfoldable pub dma_get : (ls ea size tag : ℕ) → List Call
dma_get ls ea size tag = transfer get plain ls ea size tag ∷ []

unfoldable pub dma_getb : (ls ea size tag : ℕ) → List Call
dma_getb ls ea size tag = transfer get barrier ls ea size tag ∷ []

unfoldable pub dma_getf : (ls ea size tag : ℕ) → List Call
dma_getf ls ea size tag = transfer get fence ls ea size tag ∷ []

unfoldable pub dma_put : (ls ea size tag : ℕ) → List Call
dma_put ls ea size tag = transfer put plain ls ea size tag ∷ []

unfoldable pub dma_putb : (ls ea size tag : ℕ) → List Call
dma_putb ls ea size tag = transfer put barrier ls ea size tag ∷ []

unfoldable pub dma_putf : (ls ea size tag : ℕ) → List Call
dma_putf ls ea size tag = transfer put fence ls ea size tag ∷ []

-- list_size*sizeof(mfc_list_element_t), as a uint32_t; `element` is the size of that type.
unfoldable pub list_bytes : (element list_size : ℕ) → ℕ
list_bytes element list_size = u32 (list_size * element)

unfoldable pub dma_getl : (element ls ea list list_size tag : ℕ) → List Call
dma_getl element ls ea list list_size tag =
    transfer_list get plain ls ea list (list_bytes element list_size) tag ∷ []

unfoldable pub dma_getlb : (element ls ea list list_size tag : ℕ) → List Call
dma_getlb element ls ea list list_size tag =
    transfer_list get barrier ls ea list (list_bytes element list_size) tag ∷ []

unfoldable pub dma_getlf : (element ls ea list list_size tag : ℕ) → List Call
dma_getlf element ls ea list list_size tag =
    transfer_list get fence ls ea list (list_bytes element list_size) tag ∷ []

unfoldable pub dma_putl : (element ls ea list list_size tag : ℕ) → List Call
dma_putl element ls ea list list_size tag =
    transfer_list put plain ls ea list (list_bytes element list_size) tag ∷ []

unfoldable pub dma_putlb : (element ls ea list list_size tag : ℕ) → List Call
dma_putlb element ls ea list list_size tag =
    transfer_list put barrier ls ea list (list_bytes element list_size) tag ∷ []

unfoldable pub dma_putlf : (element ls ea list list_size tag : ℕ) → List Call
dma_putlf element ls ea list list_size tag =
    transfer_list put fence ls ea list (list_bytes element list_size) tag ∷ []

unfoldable pub atomic_get : (ls ea : ℕ) → List Call
atomic_get ls ea = getllar ls ea ∷ read_atomic_status ∷ []

-- The result is the status that the last call reads, with the bits of MFC_PUTLLC_STATUS.
unfoldable pub atomic_putc : (ls ea : ℕ) → List Call
atomic_putc ls ea = putllc ls ea ∷ read_atomic_status ∷ []

unfoldable pub atomic_putuc : (ls ea : ℕ) → List Call
atomic_putuc ls ea = putlluc ls ea ∷ read_atomic_status ∷ []

unfoldable pub atomicq_putuc : (ls ea tag : ℕ) → List Call
atomicq_putuc ls ea tag = putqlluc ls ea tag ∷ []
