-- ===== src/Syscall/Screen.antt =====
-- `sys_fb_map` of src/syscall.rs.
use pinx_kernel.Prelude.{
  ℕ, zero, suc, ◌+◌, ◌-◌, ◌*◌, ◌/◌, ◌^◌, true, not, ◌||◌, ◌==◌, leb, none, some, if◌then◌else◌,
  List, ◌++◌, bit_and, add64, sub64, mul64,
}
use pinx_kernel.Prelude.Run.{Run, panic, ret, ◌>>=◌}
use pinx_kernel.Prelude.Bytes.{to_le}
use pinx_kernel.Pmm.{page_size}
use pinx_kernel.Vmm.{Vmm, vmm_map_user_mmio}
use pinx_kernel.Syscall.{Kernel, einval, user_range_valid, store}

abbrev pub fb_user_base : ℕ
fb_user_base = 0x0000_5000_0000_0000

-- What `graphics::framebuffer_*` return, and `mm::hhdm_offset`.
pub record Framebuffer : Type 0 where
  pub width : ℕ
  pub height : ℕ
  pub pitch : ℕ
  pub bpp : ℕ
  pub address : ℕ
  pub hhdm_offset : ℕ

-- The loop of `sys_fb_map` over the pages left, from `page` on.
unfoldable pub fb_pages : ℕ → Vmm → (physical_base page : ℕ) → Run Vmm
fb_pages zero s physical_base page = ret s
fb_pages (suc left) s physical_base page =
    elim (vmm_map_user_mmio s (add64 fb_user_base (mul64 page page_size))
      (add64 physical_base (mul64 page page_size))) [
        | none ↦ panic
        | some s' ↦ fb_pages left s' physical_base (page + 1)
      ]

-- The mapping, when FB_MAPPED is not set yet.
unfoldable pub map_once : Kernel → (physical size : ℕ) → Run Kernel
unfolding fb_pages
map_once k physical size =
    let offset = bit_and physical (page_size - 1) in
    let pages = add64 (add64 size offset) (page_size - 1) / page_size in
    if not k.fb_mapped
    then (do
      s ← fb_pages pages k.memory.vmm (physical - offset) 0
      ret (record k { memory = record k.memory { vmm = s }; fb_mapped = true }))
    else ret k

-- `PinxFramebufferInfo`, five words.
abbrev pub info_size : ℕ
info_size = 40

abbrev pub info_bytes : Framebuffer → List ℕ
info_bytes fb =
    to_le 8 fb_user_base
    ++ to_le 8 fb.width
    ++ to_le 8 fb.height
    ++ to_le 8 fb.pitch
    ++ to_le 8 fb.bpp

unfoldable pub sys_fb_map : Framebuffer → Kernel → ℕ → Run (ℕ × Kernel)
unfolding user_range_valid map_once store to_le
sys_fb_map fb k info =
    if not (user_range_valid k.memory.vmm info info_size)
    then ret (einval, k)
    else if fb.width == 0 || fb.height == 0 || fb.pitch == 0 || fb.bpp == 0
    then ret (einval, k)
    else if fb.address == 0
    then ret (einval, k)
    else if leb (2 ^ 64) (fb.pitch * fb.height)
    then ret (einval, k)
    else do
      k' ← map_once k (sub64 fb.address fb.hhdm_offset) (fb.pitch * fb.height)
      m ← store k'.memory info (info_bytes fb)
      ret (0, record k' { memory = m })
