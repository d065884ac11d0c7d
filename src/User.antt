-- ===== src/User.antt =====
-- src/user.rs: the loader of user programs. The image is the list of its bytes; memory is the page
-- tables and the bytes of the frames, by physical address.
pub mod Header
pub mod Spawn
mod Tests
use pinx_kernel.Prelude.{
  ℕ, zero, suc, ◌+◌, ◌-◌, ◌*◌, ◌^◌, Bool, true, false, not, ◌&&◌, ◌||◌, ◌==◌, ltb, leb, Option,
  none, some, if◌then◌else◌, List, [], ◌∷◌, length, get_or, slice, min, max, bit_and, add64, sub64,
  mul64, not64,
}
use pinx_kernel.Prelude.Run.{Run, panic, out_of_fuel, ret, ◌>>=◌}
use pinx_kernel.Prelude.Bytes.{le_at, bytes_eq}
use pinx_kernel.Pmm.{page_size, no_page, alloc_page}
use pinx_kernel.Vmm.{Vmm, no_phys, vmm_virt_to_phys, vmm_map_user_page}

-- The page tables, and the bytes of the frames.
pub record Memory : Type 0 where
  pub vmm : Vmm
  pub bytes : ℕ → ℕ

-- `write_bytes(phys_to_virt(frame), 0, PAGE_SIZE)`.
unfoldable pub zero_frame : (ℕ → ℕ) → ℕ → ℕ → ℕ
zero_frame bytes frame a = if leb frame a && ltb a (frame + page_size) then 0 else bytes a

-- `copy_nonoverlapping` of `count` bytes of the image from `source` on.
unfoldable pub copy_image : (ℕ → ℕ) → (image : List ℕ) → (source dst count : ℕ) → ℕ → ℕ
copy_image bytes image source dst count a =
    if leb dst a && ltb a (dst + count) then get_or image (source + (a - dst)) 0 else bytes a

-- A frame from the memory manager, zeroed and mapped at `page` for ring 3; `false` when no frame is
-- left.
unfoldable pub add_page : Memory → ℕ → Run (Bool × Memory)
unfolding zero_frame
add_page m page =
    let (frame, pmm) = alloc_page m.vmm.pmm in
    if frame == no_page
    then ret (false, m)
    else elim (vmm_map_user_page (record m.vmm { pmm = pmm }) page frame) [
      | none ↦ panic
      | some vmm ↦ ret (true, record { vmm = vmm; bytes = zero_frame m.bytes frame })
    ]

abbrev pub user_stack_top : ℕ
user_stack_top = 0x0000_7FFF_0000_0000

abbrev pub user_stack_pages : ℕ
user_stack_pages = 16

abbrev pub user_stack_span : ℕ
user_stack_span = (user_stack_pages + 2) * page_size

-- The loop of `map_user_stack` from page `i` on.
unfoldable pub stack_pages : ℕ → Memory → ℕ → ℕ → Run Memory
stack_pages zero m top i = ret m
stack_pages (suc left) m top i = do
  (done, m') ← add_page m (sub64 top ((user_stack_pages - i) * page_size))
  if done then stack_pages left m' top (i + 1) else panic

-- `map_user_stack`, with NEXT_STACK: the stack's top, the next one, and memory.
unfoldable pub map_user_stack : Memory → ℕ → Run (ℕ × ℕ × Memory)
unfolding stack_pages
map_user_stack m next_stack = do
  m' ← stack_pages user_stack_pages m next_stack 0
  ret (next_stack, sub64 next_stack user_stack_span, m')

unfoldable pub read_u16 : List ℕ → ℕ → Run ℕ
unfolding le_at
read_u16 image offset = le_at 2 image offset

unfoldable pub read_u32 : List ℕ → ℕ → Run ℕ
unfolding le_at
read_u32 image offset = le_at 4 image offset

unfoldable pub read_u64 : List ℕ → ℕ → Run ℕ
unfolding le_at
read_u64 image offset = le_at 8 image offset

-- The size of `PinxProgramHeader`, and of a magic.
abbrev pub header_size : ℕ
header_size = 16

-- The loop of `find_header` from `i` on.
unfoldable pub find_from : ℕ → (image magic : List ℕ) → (version i : ℕ) → Run Bool
find_from zero image magic version i = ret false
find_from (suc left) image magic version i =
    let rest = find_from left image magic version (i + 1) in
    if bytes_eq (slice i (length magic) image) magic
    then (do found ← read_u32 image (i + length magic); ret (found == version))
    else rest

unfoldable pub find_header : (image magic : List ℕ) → ℕ → Run Bool
unfolding find_from read_u32 bytes_eq
find_header image magic version =
    if ltb (length image) header_size
    then ret false
    else find_from (length image - (header_size - 1)) image magic version 0

-- `map_segment` on one page: its frame, mapped before or now.
unfoldable pub segment_frame : Memory → ℕ → Run (Option ℕ × Memory)
unfolding add_page
segment_frame m page =
    let frame = vmm_virt_to_phys m.vmm page in
    if frame == no_phys
    then (do
      (done, m') ← add_page m page
      ret (if done then some (alloc_page m.vmm.pmm).0 else none, m'))
    else ret (some frame, m)

-- The part of the page at `page` that the file provides, into its frame.
unfoldable pub fill_page :
    (bytes : ℕ → ℕ) → (image : List ℕ) → (file_offset vaddr file_end page frame : ℕ) → ℕ → ℕ
unfolding copy_image
fill_page bytes image file_offset vaddr file_end page frame =
    let copy_start = max page vaddr in
    let copy_end = min (add64 page page_size) file_end in
    if ltb copy_start copy_end
    then copy_image bytes image (file_offset + (copy_start - vaddr)) (frame + (copy_start - page))
        (copy_end - copy_start)
    else bytes

-- The loop of `map_segment` from `page` on.
unfoldable pub segment_pages :
    ℕ → Memory → List ℕ → (file_offset vaddr file_end mem_end page : ℕ) → Run (Bool × Memory)
segment_pages zero m image file_offset vaddr file_end mem_end page = out_of_fuel
segment_pages (suc fuel) m image file_offset vaddr file_end mem_end page =
    if ltb page mem_end
    then (do
      (found, m') ← segment_frame m page
      elim found [
        | none ↦ ret (false, m')
        | some frame ↦
            segment_pages fuel
              (record m' { bytes = fill_page m'.bytes image file_offset vaddr file_end page frame })
              image file_offset vaddr file_end mem_end (add64 page page_size)
      ])
    else ret (true, m)

unfoldable pub map_segment :
    ℕ → Memory → List ℕ → (file_offset vaddr filesz memsz : ℕ) → Run (Bool × Memory)
unfolding segment_pages segment_frame fill_page
map_segment fuel m image file_offset vaddr filesz memsz =
    if leb (2 ^ 64) (vaddr + memsz)
    then ret (false, m)
    else segment_pages fuel m image file_offset vaddr (vaddr + filesz) (vaddr + memsz)
        (bit_and vaddr (not64 (page_size - 1)))

abbrev pub pt_load : ℕ
pt_load = 1

abbrev pub et_exec : ℕ
et_exec = 2

abbrev pub em_x86_64 : ℕ
em_x86_64 = 0x3E

-- What `load_elf` does with a `PT_LOAD` header; `false` is the early return of `None`.
unfoldable pub load_segment :
    ℕ → Memory → List ℕ → (offset vaddr filesz memsz : ℕ) → Run (Bool × Memory)
unfolding map_segment
load_segment fuel m image offset vaddr filesz memsz =
    if ltb memsz filesz || leb (2 ^ 64) (offset + filesz) || ltb (length image) (offset + filesz)
    then ret (false, m)
    else if memsz == 0
    then ret (true, m)
    else map_segment fuel m image offset vaddr filesz memsz

-- One program header of `load_elf`, at `ph`; `false` is the early return of `None`.
unfoldable pub load_header : ℕ → Memory → List ℕ → ℕ → Run (Bool × Memory)
unfolding load_segment read_u32 read_u64
load_header fuel m image ph = if ltb (length image) (add64 ph 56) then ret (false, m) else do
  type ← read_u32 image ph
  if not (type == pt_load) then ret (true, m) else (do
    offset ← read_u64 image (ph + 8)
    vaddr ← read_u64 image (ph + 16)
    filesz ← read_u64 image (ph + 32)
    memsz ← read_u64 image (ph + 40)
    load_segment fuel m image offset vaddr filesz memsz)

-- The loop of `load_elf` from header `i` on.
unfoldable pub load_headers :
    ℕ → ℕ → Memory → List ℕ → (phoff phentsize i : ℕ) → Run (Bool × Memory)
load_headers fuel zero m image phoff phentsize i = ret (true, m)
load_headers fuel (suc left) m image phoff phentsize i = do
  (go_on, m') ← load_header fuel m image (add64 phoff (mul64 i phentsize))
  if go_on then load_headers fuel left m' image phoff phentsize (i + 1) else ret (false, m')

-- `load_elf`: the entry point, or `none`.
unfoldable pub load_elf : ℕ → Memory → List ℕ → Run (Option ℕ × Memory)
unfolding load_headers load_header read_u16 read_u64 bytes_eq
load_elf fuel m image =
    if ltb (length image) 64
    then ret (none, m)
    else if not (bytes_eq (slice 0 4 image) (0x7F ∷ b'E' ∷ b'L' ∷ b'F' ∷ []))
        || not (get_or image 4 0 == 2)
        || not (get_or image 5 0 == 1)
    then ret (none, m)
    else do
      type ← read_u16 image 16
      machine ← read_u16 image 18
      if not (type == et_exec) || not (machine == em_x86_64) then ret (none, m) else (do
        entry ← read_u64 image 24
        phoff ← read_u64 image 32
        phentsize ← read_u16 image 54
        phnum ← read_u16 image 56
        if ltb phentsize 56 then ret (none, m) else (do
          (done, m') ← load_headers fuel phnum m image phoff phentsize 0
          ret (if done then some entry else none, m')))
