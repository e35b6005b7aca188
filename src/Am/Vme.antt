-- ===== src/Am/Vme.antt =====
-- abstract-machine/am/src/x86/qemu/vme.c for 32 bits: page tables of two levels. Flags are combined with
-- aligned addresses, so `|` is a sum. The struct AddrSpace lies in no page of a table.
pub mod Walk
pub mod Space
pub mod Refine
pub mod Protect
pub mod Unprotect
mod Tests
use cpu_linux.Prelude.{
  ℕ, zero, suc, ◌+◌, ◌-◌, ◌/◌, ◌%◌, ◌^◌, Bool, true, false, not, ◌&&◌, List, [], ◌∷◌, ltb, leb,
  ◌==◌, if◌then◌else◌, assertion, Outcome, ok, stop, guard, ◌>>=◌, ◌>>◌,
}

-- struct ptinfo: the mask is the `bits` bits from `shift` on.
pub record Ptinfo : Type 0 where
  pub mask : ℕ
  pub shift : ℕ
  pub bits : ℕ

abbrev pub pgsize : ℕ
pgsize = 4096

-- pgtables[1] and pgtables[2]; pgtables[0], with no bits, stands for as->ptr.
abbrev pub pd_info : Ptinfo
pd_info = record { mask = 0xffc0_0000; shift = 22; bits = 10 }

abbrev pub pt_info : Ptinfo
pt_info = record { mask = 0x3f_f000; shift = 12; bits = 10 }

abbrev pub ptlevels : List Ptinfo
ptlevels = pd_info ∷ pt_info ∷ []

pub record Area : Type 0 where
  pub start : ℕ
  pub end : ℕ

-- vm_areas: the user's area, and those of the kernel; the last one ends at the end of the addresses.
abbrev pub uvm_area : Area
uvm_area = record { start = 0x4000_0000; end = 0x8000_0000 }

abbrev pub kernel_areas : List Area
kernel_areas =
    record { start = 0; end = 0x4000_0000 } ∷ record { start = 0xfd00_0000; end = 0 } ∷ []

-- PTE_P, PTE_W and PTE_U.
abbrev pub pte_p : ℕ
pte_p = 1

abbrev pub pte_w : ℕ
pte_w = 2

abbrev pub pte_u : ℕ
pte_u = 4

abbrev pub is_present : ℕ → Bool
is_present pte = pte % 2 == 1

abbrev pub is_user : ℕ → Bool
is_user pte = pte / 4 % 2 == 1

-- `pt[index]` by the address of the page and the index.
abbrev pub Words : Type 0
Words = ℕ → ℕ → ℕ

abbrev pub set_word : Words → ℕ → ℕ → ℕ → Words
set_word w pt index v p i = if p == pt && i == index then v else w p i

-- `frames` are the results of the calls of pgalloc() to come, with NULL behind the last one; `freed`
-- are the pages given to pgfree(), the last one first.
pub record Pages : Type 0 where
  pub words : Words
  pub frames : List ℕ
  pub freed : List ℕ

-- AddrSpace.
pub record AddrSpace : Type 0 where
  pub pgsize_of : ℕ
  pub area : Area
  pub ptr : ℕ

-- The loop of pgallocz(), with `n` words left below index `n`.
unfoldable pub clear_words : ℕ → ℕ → Words → Words
clear_words zero base w = w
clear_words (suc n) base w = set_word (clear_words n base w) base n 0

abbrev pub take_frame : List ℕ → Pages → Outcome (ℕ × Pages)
take_frame [] k = stop assertion
take_frame (base ∷ frames) k =
    if base == 0
    then stop assertion
    else ok (base, record k { words = clear_words (pgsize / 4) base k.words; frames = frames })

unfoldable pub pgallocz : Pages → Outcome (ℕ × Pages)
pgallocz k = take_frame k.frames k

unfoldable pub indexof : ℕ → Ptinfo → ℕ
indexof addr info = addr / 2 ^ info.shift % 2 ^ info.bits

unfoldable pub baseof : ℕ → ℕ
baseof addr = addr - addr % pgsize

-- The table below an entry of ptwalk(), which is made if there is none.
unfoldable pub next_page : ℕ → ℕ → ℕ → Pages → Outcome (ℕ × Pages)
next_page pt index flags k =
    if is_present (k.words pt index)
    then ok (baseof (k.words pt index), k)
    else (pgallocz k >>= λ (page, k').
        ok (page, record k' { words = set_word k'.words pt index (page + pte_p + flags) }))

-- The rounds of ptwalk() below as->ptr: the table and the index of the last entry.
unfoldable pub walk : List Ptinfo → ℕ → ℕ → ℕ → Pages → Outcome ((ℕ × ℕ) × Pages)
walk [] pt addr flags k = stop assertion
walk (info ∷ []) pt addr flags k = ok ((pt, indexof addr info), k)
walk (info ∷ info' ∷ infos) pt addr flags k = do
  (page, k') ← next_page pt (indexof addr info) flags k
  walk (info' ∷ infos) page addr flags k'

-- The first round, at as->ptr.
unfoldable pub root_page : AddrSpace → ℕ → Pages → Outcome (ℕ × AddrSpace × Pages)
root_page space flags k =
    if is_present space.ptr
    then ok (baseof space.ptr, space, k)
    else (pgallocz k >>= λ (page, k'). ok (page, record space { ptr = page + pte_p + flags }, k'))

-- ptwalk(as, addr, flags): the entry by its table and index.
unfoldable pub ptwalk : AddrSpace → ℕ → ℕ → Pages → Outcome ((ℕ × ℕ) × AddrSpace × Pages)
ptwalk space addr flags k = do
  (page, space', k') ← root_page space flags k
  (entry, k'') ← walk ptlevels page addr flags k'
  ok (entry, space', k'')

-- A round of the inner loop of vme_init().
unfoldable pub map_kernel_page : ℕ → AddrSpace → Pages → Outcome (AddrSpace × Pages)
map_kernel_page cur space k = do
  (entry, space', k') ← ptwalk space cur pte_w k
  ok (space', record k' { words = set_word k'.words entry.0 entry.1 (cur + pte_p + pte_w) })

-- The inner loop, with at most `n` rounds: addresses have 32 bits, so 2^20 rounds reach every end.
unfoldable pub map_area : ℕ → ℕ → ℕ → AddrSpace → Pages → Outcome (AddrSpace × Pages)
map_area zero cur end space k = ok (space, k)
map_area (suc n) cur end space k = elim (cur == end) [
  | true ↦ ok (space, k)
  | false ↦ map_kernel_page cur space k >>= λ (space', k').
      map_area n ((cur + pgsize) % 2 ^ 32) end space' k'
]

unfoldable pub map_areas : ℕ → List Area → AddrSpace → Pages → Outcome (AddrSpace × Pages)
map_areas n [] space k = ok (space, k)
map_areas n (a ∷ areas) space k = do
  (space', k') ← map_area n a.start a.end space k
  map_areas n areas space' k'

-- vme_init(): kpt and the pages, before paging is switched on.
unfoldable pub vme_init : ℕ → Pages → Outcome (ℕ × Pages)
vme_init cpu_current k = do
  guard (cpu_current == 0) assertion
  (space, k') ←
      map_areas (2 ^ 20) kernel_areas (record { pgsize_of = 0; area = uvm_area; ptr = 0 }) k
  ok (baseof space.ptr, k')

-- The inner loop of protect(), with at most `n` rounds; `cur += 1L << info->shift` wraps at 32 bits.
unfoldable pub share_area : ℕ → ℕ → ℕ → ℕ → ℕ → Words → Words
share_area zero cur end kpt upt w = w
share_area (suc n) cur end kpt upt w = elim (cur == end) [
  | true ↦ w
  | false ↦
      share_area n ((cur + 2 ^ 22) % 2 ^ 32) end kpt upt
        (set_word w upt (indexof cur pd_info) (w kpt (indexof cur pd_info)))
]

unfoldable pub share_areas : List Area → ℕ → ℕ → Words → Words
share_areas [] kpt upt w = w
share_areas (a ∷ areas) kpt upt w =
    share_areas areas kpt upt (share_area 1024 a.start a.end kpt upt w)

unfoldable pub protect : ℕ → Pages → Outcome (AddrSpace × Pages)
protect kpt k = do
  (upt, k') ← pgallocz k
  ok (
    record { pgsize_of = pgsize; area = uvm_area; ptr = upt + pte_p + pte_u },
    record k' { words = share_areas kernel_areas kpt upt k'.words },
  )

-- The loop of teardown() over the entries from `index` on, with `n` rounds left. `below` is the call
-- for the next level.
unfoldable pub teardown_entries : (ℕ → Pages → Pages) → ℕ → ℕ → ℕ → Pages → Pages
teardown_entries below zero index pt k = k
teardown_entries below (suc n) index pt k = teardown_entries below n (index + 1) pt (
    if is_present (k.words pt index) && is_user (k.words pt index)
    then below (baseof (k.words pt index)) k
    else k)

abbrev pub pgfree : ℕ → Pages → Pages
pgfree page k = record k { freed = page ∷ k.freed }

-- teardown() from level 1 on, by the levels left; behind the last one it returns at once.
unfoldable pub teardown : List Ptinfo → ℕ → Pages → Pages
teardown [] pt k = k
teardown (info ∷ infos) pt k = pgfree pt (teardown_entries (teardown infos) (2 ^ info.bits) 0 pt k)

-- unprotect(as): teardown() at level 0 has the one entry as->ptr, and frees no page for it.
unfoldable pub unprotect : AddrSpace → Pages → Pages
unprotect space k =
    if is_present space.ptr && is_user space.ptr then teardown ptlevels (baseof space.ptr) k else k

abbrev pub in_range : ℕ → Area → Bool
in_range addr a = leb a.start addr && ltb addr a.end

-- MMAP_NONE, and `prot & MMAP_WRITE`.
abbrev pub mmap_none : ℕ
mmap_none = 0

abbrev pub can_write : ℕ → Bool
can_write prot = prot / 2 % 2 == 1

-- The new entry of map().
abbrev pub new_pte : ℕ → ℕ → ℕ
new_pte pa prot = pa + pte_p + pte_u + (if can_write prot then pte_w else 0)

-- What map() writes over the entry `old`.
unfoldable pub update_pte : ℕ → ℕ → ℕ → Outcome ℕ
update_pte pa prot old =
    if prot == mmap_none
    then (guard (is_present old) assertion >> ok 0)
    else (guard (not (is_present old)) assertion >> ok (new_pte pa prot))

-- map(as, va, pa, prot).
unfoldable pub map : AddrSpace → ℕ → ℕ → ℕ → Pages → Outcome (AddrSpace × Pages)
map space va pa prot k = do
  guard (in_range va uvm_area) assertion
  guard (va % pgsize == 0 && pa % pgsize == 0) assertion
  (entry, space', k') ← ptwalk space va (pte_w + pte_u) k
  pte ← update_pte pa prot (k'.words entry.0 entry.1)
  (entry', space'', k'') ←
      ptwalk space' va (pte_w + pte_u) (record k' { words = set_word k'.words entry.0 entry.1 pte })
  ok (space'', k'')

-- The 32-bit Context.
pub record Context : Type 0 where
  pub cr3 : ℕ
  pub ds : ℕ
  pub eax : ℕ
  pub ebx : ℕ
  pub ecx : ℕ
  pub edx : ℕ
  pub esp0 : ℕ
  pub esi : ℕ
  pub edi : ℕ
  pub ebp : ℕ
  pub eip : ℕ
  pub cs : ℕ
  pub eflags : ℕ
  pub esp : ℕ
  pub ss3 : ℕ

-- `(Context) { 0 }`, and sizeof(Context).
abbrev pub zero_context : Context
zero_context = record {
  cr3 = 0;
  ds = 0;
  eax = 0;
  ebx = 0;
  ecx = 0;
  edx = 0;
  esp0 = 0;
  esi = 0;
  edi = 0;
  ebp = 0;
  eip = 0;
  cs = 0;
  eflags = 0;
  esp = 0;
  ss3 = 0;
}

abbrev pub context_size : ℕ
context_size = 60

-- KSEL() and USEL() of the segments of x86-qemu.h, and FL_IF.
abbrev pub ksel_kcode : ℕ
ksel_kcode = 8

abbrev pub ksel_kdata : ℕ
ksel_kdata = 16

abbrev pub usel_ucode : ℕ
usel_ucode = 27

abbrev pub usel_udata : ℕ
usel_udata = 35

abbrev pub fl_if : ℕ
fl_if = 0x200

-- ucontext(as, kstack, entry): the address of the context, and what stands there.
unfoldable pub ucontext : AddrSpace → Area → ℕ → ℕ × Context
ucontext space kstack entry = (
  kstack.end - context_size,
  record zero_context {
    cs = usel_ucode;
    ds = usel_udata;
    ss3 = usel_udata;
    eip = entry;
    eflags = fl_if;
    esp = uvm_area.end;
    esp0 = kstack.end;
    cr3 = space.ptr;
  },
)
