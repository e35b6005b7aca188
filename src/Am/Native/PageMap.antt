-- ===== src/Am/Native/PageMap.antt =====
-- abstract-machine/am/src/native/vme.c: a space is a linked list of its pages, and switching to it maps
-- them all. The hash table of hsearch_r() is a parameter. The pages that pgalloc() gives are different.
pub mod Listing
pub mod Switch
pub mod Again
pub mod New
mod Tests
use cpu_linux.Prelude.{
  ℕ, zero, suc, ◌+◌, ◌-◌, ◌/◌, ◌%◌, ◌^◌, Bool, true, false, not, Option, none, some, List, [], ◌∷◌,
  ◌==◌, if◌then◌else◌, assertion, undefined, out_of_fuel, Outcome, ok, stop, guard, ◌>>=◌, ◌>>◌,
}
use cpu_linux.Am.Vme.{Area, in_range, AddrSpace, pgsize}

-- USER_SPACE; __am_pgsize is 4096.
abbrev pub user_space : Area
user_space = record { start = 0x4000_0000; end = 0xc000_0000 }

-- PageMap, without the key; a pointer is the page's address, and 0 is NULL.
pub record PageMap : Type 0 where
  pub va : ℕ
  pub pa : ℕ
  pub next : ℕ
  pub prot : ℕ
  pub is_mapped : Bool

-- hcreate_r(), and hsearch_r() with FIND and ENTER. An address stands for its text by "%x".
pub record Hash : Type 1 where
  pub Table : Type 0
  pub create : ℕ → Option Table
  pub find : Table → ℕ → Option ℕ
  pub enter : Table → ℕ → ℕ → Option Table

abbrev pub key_of : ℕ → ℕ
key_of va = va % 2 ^ 32

-- VMHead.
pub record VmHead (h : Hash) : Type 0 where
  pub head : ℕ
  pub hash : h.Table
  pub nr_page : ℕ

-- The pages by their address, `host` with what the host has mapped at a page, thiscpu->vm_head, and the
-- results of pgalloc() to come.
pub record Platform (h : Hash) : Type 0 where
  pub pages : ℕ → PageMap
  pub vm_heads : ℕ → VmHead h
  pub host : ℕ → Option (ℕ × ℕ)
  pub vm_head : ℕ
  pub frames : List ℕ

-- pgalloc(), which gives NULL at the end.
abbrev pub first_frame : List ℕ → ℕ
first_frame [] = 0
first_frame (f ∷ fs) = f

abbrev pub other_frames : List ℕ → List ℕ
other_frames [] = []
other_frames (f ∷ fs) = fs

abbrev pub found {ℓ} : {A : Type ℓ} → Option A → Outcome A
found none = stop assertion
found (some x) = ok x

abbrev pub set_at {ℓ} : {A : Type ℓ} → (ℕ → A) → ℕ → A → ℕ → A
set_at f p v q = if p == q then v else f q

module _ (h : Hash) where
  abbrev pub set_page : ℕ → PageMap → Platform h → Platform h
  set_page p page m = record m { pages = set_at m.pages p page }

  -- __am_pmem_map() and __am_pmem_unmap(), with the field that the callers set.
  unfoldable pub mmap_page : ℕ → Platform h → Platform h
  mmap_page p m = record m {
    pages = set_at m.pages p (record (m.pages p) { is_mapped = true });
    host = set_at m.host (m.pages p).va (some ((m.pages p).pa, (m.pages p).prot));
  }

  unfoldable pub munmap_page : ℕ → Platform h → Platform h
  munmap_page p m =
      if (m.pages p).is_mapped
      then record m {
        pages = set_at m.pages p (record (m.pages p) { is_mapped = false });
        host = set_at m.host (m.pages p).va none;
      }
      else m

  unfoldable pub protect : Platform h → Outcome (AddrSpace × Platform h)
  protect m = do
    guard (not (first_frame m.frames == 0)) assertion
    table ← found (h.create ((user_space.end - user_space.start) / pgsize))
    ok (
      record { pgsize_of = pgsize; area = user_space; ptr = first_frame m.frames },
      record m {
        vm_heads =
            set_at m.vm_heads (first_frame m.frames)
              (record { head = 0; hash = table; nr_page = 0 });
        frames = other_frames m.frames;
      },
    )

  -- The loops of __am_switch() from page `p` on, with fuel.
  unfoldable pub munmap_all : ℕ → ℕ → Platform h → Outcome (Platform h)
  munmap_all zero p m = stop out_of_fuel
  munmap_all (suc fuel) p m = elim (p == 0) [
    | true ↦ ok m
    | false ↦ munmap_all fuel (m.pages p).next (munmap_page p m)
  ]

  unfoldable pub mmap_all : ℕ → ℕ → Platform h → Outcome (Platform h)
  mmap_all zero p m = stop out_of_fuel
  mmap_all (suc fuel) p m = elim (p == 0) [
    | true ↦ ok m
    | false ↦
        guard (in_range (m.pages p).va user_space) assertion
        >> mmap_all fuel (m.pages p).next (mmap_page p m)
  ]

  -- A list that is not NULL is gone through.
  abbrev pub unless_null :
      ℕ → (ℕ → Platform h → Outcome (Platform h)) → Platform h → Outcome (Platform h)
  unless_null vm_head loop m = if vm_head == 0 then ok m else loop (m.vm_heads vm_head).head m

  -- __am_switch() to a context with the space `head`.
  unfoldable pub am_switch : ℕ → Bool → ℕ → Platform h → Outcome (Platform h)
  am_switch fuel vme_enable head m =
      if not vme_enable then ok m else if head == m.vm_head then ok m else (do
        m₁ ← unless_null m.vm_head (munmap_all fuel) m
        m₂ ← unless_null head (mmap_all fuel) m₁
        ok (record m₂ { vm_head = head }))

  -- The page for an address: the one that the table has, or a new one that is entered.
  unfoldable pub page_for : ℕ → Option ℕ → ℕ → Platform h → Outcome (ℕ × Platform h)
  page_for vm_head (some p) va m = ok (p, m)
  page_for vm_head none va m = do
    guard (not (first_frame m.frames == 0)) undefined
    table ← found (h.enter (m.vm_heads vm_head).hash (key_of va) (first_frame m.frames))
    ok (
      first_frame m.frames,
      record m {
        vm_heads = set_at m.vm_heads vm_head (record (m.vm_heads vm_head) {
          hash = table;
          nr_page = (m.vm_heads vm_head).nr_page + 1;
        });
        frames = other_frames m.frames;
      },
    )

  -- The page's fields are set, and it is put in front of the list.
  unfoldable pub link_page : ℕ → ℕ → ℕ → ℕ → ℕ → Platform h → Platform h
  link_page vm_head p va pa prot m = record m {
    pages = set_at m.pages p (record {
      va = va;
      pa = pa;
      next = (m.vm_heads vm_head).head;
      prot = prot;
      is_mapped = false;
    });
    vm_heads = set_at m.vm_heads vm_head (record (m.vm_heads vm_head) { head = p });
  }

  -- map(as, va, pa, prot), with as->ptr.
  unfoldable pub map : ℕ → ℕ → ℕ → ℕ → Platform h → Outcome (Platform h)
  map vm_head va pa prot m = do
    guard (in_range va user_space) assertion
    guard (va % pgsize == 0) assertion
    guard (pa % pgsize == 0) assertion
    guard (not (vm_head == 0)) assertion
    (p, m₁) ← page_for vm_head (h.find (m.vm_heads vm_head).hash (key_of va)) va m
    let m₂ = link_page vm_head p va pa prot m₁
    ok (if vm_head == m.vm_head then mmap_page p m₂ else m₂)
