-- ===== src/Am/Vme/Tests.antt =====
-- Spaces with few pages.
use cpu_linux.Prelude.{
  ℕ, ◌^◌, ◌<◌, ◌≡◌, refl, true, ◌&&◌, ◌||◌, List, [], ◌∷◌, ◌++◌, arith, inr, ltb, leb, ◌==◌,
  if◌then◌else◌, ok,
}
use cpu_linux.Am.Vme.{
  Words, Pages, AddrSpace, uvm_area, pgsize, baseof, indexof, is_user, map, protect, unprotect,
}
use cpu_linux.Am.Vme.Walk.{entry_of, IsTables}
use cpu_linux.Am.Vme.Space.{IsSpace, mmu_entry}
use cpu_linux.Am.Vme.Refine.{Represents, Agree, table_map, map_refines}
use cpu_linux.Am.Vme.Protect.{protect_lem}
use cpu_linux.Am.Vme.Unprotect.{owns, count, unprotect_lem}

-- A page directory at 0x1000 with a table of the kernel at 0x5000.
abbrev kernel_words : Words
kernel_words p i =
    if p == 0x1000 && i == 0 then 0x5003 else if p == 0x5000 && i == 1 then 0x1003 else 0

abbrev pages : Pages
pages = record { words = kernel_words; frames = 0x2000 ∷ 0x3000 ∷ []; freed = [] }

abbrev space : AddrSpace
space = record { pgsize_of = pgsize; area = uvm_area; ptr = 0x1005 }

tables : IsTables kernel_words 0x1000 (0x2000 ∷ 0x3000 ∷ [])
unfolding baseof
tables = record {
  apart = λ i h p. ground arith;
  distinct = λ i j h k p q e. ground arith;
  fresh = (
    refl,
    (λ e. ground arith, λ i h p. ground arith),
    (λ e. ground arith, tt),
    (refl, (λ e. ground arith, λ i h p. ground arith), tt, tt),
  );
}

space-IsSpace : IsSpace space pages
unfolding baseof
space-IsSpace = record { root = refl; tables = tables }

-- The page 1 is the kernel's, and no other one is mapped.
abbrev table : ℕ → ℕ
table q = if q == 1 then 0x1003 else 0

space-Represents : Represents table space pages
unfolding entry_of baseof indexof
space-Represents a h = ground arith

map_refines_example :
    Agree space (map space 0x4000_0000 0x9000 2 pages) (table_map table 0x4000_0000 0x9000 2)
unfolding baseof indexof
map_refines_example =
    map_refines space 0x4000_0000 0x9000 2 pages table space-IsSpace space-Represents
      (inr (0x2000, 0x3000 ∷ [], refl, ground arith))

protect_lem_example :
    (space' : AddrSpace) × (k' : Pages) × (protect 0x1000 pages ≡ ok (space', k'))
    × IsSpace space' k'
    × (baseof space'.ptr ≡ 0x2000)
    × (is_user space'.ptr ≡ true)
    × ((a : ℕ)
        → a < 2 ^ 32
        → mmu_entry space' k' a
          ≡ (if ltb a 0x4000_0000 || leb 0xfd00_0000 a then entry_of kernel_words 0x1000 a else 0))
protect_lem_example = protect_lem 0x1000 pages 0x2000 (0x3000 ∷ []) tables refl (ground arith)

unprotect_lem_example :
    (given : List ℕ) × (unprotect space pages ≡ record pages { freed = given ++ [] })
    × ((p : ℕ)
        → count p given
          ≡ (if p == baseof space.ptr || owns kernel_words (baseof space.ptr) 1024 p then 1 else 0))
unprotect_lem_example = unprotect_lem space pages space-IsSpace refl
