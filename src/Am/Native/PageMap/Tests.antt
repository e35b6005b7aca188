-- ===== src/Am/Native/PageMap/Tests.antt =====
-- Two spaces of one page each, with a table that is an association list.
use cpu_linux.Prelude.{
  ℕ, ◌*◌, ◌≡◌, refl, true, Option, none, some, List, [], ◌∷◌, arith, inr, ◌==◌, if◌then◌else◌, ok,
}
use cpu_linux.Am.Native.PageMap.{PageMap, Hash, VmHead, Platform, map, am_switch}
use cpu_linux.Am.Native.PageMap.Listing.{IsListed, shown, hidden}
use cpu_linux.Am.Native.PageMap.Switch.{IsSpaceOf, am_switch_lem}
use cpu_linux.Am.Native.PageMap.New.{map_new}

abbrev lookup : List (ℕ × ℕ) → ℕ → Option ℕ
lookup [] k = none
lookup (row ∷ rows) k = if row.0 == k then some row.1 else lookup rows k

abbrev assoc : Hash
assoc = record {
  Table = List (ℕ × ℕ);
  create = λ n. some [];
  find = lookup;
  enter = λ t k p. some ((k, p) ∷ t);
}

-- The spaces at 16 and 32, with the pages 48 and 64; the space at 16 is the current one.
abbrev page : ℕ → PageMap
page p = record {
  va = if p == 48 then 0x4000_0000 else 0x4000_1000;
  pa = p * 4096;
  next = 0;
  prot = 3;
  is_mapped = p == 48;
}

abbrev vm_head_at : ℕ → VmHead assoc
vm_head_at h =
    if h == 16
    then record { head = 48; hash = (0x4000_0000, 48) ∷ []; nr_page = 1 }
    else record { head = 64; hash = (0x4000_1000, 64) ∷ []; nr_page = 1 }

abbrev machine : Platform assoc
machine = record {
  pages = page;
  vm_heads = vm_head_at;
  host = λ q. if q == 0x4000_0000 then some (48 * 4096, 3) else none;
  vm_head = 16;
  frames = 80 ∷ [];
}

am_switch_lem_example :
    (m' : Platform assoc) × (am_switch assoc 2 true 32 machine ≡ ok m')
    × (m'.vm_head ≡ 32)
    × IsSpaceOf assoc m' 16 (48 ∷ [])
    × IsSpaceOf assoc m' 32 (64 ∷ [])
    × ((q : ℕ) → m'.host q ≡ shown page (64 ∷ []) q (hidden page (48 ∷ []) q (machine.host q)))
am_switch_lem_example =
    am_switch_lem assoc 2 32 machine (48 ∷ []) (64 ∷ []) (λ e. ground arith)
      (inr (λ e. ground arith, (refl, λ e. ground arith, refl)))
      (inr (λ e. ground arith, (refl, λ e. ground arith, refl))) (refl, tt) (ground arith)
      (ground arith)

map_new_example :
    (m' : Platform assoc) × (map assoc 16 0x4000_1000 0x9000 1 machine ≡ ok m')
    × IsListed m'.pages (m'.vm_heads 16).head (80 ∷ 48 ∷ [])
    × ((m'.pages 80).va ≡ 0x4000_1000)
    × ((m'.pages 80).pa ≡ 0x9000)
    × ((m'.pages 80).prot ≡ 1)
    × (m'.host 0x4000_1000 ≡ (if 16 == 16 then some (0x9000, 1) else none))
map_new_example =
    map_new assoc 16 0x4000_1000 0x9000 1 80 [] machine ((0x4000_1000, 80) ∷ (0x4000_0000, 48) ∷ [])
      (48 ∷ []) refl refl refl (λ e. ground arith) refl refl refl (λ e. ground arith)
      (λ e. ground arith, tt) (refl, λ e. ground arith, refl)
