-- ===== src/Am/Vme/Refine.antt =====
-- map() as an operation on the function from pages to entries that a space stands for.
use cpu_linux.Prelude.{
  ℕ, ◌+◌, ◌/◌, ◌%◌, ◌^◌, ◌<◌, ◌≡◌, refl, ◌∙◌, true, ◌&&◌, arith, ◌==◌, if◌then◌else◌, Bool-cases,
  inl, inr, Outcome, ok, stop, guard, Stop, ◌>>=◌, ◌>>◌, assertion,
}
use cpu_linux.Am.Vme.{
  Pages, AddrSpace, set_word, pgsize, pd_info, pt_info, pte_w, pte_u, is_present, indexof, baseof,
  ptwalk, uvm_area, in_range, update_pte, map,
}
use cpu_linux.Am.Vme.Walk.{entry_of, indexof_pd-lt, same_page, written-IsTables, entry_of-written}
use cpu_linux.Am.Vme.Space.{IsSpace, mmu_entry, HasRoom, place, IsWalked, ptwalk_lem, ptwalk_there}

-- The space maps the pages as the function `table` says, for addresses of 32 bits.
abbrev pub Represents : (ℕ → ℕ) → AddrSpace → Pages → Type 0
Represents table space k = (a : ℕ) → a < 2 ^ 32 → mmu_entry space k a ≡ table (a / pgsize)

-- The entry that takes the place of `old`: none for no access, and else the physical page, for the user, with
-- the bit for writing as asked. Only a mapped page loses its entry, and only an unmapped one gets one.
pub entry_for : ℕ → ℕ → ℕ → Outcome ℕ
entry_for pa prot old =
    if prot == 0
    then (if old % 2 == 1 then ok 0 else stop assertion)
    else if old % 2 == 1
    then stop assertion
    else if prot / 2 % 2 == 1
    then ok (pa + 7)
    else ok (pa + 5)

update_pte-eq : (pa prot old : ℕ) → update_pte pa prot old ≡ entry_for pa prot old
unfolding update_pte entry_for
update_pte-eq pa prot old = ground arith

-- map() on such a function: it panics for an address outside the user's area or not at a page's
-- start, for a page to unmap that is not mapped and for one to map that is.
abbrev pub table_map : (ℕ → ℕ) → ℕ → ℕ → ℕ → Outcome (ℕ → ℕ)
table_map table va pa prot = do
  guard (in_range va uvm_area) assertion
  guard (va % pgsize == 0 && pa % pgsize == 0) assertion
  pte ← entry_for pa prot (table (va / pgsize))
  ok (λ q. if q == va / pgsize then pte else table q)

-- Both stop for the same reason, or both return and their results agree.
pub data Agree (space : AddrSpace) : Outcome (AddrSpace × Pages) → Outcome (ℕ → ℕ) → Type 0 where
  stopped :
      {m : Outcome (AddrSpace × Pages)} {t : Outcome (ℕ → ℕ)} (s : Stop)
      → m ≡ stop s
      → t ≡ stop s
      → Agree space m t
  returned :
      {m : Outcome (AddrSpace × Pages)} {t : Outcome (ℕ → ℕ)} (k' : Pages) (table : ℕ → ℕ)
      → m ≡ ok (space, k')
      → t ≡ ok table
      → IsSpace space k'
      → Represents table space k'
      → Agree space m t

module _ (space : AddrSpace) (va : ℕ) (k k' : Pages) (done : IsWalked space va k k') where
  -- The entry that ptwalk() gives is the one that the processor finds.
  place-mmu_entry : k'.words (place space k' va).0 (place space k' va).1 ≡ mmu_entry space k va
  unfolding entry_of
  place-mmu_entry = ground (arith, done.there) ∙ done.same va

  abbrev written : ℕ → Pages
  written v = record k' { words = set_word k'.words (place space k' va).0 (place space k' va).1 v }

  written-IsSpace : (v : ℕ) → IsSpace space (written v)
  written-IsSpace v = record {
    root = done.is_space.root;
    tables =
        written-IsTables k'.words (baseof space.ptr) (indexof va pd_info) k'.frames
          done.is_space.tables (indexof_pd-lt va) done.there (indexof va pt_info) v;
  }

  mmu_entry-written :
      (v a : ℕ)
      → va < 2 ^ 32
      → a < 2 ^ 32
      → mmu_entry space (written v) a
        ≡ (if a / pgsize == va / pgsize then v else mmu_entry space k a)
  mmu_entry-written v a h l =
      entry_of-written k'.words (baseof space.ptr) (indexof va pd_info) k'.frames
        done.is_space.tables (indexof_pd-lt va) done.there (indexof va pt_info) v a
      ∙ ground (arith, same_page a va l h, done.same a)

  -- The table of the address is still there.
  written_there :
      (v : ℕ) → is_present ((written v).words (baseof space.ptr) (indexof va pd_info)) ≡ true
  written_there v =
      ground (arith, done.is_space.tables.apart (indexof va pd_info) (indexof_pd-lt va), done.there)

module _ (space : AddrSpace) (va pa prot : ℕ) (k : Pages) (table : ℕ → ℕ) (ready : IsSpace space k)
    (same : Represents table space k) (room : HasRoom space k va) where
  map_written :
      (k' : Pages) (done : IsWalked space va k k') (v : ℕ)
      → in_range va uvm_area ≡ true
      → (va % pgsize == 0 && pa % pgsize == 0) ≡ true
      → ptwalk space va (pte_w + pte_u) k ≡ ok (place space k' va, space, k')
      → update_pte pa prot (table (va / pgsize)) ≡ ok v
      → map space va pa prot k ≡ ok (space, written space va k k' done v)
  unfolding map
  map_written k' done v r a w u = ground (
    arith,
    place-mmu_entry space va k k' done,
    same va,
    ptwalk_there space va (pte_w + pte_u) (written space va k k' done v) ready.root
        (written_there space va k k' done v),
  )

  map_stopped :
      (k' : Pages) (done : IsWalked space va k k') (s : Stop)
      → in_range va uvm_area ≡ true
      → (va % pgsize == 0 && pa % pgsize == 0) ≡ true
      → ptwalk space va (pte_w + pte_u) k ≡ ok (place space k' va, space, k')
      → update_pte pa prot (table (va / pgsize)) ≡ stop s
      → map space va pa prot k ≡ stop s
  unfolding map
  map_stopped k' done s r a w u = ground (arith, place-mmu_entry space va k k' done, same va)

  map-Agree :
      (k' : Pages) (done : IsWalked space va k k')
      → in_range va uvm_area ≡ true
      → (va % pgsize == 0 && pa % pgsize == 0) ≡ true
      → ptwalk space va (pte_w + pte_u) k ≡ ok (place space k' va, space, k')
      → (o : Outcome ℕ) → update_pte pa prot (table (va / pgsize)) ≡ o
      → Agree space (map space va pa prot k) (table_map table va pa prot)
  map-Agree k' done r a w (stop s) u =
      stopped s (map_stopped k' done s r a w u)
        (ground (arith, update_pte-eq pa prot (table (va / pgsize))))
  map-Agree k' done r a w (ok v) u =
      returned (written space va k k' done v) (λ q. if q == va / pgsize then v else table q)
        (map_written k' done v r a w u)
        (ground (arith, update_pte-eq pa prot (table (va / pgsize))))
        (written-IsSpace space va k k' done v)
        (λ b l.
          mmu_entry-written space va k k' done v b (ground arith) l ∙ ground (arith, same b l))

-- On a space without overlapping tables that maps the pages as a function says, and with a page left
-- if the address has no table yet, map() panics exactly when the operation on the function does;
-- otherwise the space that it leaves is again without overlapping tables and maps the pages as the
-- function that results says. So no other page's entry changes, whether or not a table is made.
pub map_refines :
    (space : AddrSpace) (va pa prot : ℕ) (k : Pages) (table : ℕ → ℕ)
    → IsSpace space k
    → Represents table space k
    → HasRoom space k va
    → Agree space (map space va pa prot k) (table_map table va pa prot)
unfolding map
map_refines space va pa prot k table ready same room = elim (Bool-cases (in_range va uvm_area)) [
  | inr out ↦ stopped assertion (ground arith) (ground arith)
  | inl r ↦ elim (Bool-cases (va % pgsize == 0 && pa % pgsize == 0)) [
    | inr off ↦ stopped assertion (ground arith) (ground arith)
    | inl a ↦
        let (k', w, done) =
          ptwalk_lem space va (pte_w + pte_u) (omega arith) (omega arith) k ready room in
        map-Agree space va pa prot k table ready same room k' done r a w
          (update_pte pa prot (table (va / pgsize))) refl
  ]
]
