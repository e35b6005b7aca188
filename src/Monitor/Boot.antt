-- ===== src/Monitor/Boot.antt =====
-- What the memory holds when the processor is reset, and the session that a started simulator is in.
use cpu_linux.Prelude.{
  ℕ, zero, suc, ◌+◌, ◌-◌, ◌*◌, ◌%◌, ◌^◌, ◌≤◌, ◌<◌, ◌≡◌, refl, ap, ◌∙◌, true, ◌&&◌, some, List, [],
  ◌∷◌, ltb, leb, if◌then◌else◌, length, get_or, arith, ok,
}
use cpu_linux.Memory.{Pmem, mbase, msize, store_byte, guest_to_host, pmem_read, host_read}
use cpu_linux.Monitor.{
  Os, Args, store_bytes, bytes_of, img, load_builded_img, init_mem, read_img, load_img, load_mem,
  reset_vector, init_log, can_open,
}

store_bytes-eq :
    (m : Pmem) (p : ℕ) (vs : List ℕ) (q : ℕ)
    → store_bytes m p vs q
      ≡ (if leb p q && ltb q (p + length vs) then get_or vs (q - p) 0 % 256 else m q)
unfolding store_bytes
store_bytes-eq m p [] q = ground arith
store_bytes-eq m p (v ∷ vs) q =
    let at : q ≡ p → get_or (v ∷ vs) (q - p) 0 ≡ v =
      λ e. ap (λ i. get_or (v ∷ vs) i 0) {y = 0} (omega arith) in
    let behind : p < q → get_or (v ∷ vs) (q - p) 0 ≡ get_or vs (q - (p + 1)) 0 =
      λ h. ap (λ i. get_or (v ∷ vs) i 0) {y = suc (q - (p + 1))} (omega arith) in
    ground (arith, store_bytes-eq (store_byte m p v) (p + 1) vs q)

-- The byte `q` of the memory when the processor is reset: that of the file, if one is given, or else of
-- the built-in program, and behind its end that of the memory as it was.
abbrev pub boot_byte : Os → List ℕ → ℕ → ℕ
boot_byte os bytes q =
    if ltb q (length bytes)
    then get_or bytes q 0 % 256
    else if ltb q 16
    then get_or (bytes_of img) q 0
    else os.rand % 256

bytes_of-small : (ws : List ℕ) (j : ℕ) → get_or (bytes_of ws) j 0 % 256 ≡ get_or (bytes_of ws) j 0
bytes_of-small [] j = refl
bytes_of-small (w ∷ ws) zero = omega arith
bytes_of-small (w ∷ ws) (suc zero) = omega arith
bytes_of-small (w ∷ ws) (suc (suc zero)) = omega arith
bytes_of-small (w ∷ ws) (suc (suc (suc zero))) = omega arith
bytes_of-small (w ∷ ws) (suc (suc (suc (suc j)))) = bytes_of-small ws j

-- Bytes from the start of the memory on.
store_bytes_start :
    (m : Pmem) (vs : List ℕ) (q : ℕ)
    → store_bytes m 0 vs q ≡ (if ltb q (length vs) then get_or vs q 0 % 256 else m q)
store_bytes_start m vs q =
    store_bytes-eq m 0 vs q
    ∙ ground (arith, ap (λ i. get_or vs i 0) {x = q - 0} {y = q} (omega arith))

load_builded_img-eq :
    (os : Os) (q : ℕ)
    → load_builded_img (init_mem os) q
      ≡ (if ltb q 16 then get_or (bytes_of img) q 0 else os.rand % 256)
unfolding load_builded_img init_mem guest_to_host
load_builded_img-eq os q =
    store_bytes_start (init_mem os) (bytes_of img) q
    ∙ ap (λ v. if ltb q 16 then v else os.rand % 256) (bytes_of-small img q)

booted : Os → List ℕ → Pmem
booted os bytes = store_bytes (load_builded_img (init_mem os)) (guest_to_host reset_vector) bytes

booted-eq : (os : Os) (bytes : List ℕ) (q : ℕ) → booted os bytes q ≡ boot_byte os bytes q
unfolding booted guest_to_host
booted-eq os bytes q =
    store_bytes_start (load_builded_img (init_mem os)) bytes q
    ∙ ap (λ v. if ltb q (length bytes) then get_or bytes q 0 % 256 else v)
        (load_builded_img-eq os q)

load_mem_image :
    (os : Os) (a : Args) (name bytes : List ℕ)
    → can_open os a.log_file ≡ true
    → a.img_file ≡ some name
    → os.read_file name ≡ some bytes
    → 0 < length bytes
    → length bytes ≤ msize
    → load_mem os a ≡ ok (booted os bytes, length bytes)
unfolding load_mem init_log load_img read_img booted
load_mem_image os a name bytes l i f h k = ground arith

-- The four bytes of a word, in the bytes of all.
word_at :
    (ws : List ℕ) (i : ℕ)
    → i < length ws
    → get_or ws i 0 < 2 ^ 32
    → get_or (bytes_of ws) (4 * i) 0
        + 256 * get_or (bytes_of ws) (4 * i + 1) 0
        + 0x1_0000 * get_or (bytes_of ws) (4 * i + 2) 0
        + 0x100_0000 * get_or (bytes_of ws) (4 * i + 3) 0
      ≡ get_or ws i 0
word_at [] i h l = refl
word_at (w ∷ ws) zero h l = omega arith
word_at (w ∷ ws) (suc i) h l =
    let four : (c : ℕ)
        → get_or (bytes_of (w ∷ ws)) (4 * suc i + c) 0 ≡ get_or (bytes_of ws) (4 * i + c) 0 =
      λ c.
        ap (λ j. get_or (bytes_of (w ∷ ws)) j 0) {y = suc (suc (suc (suc (4 * i + c))))}
          (omega arith) in
    let first : get_or (bytes_of (w ∷ ws)) (4 * suc i) 0 ≡ get_or (bytes_of ws) (4 * i) 0 =
      ap (λ j. get_or (bytes_of (w ∷ ws)) j 0) {y = suc (suc (suc (suc (4 * i))))} (omega arith) in
    rw (first, four 1, four 2, four 3) (word_at ws i (omega arith) l)

length-bytes_of : (ws : List ℕ) → length (bytes_of ws) ≡ 4 * length ws
length-bytes_of [] = refl
length-bytes_of (w ∷ ws) = ground (arith, length-bytes_of ws)

booted_word :
    (os : Os) (ws : List ℕ) (i c : ℕ)
    → i < length ws
    → c < 4
    → booted os (bytes_of ws) (4 * i + c) ≡ get_or (bytes_of ws) (4 * i + c) 0
booted_word os ws i c h k =
    booted-eq os (bytes_of ws) (4 * i + c)
    ∙ ground (arith, length-bytes_of ws, bytes_of-small ws (4 * i + c))

booted_first :
    (os : Os) (ws : List ℕ) (i : ℕ)
    → i < length ws
    → booted os (bytes_of ws) (4 * i) ≡ get_or (bytes_of ws) (4 * i) 0
booted_first os ws i h =
    ap (booted os (bytes_of ws)) {y = 4 * i + 0} (omega arith)
    ∙ booted_word os ws i 0 h (omega arith)
    ∙ ap (λ q. get_or (bytes_of ws) q 0) {x = 4 * i + 0} (omega arith)

pmem_read_word :
    (m : Pmem) (q : ℕ)
    → q + 4 ≤ msize
    → pmem_read m (reset_vector + q) 4
      ≡ ok (m q + 256 * m (q + 1) + 0x1_0000 * m (q + 2) + 0x100_0000 * m (q + 3))
unfolding pmem_read guest_to_host
pmem_read_word m q h =
    let same : reset_vector + q - mbase ≡ q = omega arith in
    ground arith ∙ ap (λ p. ok (host_read m p 4)) same ∙ unfold host_read in refl

-- If the log can be opened and the image is a file of words that fits the memory, the image is loaded,
-- and a read of four bytes at the reset vector and behind it gives the words in order. The memory is that
-- of the file, of the built-in program behind its end, and of rand() behind both.
pub load_mem_lem :
    (os : Os) (a : Args) (name ws : List ℕ)
    → can_open os a.log_file ≡ true
    → a.img_file ≡ some name
    → os.read_file name ≡ some (bytes_of ws)
    → 0 < length ws
    → 4 * length ws ≤ msize
    → (m : Pmem) × (load_mem os a ≡ ok (m, 4 * length ws))
      × ((q : ℕ) → m q ≡ boot_byte os (bytes_of ws) q)
      × ((i : ℕ)
          → i < length ws
          → get_or ws i 0 < 2 ^ 32
          → pmem_read m (reset_vector + 4 * i) 4 ≡ ok (get_or ws i 0))
load_mem_lem os a name ws l f r h k = (
  booted os (bytes_of ws),
  load_mem_image os a name (bytes_of ws) l f r (ground (arith, length-bytes_of ws))
        (ground (arith, length-bytes_of ws))
      ∙ ap (λ n. ok (booted os (bytes_of ws), n)) (length-bytes_of ws),
  booted-eq os (bytes_of ws),
  λ i j s.
      pmem_read_word (booted os (bytes_of ws)) (4 * i) (omega arith)
      ∙ ap ok (
          ap
            (λ v.
              v
              + 256 * booted os (bytes_of ws) (4 * i + 1)
              + 0x1_0000 * booted os (bytes_of ws) (4 * i + 2)
              + 0x100_0000 * booted os (bytes_of ws) (4 * i + 3))
            (booted_first os ws i j)
          ∙ rw
              (
                booted_word os ws i 1 j (omega arith),
                booted_word os ws i 2 j (omega arith),
                booted_word os ws i 3 j (omega arith),
              )
              (word_at ws i j s)),
)
