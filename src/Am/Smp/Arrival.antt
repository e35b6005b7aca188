-- ===== src/Am/Smp/Arrival.antt =====
-- The start can always be completed.
use cpu_linux.Prelude.{ℕ, zero, suc, ◌+◌, ◌≤◌, ◌<◌, ◌≡◌, refl, arith, dec_lt, ap, ◌∙◌, true}
use cpu_linux.Am.Smp.{
  Boot, round, waiting, boot_entered, Other, off, starting, initialised, announced, entered, Smp,
  set_other, bootap, user_entry, found, percpu_init, ready, other_entry, Reach, later, Steps,
  none_left, and_then,
}
use cpu_linux.Am.Smp.Handshake.{
  Inv, Awaited, at_self, at_other, Reach-Inv, has_announced, all_announced,
}

Steps-append : {ncpu : ℕ} {s t u : Smp} → Steps ncpu s t → Steps ncpu t u → Steps ncpu s u
Steps-append (none_left s) q = q
Steps-append (and_then st p) q = and_then st (Steps-append p q)

Steps-Reach : {ncpu : ℕ} {s t : Smp} → Steps ncpu s t → Reach ncpu s → Reach ncpu t
Steps-Reach (none_left s) r = r
Steps-Reach (and_then st p) r = Steps-Reach p (later r st)

module _ (ncpu : ℕ) where
  Ahead : Smp → Boot → Type 0
  Ahead s b = (t : Smp) × Steps ncpu s t × (t.boot ≡ b)

  from_announced :
      (s : Smp) (cpu : ℕ) → s.boot ≡ waiting cpu → s.ap_ready ≡ 1 → Ahead s (round (cpu + 1))
  unfolding Ahead
  from_announced s cpu e one = (_, and_then (found s cpu e one) (none_left _), refl)

  from_initialised :
      (s : Smp) (cpu : ℕ)
      → s.boot ≡ waiting cpu
      → s.others cpu ≡ initialised
      → Ahead s (round (cpu + 1))
  unfolding Ahead
  from_initialised s cpu e o =
      let (t, p, b) =
        from_announced (record s { others = set_other s.others cpu announced; ap_ready = 1 }) cpu e
          refl in
      (t, and_then (ready s cpu o) p, b)

  from_starting :
      (s : Smp) (cpu : ℕ)
      → s.boot ≡ waiting cpu
      → s.others cpu ≡ starting
      → Ahead s (round (cpu + 1))
  unfolding Ahead
  from_starting s cpu e o =
      let (t, p, b) =
        from_initialised (record s { others = set_other s.others cpu initialised }) cpu e
          (ground arith) in
      (t, and_then (percpu_init s cpu o) p, b)

  from_waiting :
      (s : Smp) (cpu : ℕ) (o : Other)
      → s.boot ≡ waiting cpu
      → s.others cpu ≡ o
      → Awaited o s.ap_ready
      → Ahead s (round (cpu + 1))
  from_waiting s cpu off e q a = elim a [ ]
  from_waiting s cpu starting e q a = from_starting s cpu e q
  from_waiting s cpu initialised e q a = from_initialised s cpu e q
  from_waiting s cpu announced e q a = from_announced s cpu e a
  from_waiting s cpu entered e q a = from_announced s cpu e a

  from_round :
      (n : ℕ) (s : Smp) (cpu : ℕ) → s.boot ≡ round cpu → ncpu ≤ cpu + n → Ahead s boot_entered
  unfolding Ahead
  from_round zero s cpu e le = (_, and_then (user_entry s cpu e (omega arith)) (none_left _), refl)
  from_round (suc n) s cpu e le = elim (dec_lt cpu ncpu) [
    | no done ↦ (_, and_then (user_entry s cpu e (omega arith)) (none_left _), refl)
    | yes more ↦
        let s' : Smp = record s { boot = waiting cpu; others = set_other s.others cpu starting } in
        let (t, p, b) = from_starting s' cpu refl (ground arith) in
        let (u, q, c) = from_round n t (cpu + 1) b (omega arith) in
        (u, and_then (bootap s cpu e more) (Steps-append p q), c)
  ]

  from_any :
      (s : Smp) (b : Boot) → s.boot ≡ b → Inv ncpu b s.others s.ap_ready → Ahead s boot_entered
  unfolding Ahead Inv
  from_any s (round cpu) e inv = from_round ncpu s cpu e (omega arith)
  from_any s boot_entered e inv = (s, none_left s, e)
  from_any s (waiting cpu) e (pos, sp, aw) =
      let (t, p, b) = from_waiting s cpu (s.others cpu) e refl aw in
      let (u, q, c) = from_round ncpu t (cpu + 1) b (omega arith) in (u, Steps-append p q, c)

-- From `s`, the processors before `n` can enter the program.
AllIn : (ncpu n : ℕ) → Smp → Type 0
AllIn ncpu n s =
    (t : Smp) × Steps ncpu s t
    × (t.boot ≡ boot_entered)
    × ((i : ℕ) → 1 ≤ i → i < n → t.others i ≡ entered)

enter :
    (ncpu n : ℕ) (s : Smp) (o : Other)
    → s.boot ≡ boot_entered
    → s.others n ≡ o
    → has_announced o ≡ true
    → ((i : ℕ) → 1 ≤ i → i < n → s.others i ≡ entered)
    → AllIn ncpu (suc n) s
unfolding AllIn
enter ncpu n s off b e h all = absurd cc
enter ncpu n s starting b e h all = absurd cc
enter ncpu n s initialised b e h all = absurd cc
enter ncpu n s entered b e h all = (
  s,
  none_left s,
  b,
  λ i l u. elim (dec_lt i n) [
    | yes p ↦ all i l p
    | no p ↦ ap s.others {x = i} {y = n} (omega arith) ∙ e
  ],
)
enter ncpu n s announced b e h all = (
  _,
  and_then (other_entry s n e) (none_left _),
  b,
  λ i l u. elim (dec_lt i n) [
    | yes p ↦ at_other s.others n i entered (λ q. omega arith) ∙ all i l p
    | no p ↦ at_self s.others n i entered (omega arith)
  ],
)

enter_all :
    (ncpu n : ℕ) (s : Smp) → Reach ncpu s → s.boot ≡ boot_entered → n ≤ ncpu → AllIn ncpu n s
unfolding AllIn
enter_all ncpu zero s r b le = (s, none_left s, b, λ i l u. absurd (omega arith))
enter_all ncpu (suc zero) s r b le = (s, none_left s, b, λ i l u. absurd (omega arith))
enter_all ncpu (suc (suc n)) s r b le =
    let (t, p, c, all) = enter_all ncpu (suc n) s r b (omega arith) in
    let (u, q, d, more) =
      enter ncpu (suc n) t (t.others (suc n)) c refl
        (all_announced (Steps-Reach p r) c (suc n) (omega arith) (omega arith)) all in
    (u, Steps-append p q, d, more)

-- From every state that is reached there are steps to one in which all processors run the program: the start
-- does not get stuck, whatever the order of the steps before.
pub start_completes :
    {ncpu : ℕ} {s : Smp}
    → Reach ncpu s
    → (t : Smp) × Steps ncpu s t
      × (t.boot ≡ boot_entered)
      × ((i : ℕ) → 1 ≤ i → i < ncpu → t.others i ≡ entered)
unfolding Ahead AllIn
start_completes {ncpu} {s} r =
    let (t, p, b) = from_any ncpu s s.boot refl (Reach-Inv r) in
    let (u, q, c, all) = enter_all ncpu ncpu t (Steps-Reach p r) b (omega arith) in
    (u, Steps-append p q, c, all)
