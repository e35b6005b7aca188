-- ===== src/Am/Smp/Handshake.antt =====
-- What holds in every state of the start.
use cpu_linux.Prelude.{
  ℕ, ◌+◌, ◌≤◌, ◌<◌, ◌≡◌, ◌≢◌, refl, sym, ap, subst, ◌∙◌, Bool, true, false, arith, dec_lt,
  ℕ_discrete,
}
use cpu_linux.Am.Smp.{
  Boot, round, waiting, boot_entered, Other, off, starting, initialised, announced, entered, Smp,
  set_other, first_round, Step, bootap, user_entry, found, not_yet, percpu_init, ready, other_entry,
  Reach, here, later,
}

-- Has the processor done its exchange of `ap_ready`?
abbrev pub has_announced : Other → Bool
has_announced off = false
has_announced starting = false
has_announced initialised = false
has_announced announced = true
has_announced entered = true

-- The processors before `cpu` have announced themselves, but for the first one, and those from `next` on
-- are off.
abbrev pub Split : (cpu next : ℕ) → (ℕ → Other) → Type 0
Split cpu next others =
    ((i : ℕ) → 1 ≤ i → i < cpu → has_announced (others i) ≡ true)
    × (others 0 ≡ off)
    × ((i : ℕ) → next ≤ i → others i ≡ off)

-- The flag for what the processor that is waited for has done.
abbrev pub Awaited : Other → ℕ → Type 0
Awaited off flag = ⊥
Awaited starting flag = flag ≡ 0
Awaited initialised flag = flag ≡ 0
Awaited announced flag = flag ≡ 1
Awaited entered flag = flag ≡ 1

unfoldable pub Inv : ℕ → Boot → (ℕ → Other) → ℕ → Type 0
Inv ncpu (round cpu) others flag = (1 ≤ cpu) × Split cpu cpu others × (flag ≡ 0)
Inv ncpu (waiting cpu) others flag =
    (1 ≤ cpu) × Split cpu (cpu + 1) others × Awaited (others cpu) flag
Inv ncpu boot_entered others flag = (cpu : ℕ) × (ncpu ≤ cpu) × Split cpu cpu others × (flag ≡ 0)

-- A processor that is being started is between the two bounds.
active :
    (cpu next c : ℕ) (others : ℕ → Other)
    → Split cpu next others
    → others c ≢ off
    → has_announced (others c) ≢ true
    → (cpu ≤ c) × (c < next)
active cpu next c others (run, first, rest) h k = elim (dec_lt c next) [
  | no far ↦ absurd (h (rest c (omega arith)))
  | yes near ↦ elim (dec_lt c cpu) [
    | no above ↦ (omega arith, near)
    | yes below ↦ elim (dec_lt 0 c) [
      | yes pos ↦ absurd (k (run c (omega arith) below))
      | no null ↦ absurd (h (ap others {x = c} {y = 0} (omega arith) ∙ first))
    ]
  ]
]

pub at_self : (others : ℕ → Other) (cpu c : ℕ) (o : Other) → c ≡ cpu → set_other others cpu o c ≡ o
at_self others cpu c o e = ground arith

pub at_other :
    (others : ℕ → Other) (cpu c : ℕ) (o : Other) → c ≢ cpu → set_other others cpu o c ≡ others c
at_other others cpu c o h = ground (arith, h)

-- The processor `cpu` changes.
Split-set_other :
    (cpu : ℕ) (others : ℕ → Other) (o : Other)
    → 1 ≤ cpu
    → Split cpu (cpu + 1) others
    → Split cpu (cpu + 1) (set_other others cpu o)
Split-set_other cpu others o pos (run, first, rest) = (
  λ i l u. ap has_announced (at_other others cpu i o (λ e. omega arith)) ∙ run i l u,
  at_other others cpu 0 o (λ e. omega arith) ∙ first,
  λ i l. at_other others cpu i o (λ e. omega arith) ∙ rest i l,
)

-- One that is being started goes on, and sets the flag or leaves it.
other_goes_on :
    (ncpu c : ℕ) (b : Boot) (others : ℕ → Other) (flag flag' : ℕ) (o : Other)
    → others c ≢ off
    → has_announced (others c) ≢ true
    → (Awaited (others c) flag → Awaited o flag')
    → Inv ncpu b others flag
    → Inv ncpu b (set_other others c o) flag'
unfolding Inv
other_goes_on ncpu c (round cpu) others flag flag' o h k f (pos, sp, z) =
    absurd (omega (arith, active cpu cpu c others sp h k))
other_goes_on ncpu c boot_entered others flag flag' o h k f (cpu, le, sp, z) =
    absurd (omega (arith, active cpu cpu c others sp h k))
other_goes_on ncpu c (waiting cpu) others flag flag' o h k f (pos, sp, aw) =
    let same : c ≡ cpu = omega (arith, active cpu (cpu + 1) c others sp h k) in
    subst (λ n. Inv ncpu (waiting cpu) (set_other others n o) flag') {x = cpu} {y = c} (sym same)
      (
        pos,
        Split-set_other cpu others o pos sp,
        subst (λ x. Awaited x flag') (sym (at_self others cpu cpu o refl))
            (f (subst (λ n. Awaited (others n) flag) (sym same) aw)),
      )

-- One that has announced itself enters the program.
Split-entered :
    (cpu next c : ℕ) (others : ℕ → Other)
    → others c ≡ announced
    → Split cpu next others
    → Split cpu next (set_other others c entered)
Split-entered cpu next c others e (run, first, rest) = (
  λ i l u. elim (ℕ_discrete i c) [
    | yes q ↦ ap has_announced (at_self others c i entered q)
    | no q ↦ ap has_announced (at_other others c i entered q) ∙ run i l u
  ],
  at_other others c 0 entered (λ q. cc) ∙ first,
  λ i l. at_other others c i entered (λ q. let r = rest i l in cc) ∙ rest i l,
)

Awaited-set_other :
    (c cpu flag : ℕ) (others : ℕ → Other)
    → others c ≡ announced
    → Awaited (others cpu) flag
    → Awaited (set_other others c entered cpu) flag
Awaited-set_other c cpu flag others e aw = elim (ℕ_discrete cpu c) [
  | yes q ↦
      subst (λ o. Awaited o flag) (sym (at_self others c cpu entered q))
        (subst (λ o. Awaited o flag) (ap others q ∙ e) aw)
  | no q ↦ subst (λ o. Awaited o flag) (sym (at_other others c cpu entered q)) aw
]

Inv-entered :
    (ncpu c : ℕ) (b : Boot) (others : ℕ → Other) (flag : ℕ)
    → others c ≡ announced
    → Inv ncpu b others flag
    → Inv ncpu b (set_other others c entered) flag
unfolding Inv
Inv-entered ncpu c (round cpu) others flag e (pos, sp, z) =
    (pos, Split-entered cpu cpu c others e sp, z)
Inv-entered ncpu c boot_entered others flag e (cpu, le, sp, z) =
    (cpu, le, Split-entered cpu cpu c others e sp, z)
Inv-entered ncpu c (waiting cpu) others flag e (pos, sp, aw) =
    (pos, Split-entered cpu (cpu + 1) c others e sp, Awaited-set_other c cpu flag others e aw)

Awaited-announced : (o : Other) (flag : ℕ) → Awaited o flag → flag ≡ 1 → has_announced o ≡ true
Awaited-announced off flag a e = elim a [ ]
Awaited-announced starting flag a e = absurd (omega arith)
Awaited-announced initialised flag a e = absurd (omega arith)
Awaited-announced announced flag a e = refl
Awaited-announced entered flag a e = refl

Awaited-zero : (o : Other) (flag : ℕ) → Awaited o flag → flag ≢ 1 → Awaited o 0
Awaited-zero off flag a h = elim a [ ]
Awaited-zero starting flag a h = refl
Awaited-zero initialised flag a h = refl
Awaited-zero announced flag a h = absurd (h a)
Awaited-zero entered flag a h = absurd (h a)

-- Every step keeps it.
pub Step-Inv :
    {ncpu : ℕ} {s t : Smp}
    → Step ncpu s t
    → Inv ncpu s.boot s.others s.ap_ready
    → Inv ncpu t.boot t.others t.ap_ready
unfolding Inv
Step-Inv {ncpu} (bootap s cpu e lt) inv =
    let (pos, (run, first, rest), z) = subst (λ b. Inv ncpu b s.others s.ap_ready) e inv in
    (
      pos,
      Split-set_other cpu s.others starting pos (run, first, λ i l. rest i (omega arith)),
      subst (λ o. Awaited o s.ap_ready) (sym (at_self s.others cpu cpu starting refl)) z,
    )
Step-Inv {ncpu} (user_entry s cpu e le) inv =
    let (pos, sp, z) = subst (λ b. Inv ncpu b s.others s.ap_ready) e inv in (cpu, le, sp, z)
Step-Inv {ncpu} (found s cpu e one) inv =
    let (pos, (run, first, rest), aw) = subst (λ b. Inv ncpu b s.others s.ap_ready) e inv in
    let arrived = Awaited-announced (s.others cpu) s.ap_ready aw one in
    (
      omega arith,
      (
        λ i l u. elim (dec_lt i cpu) [
          | yes p ↦ run i l p
          | no p ↦ ap (λ n. has_announced (s.others n)) {x = i} {y = cpu} (omega arith) ∙ arrived
        ],
        first,
        rest,
      ),
      refl,
    )
Step-Inv {ncpu} (not_yet s cpu e no_) inv =
    let (pos, sp, aw) = subst (λ b. Inv ncpu b s.others s.ap_ready) e inv in
    subst (λ b. Inv ncpu b s.others 0) (sym e)
      (pos, sp, Awaited-zero (s.others cpu) s.ap_ready aw no_)
Step-Inv {ncpu} (percpu_init s cpu e) inv =
    other_goes_on ncpu cpu s.boot s.others s.ap_ready s.ap_ready initialised (λ k. cc) (λ k. cc)
      (subst (λ o. Awaited o s.ap_ready → s.ap_ready ≡ 0) (sym e) (λ z. z)) inv
Step-Inv {ncpu} (ready s cpu e) inv =
    other_goes_on ncpu cpu s.boot s.others s.ap_ready 1 announced (λ k. cc) (λ k. cc) (λ z. refl)
      inv
Step-Inv {ncpu} (other_entry s cpu e) inv = Inv-entered ncpu cpu s.boot s.others s.ap_ready e inv

Inv-first_round : (ncpu : ℕ) → Inv ncpu first_round.boot first_round.others first_round.ap_ready
unfolding Inv
Inv-first_round ncpu = (omega arith, (λ i l u. absurd (omega arith), refl, λ i l. refl), refl)

pub Reach-Inv : {ncpu : ℕ} {s : Smp} → Reach ncpu s → Inv ncpu s.boot s.others s.ap_ready
Reach-Inv {ncpu} here = Inv-first_round ncpu
Reach-Inv (later r st) = Step-Inv st (Reach-Inv r)

abbrev pub being_started : Other → Bool
being_started off = false
being_started starting = true
being_started initialised = true
being_started announced = false
being_started entered = false

not_ended : (o : Other) → being_started o ≡ true → (o ≢ off) × (has_announced o ≢ true)
not_ended off h = absurd cc
not_ended starting h = (λ e. cc, λ e. cc)
not_ended initialised h = (λ e. cc, λ e. cc)
not_ended announced h = absurd cc
not_ended entered h = absurd cc

started_at :
    (ncpu : ℕ) (b : Boot) (others : ℕ → Other) (flag i : ℕ)
    → Inv ncpu b others flag
    → being_started (others i) ≡ true
    → b ≡ waiting i
unfolding Inv
started_at ncpu (round cpu) others flag i (pos, sp, z) h = absurd (
    omega (arith, active cpu cpu i others sp (not_ended (others i) h).0 (not_ended (others i) h).1))
started_at ncpu boot_entered others flag i (cpu, le, sp, z) h = absurd (
    omega (arith, active cpu cpu i others sp (not_ended (others i) h).0 (not_ended (others i) h).1))
started_at ncpu (waiting cpu) others flag i (pos, sp, aw) h = ap waiting {x = cpu} {y = i} (
    omega (
      arith,
      active cpu (cpu + 1) i others sp (not_ended (others i) h).0 (not_ended (others i) h).1,
    ))

-- Processors are started one at a time: in every state that is reached, one that was started and has not done
-- its exchange of `ap_ready` yet is the one that the first processor waits for, so that there are never two
-- of them.
pub started_one_at_a_time :
    {ncpu : ℕ} {s : Smp}
    → Reach ncpu s
    → (i j : ℕ) → being_started (s.others i) ≡ true
    → being_started (s.others j) ≡ true
    → (s.boot ≡ waiting i) × (i ≡ j)
started_one_at_a_time {ncpu} {s} r i j h k =
    let a = started_at ncpu s.boot s.others s.ap_ready i (Reach-Inv r) h in
    let b = started_at ncpu s.boot s.others s.ap_ready j (Reach-Inv r) k in
    (a, waiting_inj (sym a ∙ b))
  where
    awaited : Boot → ℕ
    awaited (waiting cpu) = cpu
    awaited (round cpu) = cpu
    awaited boot_entered = 0

    waiting_inj : waiting i ≡ waiting j → i ≡ j
    waiting_inj e = ap awaited e

-- When the first processor has entered the program, every other one has done its exchange of `ap_ready`: its
-- __am_percpu_init() is over, and it has entered the program or has nothing left to do before that.
pub all_announced :
    {ncpu : ℕ} {s : Smp}
    → Reach ncpu s
    → s.boot ≡ boot_entered
    → (i : ℕ) → 1 ≤ i
    → i < ncpu
    → has_announced (s.others i) ≡ true
unfolding Inv
all_announced {ncpu} {s} r e i l u =
    let (cpu, le, (run, first, rest), z) =
      subst (λ b. Inv ncpu b s.others s.ap_ready) e (Reach-Inv r) in
    run i l (omega arith)
