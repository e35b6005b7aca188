-- ===== src/Am/Trap/Gates.antt =====
-- The table of gates that cte_init() makes.
use cpu_linux.Prelude.{
  leb, ℕ, ◌≡◌, refl, ap, ◌∙◌, Bool, true, false, ◌&&◌, ◌||◌, Option, none, some, List, [], ◌∷◌,
  ◌==◌, if◌then◌else◌, arith, assertion, ok, stop,
}
use mathlib.Core.Path.{fun_ext}
use cpu_linux.Am.Trap.{Gate, set_gates, cte_init, kern_irqs, user_irqs, dpl_user, dpl_kern}

has : List ℕ → ℕ → Bool
has [] i = false
has (id ∷ ids) i = i == id || has ids i

set_gates-eq :
    (dpl : ℕ) (ids : List ℕ) (idt : ℕ → Gate) (i : ℕ)
    → set_gates dpl ids idt i ≡ (if has ids i then record { entry = some i; dpl = dpl } else idt i)
unfolding set_gates has
set_gates-eq dpl [] idt i = refl
set_gates-eq dpl (id ∷ ids) idt i =
    set_gates-eq dpl ids (λ j. if j == id then record { entry = some id; dpl = dpl } else idt j) i
    ∙ one_more (has ids i)
  where
    one_more :
        (b : Bool)
        → (if b
            then record { entry = some i; dpl = dpl }
            else (if i == id then record { entry = some id; dpl = dpl } else idt i))
          ≡ (if i == id || b then record { entry = some i; dpl = dpl } else idt i)
    one_more b = ground arith

abbrev gate_of : Option ℕ → ℕ → Gate
gate_of entry dpl = record { entry = entry; dpl = dpl }

-- The numbers of IRQS, and those of them that the user's level can raise.
abbrev pub is_user_irq : ℕ → Bool
is_user_irq i = i == 0x80 || i == 0x81

abbrev pub is_kern_irq : ℕ → Bool
is_kern_irq i = leb i 16 || i == 19 || leb 31 i && leb i 47

has-user_irqs : (i : ℕ) → has user_irqs i ≡ is_user_irq i
unfolding has
has-user_irqs i = ground arith

has-kern_irqs : (i : ℕ) → has kern_irqs i ≡ is_kern_irq i
unfolding has
has-kern_irqs i = ground arith

-- The table with their gates.
abbrev pub gates : ℕ → Gate
gates i = record {
  entry = if is_user_irq i || is_kern_irq i then some i else none;
  dpl = if is_user_irq i then dpl_user else dpl_kern;
}

all_gates :
    set_gates dpl_user user_irqs (set_gates dpl_kern kern_irqs (λ i. gate_of (none) (dpl_kern)))
    ≡ gates
all_gates = fun_ext λ i.
    set_gates-eq dpl_user user_irqs (set_gates dpl_kern kern_irqs (λ i. gate_of (none) (dpl_kern)))
      i
    ∙ ap (λ g. if has user_irqs i then gate_of (some i) (dpl_user) else g)
        (set_gates-eq dpl_kern kern_irqs (λ i. gate_of (none) (dpl_kern)) i)
    ∙ rw (has-user_irqs i, has-kern_irqs i) (picked i (is_user_irq i) (is_kern_irq i))
  where
    picked :
        (i : ℕ) (u k : Bool)
        → (if u
            then gate_of (some i) (dpl_user)
            else (if k then gate_of (some i) (dpl_kern) else gate_of (none) (dpl_kern)))
          ≡ gate_of (if u || k then some i else none) (if u then dpl_user else dpl_kern)
    picked i true k = refl
    picked i false true = refl
    picked i false false = refl

-- On the first processor and with a handler, cte_init() makes a table in which the user's level can raise
-- exactly the traps 0x80 and 0x81, and in which these two and the numbers 0 to 16, 19 and 31 to 47 have their
-- own entries and every other one the common entry; otherwise it panics.
pub cte_init_lem :
    (cpu_current : ℕ) (handler : Bool)
    → cte_init cpu_current handler
      ≡ (if cpu_current == 0 && handler then ok gates else stop assertion)
unfolding cte_init
cte_init_lem c h = ground (arith, all_gates)
