-- ===== src/Watchpoint/Inv.antt =====
-- The invariant of the watchpoints, and what adding and deleting do.
use cpu_linux.Prelude.{
  ℕ, zero, suc, ◌+◌, ◌-◌, ◌≤◌, ◌<◌, ◌≡◌, refl, ap, subst, ◌∙◌, inl, inr, Bool, true, false, ◌&&◌,
  List, [], ◌∷◌, arith, ltb, leb, ◌==◌, if◌then◌else◌, Bool-cases, length, get_or, set, length-set,
  get_or-set_self, get_or-set_ne, set-set, Stop, undefined, Outcome, ok, stop,
}
use cpu_linux.Prelude.{ℕ_discrete}
use cpu_linux.Expr.Eval.{Env}
use cpu_linux.Expr.Lexer.{Regexec, expr}
use cpu_linux.Watchpoint.{
  Watchpoint, no_watchpoint, Pool, wp_number, wp_expr_len, Reply, full, bad_expr, bad_number,
  not_enabled, deleted, added, init_from, wp_init, slot, del_loop, wp_del_watched, enable,
  copy_text, wp_add_watched,
}

-- The watchpoints are numbered from `n` on, and each is enabled or not.
abbrev pub Numbered : ℕ → List Watchpoint → Type 0
Numbered n [] = Unit
Numbered n (w ∷ ws) = (w.number ≡ n) × (w.keep ≤ 1) × Numbered (n + 1) ws

-- There are ten watchpoints, numbered from 1 on, and none is enabled from `wp_cnt` on.
pub record IsValid (p : Pool) : Type 0 where
  pub count : length p.wp ≡ wp_number
  pub numbered : Numbered 1 p.wp
  pub used : p.wp_cnt ≤ wp_number
  pub unused : (i : ℕ) → p.wp_cnt ≤ i → (slot p i).keep ≡ 0

number_at :
    (ws : List Watchpoint) (n i : ℕ)
    → Numbered n ws
    → i < length ws
    → ((get_or ws i no_watchpoint).number ≡ n + i) × ((get_or ws i no_watchpoint).keep ≤ 1)
number_at [] n i h k = absurd (omega arith)
number_at (w ∷ ws) n zero h k = omega arith
number_at (w ∷ ws) n (suc i) h k = omega (arith, number_at ws (n + 1) i h.2 (omega arith))

set-Numbered :
    (ws : List Watchpoint) (n i : ℕ) (w : Watchpoint)
    → Numbered n ws
    → w.number ≡ n + i
    → w.keep ≤ 1
    → Numbered n (set ws i w)
set-Numbered [] n i w h a b = tt
set-Numbered (x ∷ ws) n zero w h a b = (omega arith, b, h.2)
set-Numbered (x ∷ ws) n (suc i) w h a b =
    (h.0, h.1, set-Numbered ws (n + 1) i w h.2 (omega arith) b)

-- The first watchpoint with the number is the one at that place.
del_loop-eq :
    (ws : List Watchpoint) (p : Pool) (n k num : ℕ)
    → Numbered n ws
    → num ≡ n + k
    → k < length ws
    → del_loop ws p num ≡ (
        if (get_or ws k no_watchpoint).keep == 1
        then (
          record p { wp = set p.wp (num - 1) (record (slot p (num - 1)) { keep = 0 }) },
          deleted,
        )
        else (p, not_enabled))
unfolding del_loop
del_loop-eq [] p n k num h a b = absurd (omega arith)
del_loop-eq (w ∷ ws) p n zero num h a b = ground arith
del_loop-eq (w ∷ ws) p n (suc k) num h a b = ground (arith, del_loop-eq ws p (n + 1) k num h.2)

-- On valid watchpoints wp_del_watched() disables the one of the number given, if that is from 1 to
-- 10 and enabled; otherwise nothing changes, and the reply says which of the two it was.
pub wp_del_watched_lem :
    (p : Pool) (num : ℕ)
    → IsValid p
    → wp_del_watched p num ≡ (
        if leb 1 num && leb num wp_number
        then (if (slot p (num - 1)).keep == 1
            then (
              record p { wp = set p.wp (num - 1) (record (slot p (num - 1)) { keep = 0 }) },
              deleted,
            )
            else (p, not_enabled))
        else (p, bad_number))
unfolding wp_del_watched
wp_del_watched_lem p num v = ground (arith, v.count, del_loop-eq p.wp p 1 (num - 1) num v.numbered)

init_from-keep : (n k i : ℕ) → (get_or (init_from n k) i no_watchpoint).keep ≡ 0
unfolding init_from
init_from-keep zero k i = refl
init_from-keep (suc n) k zero = refl
init_from-keep (suc n) k (suc i) = init_from-keep n (k + 1) i

-- The watchpoints that wp_init() leaves are valid.
pub wp_init-IsValid : IsValid wp_init
unfolding wp_init
wp_init-IsValid = record {
  count = refl;
  numbered = omega arith;
  used = omega arith;
  unused = λ i _. init_from-keep 10 0 i;
}

set-slot-IsValid :
    (p : Pool) (i c : ℕ) (w : Watchpoint)
    → IsValid p
    → i < wp_number
    → w.number ≡ (slot p i).number
    → w.keep ≤ 1
    → p.wp_cnt ≤ c
    → c ≤ wp_number
    → (c ≤ i → w.keep ≡ 0)
    → IsValid (record { wp = set p.wp i w; wp_cnt = c })
set-slot-IsValid p i c w v a n k b d z = record {
  count = length-set p.wp i w ∙ v.count;
  numbered =
      set-Numbered p.wp 1 i w v.numbered (omega (arith, v.count, number_at p.wp 1 i v.numbered)) k;
  used = d;
  unused = λ j h. elim (ℕ_discrete i j) [
    | yes e ↦
        subst (λ k. (get_or (set p.wp i w) k no_watchpoint).keep ≡ 0) e
          (ap (λ (x : Watchpoint). x.keep)
              (get_or-set_self p.wp i w no_watchpoint (omega (arith, v.count)))
            ∙ z (omega arith))
    | no e ↦ rw (get_or-set_ne p.wp i j w no_watchpoint e) (v.unused j (omega arith))
  ];
}

-- wp_del_watched() keeps the watchpoints valid, whatever the number.
pub wp_del_watched-IsValid : (p : Pool) (num : ℕ) → IsValid p → IsValid (wp_del_watched p num).0
wp_del_watched-IsValid p num v = elim (Bool-cases (leb 1 num && leb num wp_number)) [
  | inl ranged ↦ elim (Bool-cases ((slot p (num - 1)).keep == 1)) [
    | inl kept ↦
        rw (wp_del_watched_lem p num v, ranged, kept)
          (set-slot-IsValid p (num - 1) p.wp_cnt _ v (ground arith) refl (omega arith) (omega arith)
            v.used (λ _. refl))
    | inr not_kept ↦ rw (wp_del_watched_lem p num v, ranged, not_kept) v
  ]
  | inr out ↦ rw (wp_del_watched_lem p num v, out) v
]

module _ (regexec : Regexec) (env : Env) where
  add_full :
      (p : Pool) (e : List ℕ)
      → leb wp_number p.wp_cnt ≡ true
      → wp_add_watched regexec env p e ≡ ok (p, full)
  unfolding wp_add_watched
  add_full p e h = ground arith

  add_too_long :
      (p : Pool) (e : List ℕ)
      → leb wp_number p.wp_cnt ≡ false
      → ltb (length e) wp_expr_len ≡ false
      → wp_add_watched regexec env p e ≡ stop undefined
  unfolding wp_add_watched
  add_too_long p e h k = ground arith

  add_stops :
      (p : Pool) (e : List ℕ) {r : Pool × Reply} {s : Stop}
      → leb wp_number p.wp_cnt ≡ false
      → expr regexec env e ≡ stop s
      → wp_add_watched regexec env p e ≡ ok r
      → ⊥
  unfolding wp_add_watched
  add_stops p e h k c = ground arith

  add_with_room :
      (p : Pool) (e : List ℕ)
      → length e < wp_expr_len
      → (v : ℕ) (success : Bool) → expr regexec env e ≡ ok (v, success)
      → IsValid p
      → p.wp_cnt < wp_number
      → let w = slot p p.wp_cnt in
        wp_add_watched regexec env p e ≡ (
          if success
          then ok (
            record {
              wp = set p.wp p.wp_cnt (record w { text = e; keep = 1; value = v });
              wp_cnt = p.wp_cnt + 1;
            },
            added (p.wp_cnt + 1),
          )
          else ok (record p { wp = set p.wp p.wp_cnt (record w { text = e }) }, bad_expr))
  unfolding wp_add_watched copy_text enable
  add_with_room p e h v false x q k = ground arith
  add_with_room p e h v true x q k =
      let w : Watchpoint = record (slot p p.wp_cnt) { text = e } in
      ground (
        arith,
        q.count,
        number_at p.wp 1 p.wp_cnt q.numbered,
        get_or-set_self p.wp p.wp_cnt w no_watchpoint,
        set-set p.wp p.wp_cnt w (record w { keep = 1; value = v }),
      )

  -- What adding an expression of at most 100 characters, whose evaluation returns, does to valid
  -- watchpoints: with ten used, nothing; if the expression is bad, only the text at `wp_cnt` is
  -- replaced; otherwise that watchpoint is enabled with the text and the value of the
  -- expression, its number is reported, and `wp_cnt` counts up.
  pub wp_add_watched_cases :
      (p : Pool) (e : List ℕ)
      → length e < wp_expr_len
      → (v : ℕ) (success : Bool) → expr regexec env e ≡ ok (v, success)
      → IsValid p
      → let w = slot p p.wp_cnt in
        wp_add_watched regexec env p e ≡ (
          if leb wp_number p.wp_cnt
          then ok (p, full)
          else if success
          then ok (
            record {
              wp = set p.wp p.wp_cnt (record w { text = e; keep = 1; value = v });
              wp_cnt = p.wp_cnt + 1;
            },
            added (p.wp_cnt + 1),
          )
          else ok (record p { wp = set p.wp p.wp_cnt (record w { text = e }) }, bad_expr))
  wp_add_watched_cases p e h v success x q = elim (Bool-cases (leb wp_number p.wp_cnt)) [
    | inl none_left ↦ add_full p e none_left ∙ rw none_left
    | inr room ↦ rw room (add_with_room p e h v success x q (ground arith))
  ]

  after_expr :
      (p q : Pool) (e : List ℕ) (r : Reply)
      → IsValid p
      → wp_add_watched regexec env p e ≡ ok (q, r)
      → leb wp_number p.wp_cnt ≡ false
      → length e < wp_expr_len
      → (x : Outcome (ℕ × Bool)) → expr regexec env e ≡ x
      → IsValid q
  after_expr p q e r v h room fits (stop s) x = absurd (add_stops p e room x h)
  after_expr p q e r v h room fits (ok (a, true)) x =
      subst IsValid (ground (arith, add_with_room p e fits a true x v)) (
        set-slot-IsValid p p.wp_cnt (p.wp_cnt + 1)
          (record (slot p p.wp_cnt) { text = e; keep = 1; value = a }) v (ground arith) refl
          (omega arith) (omega arith) (ground arith) (λ k. absurd (omega arith)))
  after_expr p q e r v h room fits (ok (a, false)) x =
      subst IsValid (ground (arith, add_with_room p e fits a false x v)) (
        set-slot-IsValid p p.wp_cnt p.wp_cnt (record (slot p p.wp_cnt) { text = e }) v
          (ground arith) refl (omega (arith, v.unused p.wp_cnt)) (omega arith) v.used
          (λ _. v.unused p.wp_cnt (omega arith)))

  -- A wp_add_watched() that returns keeps the watchpoints valid.
  pub wp_add_watched-IsValid :
      (p q : Pool) (e : List ℕ) (r : Reply)
      → IsValid p
      → wp_add_watched regexec env p e ≡ ok (q, r)
      → IsValid q
  wp_add_watched-IsValid p q e r v h = elim (Bool-cases (leb wp_number p.wp_cnt)) [
    | inl none_left ↦ subst IsValid (ground (arith, add_full p e none_left)) v
    | inr room ↦ elim (Bool-cases (ltb (length e) wp_expr_len)) [
      | inr too_long ↦ absurd (ground (arith, add_too_long p e room too_long))
      | inl fits ↦ after_expr p q e r v h room (ground arith) (expr regexec env e) refl
    ]
  ]
