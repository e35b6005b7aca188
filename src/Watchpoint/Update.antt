-- ===== src/Watchpoint/Update.antt =====
-- What wp_check_and_update() finds, and the room that deleting does not make.
use cpu_linux.Prelude.{ℕ, ◌≡◌, refl, subst, ◌∙◌, Bool, false, List, [], ◌∷◌, arith, ok, >>=-eq-ok}
use cpu_linux.Expr.Eval.{Env}
use cpu_linux.Expr.Lexer.{Regexec}
use cpu_linux.Watchpoint.{
  Watchpoint, Pool, wp_number, full, del_loop, wp_del_watched, wp_add_watched, recheck, check_one,
  check_all, wp_check_and_update,
}

module _ (regexec : Regexec) (env : Env) where
  check_one_again :
      (w w' : Watchpoint) (b : Bool)
      → check_one regexec env w ≡ ok (w', b)
      → check_one regexec env w' ≡ ok (w', false)
  unfolding check_one recheck
  check_one_again w w' b h = ground arith

  check_all_again :
      (ws ws' : List Watchpoint) (b : Bool)
      → check_all regexec env ws ≡ ok (ws', b)
      → check_all regexec env ws' ≡ ok (ws', false)
  unfolding check_all
  check_all_again [] ws' b h = ground arith
  check_all_again (w ∷ ws) ws' b h =
      let (r, e, k) = >>=-eq-ok (check_one regexec env w) _ h in
      let (q, f, m) = >>=-eq-ok (check_all regexec env ws) _ k in
      let all : r.0 ∷ q.0 ≡ ws' = ground arith in
      subst (λ l. check_all regexec env l ≡ ok (l, false)) all
        (ground (arith, check_one_again w r.0 r.1 e, check_all_again ws q.0 q.1 f))

  -- Where wp_check_and_update() has gone through, a second call in the same state of the
  -- guest goes through too, changes nothing and finds no change.
  pub wp_check_and_update_twice :
      (p p' : Pool) (flag : Bool)
      → wp_check_and_update regexec env p ≡ ok (p', flag)
      → wp_check_and_update regexec env p' ≡ ok (p', false)
  unfolding wp_check_and_update
  wp_check_and_update_twice p p' flag h =
      let (r, e, k) = >>=-eq-ok (check_all regexec env p.wp) _ h in
      let same : r.0 ≡ p'.wp = ground arith in
      ground (
        arith,
        subst (λ l. check_all regexec env l ≡ ok (l, false)) same (check_all_again p.wp r.0 r.1 e),
      )

-- Deleting leaves `wp_cnt`, and so does every run of deletions.
del_loop-wp_cnt :
    (ws : List Watchpoint) (p : Pool) (num : ℕ) → (del_loop ws p num).0.wp_cnt ≡ p.wp_cnt
unfolding del_loop
del_loop-wp_cnt [] p num = refl
del_loop-wp_cnt (w ∷ ws) p num = ground (arith, del_loop-wp_cnt ws p num)

wp_del_watched-wp_cnt : (p : Pool) (num : ℕ) → (wp_del_watched p num).0.wp_cnt ≡ p.wp_cnt
unfolding wp_del_watched
wp_del_watched-wp_cnt p num = ground (arith, del_loop-wp_cnt p.wp p num)

abbrev pub delete_all : Pool → List ℕ → Pool
delete_all p [] = p
delete_all p (num ∷ nums) = delete_all (wp_del_watched p num).0 nums

-- Once ten watchpoints were added, no deletion makes room for another: wp_add_watched() refuses
-- every expression after any sequence of deletions.
pub full_after_deletions :
    (regexec : Regexec) (env : Env) (p : Pool) (nums e : List ℕ)
    → p.wp_cnt ≡ wp_number
    → wp_add_watched regexec env (delete_all p nums) e ≡ ok (delete_all p nums, full)
unfolding wp_add_watched
full_after_deletions regexec env p [] e h = ground arith
full_after_deletions regexec env p (num ∷ nums) e h =
    full_after_deletions regexec env (wp_del_watched p num).0 nums e
      (wp_del_watched-wp_cnt p num ∙ h)
