-- ===== src/Watchpoint/Tests.antt =====
-- The watchpoint `$pc`, with a regexec() that matches the whole text by the first rule.
use cpu_linux.Prelude.{
  ℕ, ◌+◌, ◌≡◌, refl, true, some, List, [], ◌∷◌, arith, codes, length, set, leb, ◌&&◌, ◌==◌,
  if◌then◌else◌, ok,
}
use cpu_linux.Cpu.{get_reg_val}
use cpu_linux.Expr.Eval.{Env, expr2val, eval, eval_true}
use cpu_linux.Expr.Lexer.{Regexec, first_match, add_token, scan, classify, make_token, expr}
use cpu_linux.Watchpoint.{
  Watchpoint, Pool, full, added, deleted, bad_expr, not_enabled, bad_number, wp_number, slot,
  init_from, wp_init, del_loop, wp_del_watched, enable, copy_text, wp_add_watched, recheck,
  check_one, check_all, wp_check_and_update, wp_print,
}
use cpu_linux.Watchpoint.Inv.{
  IsValid, wp_init-IsValid, wp_del_watched_lem, wp_add_watched_cases, wp_add_watched-IsValid,
}

abbrev whole : Regexec
whole regex s = some (0, length s)

abbrev guest : ℕ → Env
guest pc = record { cpu = record { gpr = []; pc = pc; csr = [] }; pmem = λ p. 0 }

abbrev pc_text : List ℕ
pc_text = codes "$pc"

abbrev on_pc : ℕ → Watchpoint
on_pc v = record { number = 1; keep = 1; text = pc_text; value = v }

abbrev one_watched : ℕ → Pool
unfolding wp_init init_from
one_watched v = record { wp = set wp_init.wp 0 (on_pc v); wp_cnt = 1 }

pc_value : expr whole (guest 16) pc_text ≡ ok (16, true)
unfolding expr make_token scan first_match add_token classify eval eval_true expr2val get_reg_val
pc_value = refl

add_pc : wp_add_watched whole (guest 16) wp_init pc_text ≡ ok (one_watched 16, added 1)
unfolding copy_text wp_add_watched wp_init init_from enable expr make_token scan first_match
    add_token classify eval eval_true expr2val get_reg_val one_watched
add_pc = refl

pc_changes : wp_check_and_update whole (guest 20) (one_watched 16) ≡ ok (one_watched 20, true)
unfolding wp_check_and_update check_all check_one recheck wp_init init_from expr make_token scan
    first_match add_token classify eval eval_true expr2val get_reg_val one_watched
pc_changes = refl

delete_pc : (wp_del_watched (one_watched 16) 1).1 ≡ deleted
unfolding wp_del_watched del_loop one_watched wp_init init_from
delete_pc = refl

listed : wp_print (one_watched 16).wp ≡ on_pc 16 ∷ []
unfolding wp_print one_watched wp_init init_from
listed = refl

one_watched-IsValid : IsValid (one_watched 16)
one_watched-IsValid =
    wp_add_watched-IsValid whole (guest 16) wp_init (one_watched 16) pc_text (added 1)
      wp_init-IsValid add_pc

wp_add_watched_cases_example : wp_add_watched whole (guest 16) (one_watched 16) pc_text ≡ (
    if leb wp_number (one_watched 16).wp_cnt
    then ok (one_watched 16, full)
    else if true
    then ok (
      record {
        wp =
            set
              (one_watched 16).wp
              (one_watched 16).wp_cnt
              (record (slot (one_watched 16) (one_watched 16).wp_cnt) {
                text = pc_text;
                keep = 1;
                value = 16;
              });
        wp_cnt = (one_watched 16).wp_cnt + 1;
      },
      added ((one_watched 16).wp_cnt + 1),
    )
    else ok (
      record (one_watched 16) {
        wp =
            set
              (one_watched 16).wp
              (one_watched 16).wp_cnt
              (record (slot (one_watched 16) (one_watched 16).wp_cnt) { text = pc_text });
      },
      bad_expr,
    ))
wp_add_watched_cases_example =
    wp_add_watched_cases whole (guest 16) (one_watched 16) pc_text (omega arith) 16 true pc_value
      one_watched-IsValid

wp_del_watched_lem_example : wp_del_watched (one_watched 16) 1 ≡ (
    if leb 1 1 && leb 1 wp_number
    then (if (slot (one_watched 16) 0).keep == 1
        then (
          record (one_watched 16) {
            wp = set (one_watched 16).wp 0 (record (slot (one_watched 16) 0) { keep = 0 });
          },
          deleted,
        )
        else (one_watched 16, not_enabled))
    else (one_watched 16, bad_number))
wp_del_watched_lem_example = wp_del_watched_lem (one_watched 16) 1 one_watched-IsValid

abbrev ten_used : Pool
ten_used = record wp_init { wp_cnt = 10 }
