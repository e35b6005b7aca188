-- ===== src/Watchpoint.antt =====
-- simulator/src/monitor/sdb/watchpoint.c: the ten watchpoints of the debugger.
pub mod Inv
pub mod Update
mod Tests
use cpu_linux.Prelude.{
  ◌>>=◌, ◌>>◌, ℕ, zero, suc, ◌+◌, ◌-◌, Bool, true, false, not, ◌&&◌, ◌||◌, List, [], ◌∷◌, ltb, leb,
  ◌==◌, if◌then◌else◌, length, get_or, set, assertion, undefined, Outcome, ok, guard,
}
use cpu_linux.Expr.Eval.{Env}
use cpu_linux.Expr.Lexer.{Regexec, expr}

-- WP_NUMBER and WP_EXPR_LEN.
abbrev pub wp_number : ℕ
wp_number = 10

abbrev pub wp_expr_len : ℕ
wp_expr_len = 101

pub record Watchpoint : Type 0 where
  pub number : ℕ
  pub keep : ℕ
  pub text : List ℕ
  pub value : ℕ

abbrev pub no_watchpoint : Watchpoint
no_watchpoint = record { number = 0; keep = 0; text = []; value = 0 }

-- `wp` and `wp_cnt`.
pub record Pool : Type 0 where
  pub wp : List Watchpoint
  pub wp_cnt : ℕ

-- What a call prints.
pub data Reply : Type 0 where
  full bad_expr bad_number not_enabled deleted : Reply
  added : ℕ → Reply

-- The loop of wp_init() over `n` watchpoints, from index `i` on.
unfoldable pub init_from : ℕ → ℕ → List Watchpoint
init_from zero i = []
init_from (suc n) i =
    record { number = i + 1; keep = 0; text = []; value = 0 } ∷ init_from n (i + 1)

unfoldable pub wp_init : Pool
unfolding init_from
wp_init = record { wp = init_from wp_number 0; wp_cnt = 0 }

abbrev pub slot : Pool → ℕ → Watchpoint
slot p i = get_or p.wp i no_watchpoint

-- wp_del_watched(): the loop looks for the number, and `num - 1` is what it disables. An `int` below
-- 0 is a large word, and is refused with the numbers above WP_NUMBER.
unfoldable pub del_loop : List Watchpoint → Pool → ℕ → Pool × Reply
del_loop [] p num = (p, bad_number)
del_loop (w ∷ ws) p num =
    if w.number == num
    then (if w.keep == 1
        then (
          record p { wp = set p.wp (num - 1) (record (slot p (num - 1)) { keep = 0 }) },
          deleted,
        )
        else (p, not_enabled))
    else del_loop ws p num

unfoldable pub wp_del_watched : Pool → ℕ → Pool × Reply
wp_del_watched p num =
    if leb 1 num && leb num wp_number then del_loop p.wp p num else (p, bad_number)

-- What wp_add_watched() does once the expression is copied and evaluated.
unfoldable pub enable : Pool → ℕ → ℕ × Bool → Pool × Reply
enable p idx (v, false) = (p, bad_expr)
enable p idx (v, true) = (
  record { wp = set p.wp idx (record (slot p idx) { keep = 1; value = v }); wp_cnt = p.wp_cnt + 1 },
  added (slot p idx).number,
)

unfoldable pub copy_text : Pool → ℕ → List ℕ → Pool
copy_text p idx e = record p { wp = set p.wp idx (record (slot p idx) { text = e }) }

module _ (regexec : Regexec) (env : Env) where
  -- strcpy() into `expr` writes past it from 101 characters on.
  unfoldable pub wp_add_watched : Pool → List ℕ → Outcome (Pool × Reply)
  wp_add_watched p e = if leb wp_number p.wp_cnt then ok (p, full) else do
    guard (ltb (length e) wp_expr_len) undefined
    r ← expr regexec env e
    ok (enable (copy_text p p.wp_cnt e) p.wp_cnt r)

  unfoldable pub recheck : Watchpoint → Outcome (Watchpoint × Bool)
  recheck w = do
    (new_value, success) ← expr regexec env w.text
    guard success assertion
    ok (record w { value = new_value }, not (new_value == w.value))

  -- One round of wp_check_and_update(): the watchpoint, and whether its value has changed.
  unfoldable pub check_one : Watchpoint → Outcome (Watchpoint × Bool)
  check_one w = if w.keep == 1 then recheck w else ok (w, false)

  unfoldable pub check_all : List Watchpoint → Outcome (List Watchpoint × Bool)
  check_all [] = ok ([], false)
  check_all (w ∷ ws) = do
    (w', changed) ← check_one w
    (ws', others) ← check_all ws
    ok (w' ∷ ws', changed || others)

  -- wp_check_and_update(), with `stop_flag`.
  unfoldable pub wp_check_and_update : Pool → Outcome (Pool × Bool)
  wp_check_and_update p = do (ws, flag) ← check_all p.wp; ok (record p { wp = ws }, flag)

-- The watchpoints that wp_print() lists.
unfoldable pub wp_print : List Watchpoint → List Watchpoint
wp_print [] = []
wp_print (w ∷ ws) = if w.keep == 1 then w ∷ wp_print ws else wp_print ws
