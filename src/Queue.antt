-- ===== src/Queue.antt =====
-- queue.h: the list of per-second counts that the logger keeps, with running totals.
-- The chain of nodes from `root` on is a list, oldest first; `current` is its last node.
pub mod Valid
pub mod Window
mod Tests
use web_q_final.Prelude.{Bool, List, [], ◌∷◌, ◌++◌, if◌then◌else◌}
use web_q_final.Prelude.Int.{ℤ, pos, ◌+ℤ◌, ◌-ℤ◌, ltb_ℤ, eqb_ℤ, int32, int64}

-- `struct node`, without its link.
pub record Node : Type 0 where
  pub in_count : ℤ
  pub out_count : ℤ
  pub fail_count : ℤ

-- `struct queue`: `len` and `limit` are `int`, the totals `long long`.
pub record Queue : Type 0 where
  pub nodes : List Node
  pub len : ℤ
  pub limit : ℤ
  pub tot_in : ℤ
  pub tot_out : ℤ
  pub tot_fail : ℤ

-- `{ NULL, NULL, 0, limit, 0, 0, 0 }`, the initializers of timer.h.
abbrev pub fresh : ℤ → Queue
fresh l = record {
  nodes = [];
  len = pos 0;
  limit = l;
  tot_in = pos 0;
  tot_out = pos 0;
  tot_fail = pos 0;
}

-- `mem` says whether `malloc` returned a node.
pub insert : Bool → Queue → Node → Queue
insert mem q n =
    if mem
    then record q {
      nodes = q.nodes ++ (n ∷ []);
      len = int32 (q.len +ℤ pos 1);
      tot_in = int64 (q.tot_in +ℤ n.in_count);
      tot_out = int64 (q.tot_out +ℤ n.out_count);
      tot_fail = int64 (q.tot_fail +ℤ n.fail_count);
    }
    else q

pub is_empty : Queue → ℤ
is_empty q = elim q.nodes [ [] ↦ pos 1 | _ ∷ _ ↦ pos 0 ]

-- The branch of `deleteq` that removes the root.
pub unlink : Queue → Node → List Node → ℤ × Queue
unlink q n rest = (
  n.in_count,
  record q {
    nodes = rest;
    len = int32 (q.len -ℤ pos 1);
    tot_in = int64 (q.tot_in -ℤ n.in_count);
    tot_out = int64 (q.tot_out -ℤ n.out_count);
    tot_fail = int64 (q.tot_fail -ℤ n.fail_count);
  },
)

-- Returns the removed `in`, and 0 where the queue is empty.
pub deleteq : Queue → ℤ × Queue
unfolding unlink
deleteq q = elim q.nodes [ [] ↦ (pos 0, q) | n ∷ rest ↦ unlink q n rest ]

pub size : Queue → ℤ
size q = q.len

pub set_limit : Queue → ℤ → Queue
set_limit q l = record q { limit = l }

unfoldable pub push_back : Bool → Queue → Node → Queue
unfolding size deleteq insert
push_back mem q n =
    if eqb_ℤ (size q) q.limit then (let (_, q') = deleteq q in insert mem q' n) else insert mem q n

pub get_total_in : Queue → ℤ
get_total_in q = q.tot_in

pub get_total_out : Queue → ℤ
get_total_out q = q.tot_out

pub get_total_failing : Queue → ℤ
get_total_failing q = q.tot_fail

pub pending_requests : Queue → ℤ
pending_requests q = let d = int64 (q.tot_in -ℤ q.tot_out) in if ltb_ℤ (pos 0) d then d else pos 0
