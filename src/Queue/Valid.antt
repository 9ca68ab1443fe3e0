-- ===== src/Queue/Valid.antt =====
-- The representation invariant of `struct queue`, and that every operation keeps it.
use web_q_final.Prelude.{
  ℕ, suc, ◌^◌, ◌<◌, ◌≡◌, refl, ap, ◌∙◌, Bool, true, false, List, [], ◌∷◌, ◌++◌, arith, length,
  length-append,
}
use web_q_final.Prelude.Int.{
  ℤ, pos, ◌+ℤ◌, ◌-ℤ◌, int32, int64, int32-eq, int64-add_int64, int64-sub_int64, int_laws, pos_part,
  neg_part, eq_of_parts, +ℤ_parts,
}
use web_q_final.Queue.{Node, Queue, insert, deleteq, unlink, fresh}

-- The sum of one count over the nodes, with no wrap.
abbrev pub total : (Node → ℤ) → List Node → ℤ
total f [] = pos 0
total f (n ∷ ns) = f n +ℤ total f ns

pub total-append :
    (f : Node → ℤ) (xs : List Node) (n : Node) → total f (xs ++ (n ∷ [])) ≡ total f xs +ℤ f n
total-append f [] n = omega int_laws
total-append f (x ∷ xs) n =
    eq_of_parts _ _ (
      omega (arith, ap pos_part (total-append f xs n), ap neg_part (total-append f xs n), +ℤ_parts))

abbrev pub in_of : Node → ℤ
in_of n = n.in_count

abbrev pub out_of : Node → ℤ
out_of n = n.out_count

abbrev pub fail_of : Node → ℤ
fail_of n = n.fail_count

-- `len` counts the nodes, and each total is the sum over them, as a `long long` holds it.
pub record IsValid (q : Queue) : Type 0 where
  pub counted : q.len ≡ pos (length q.nodes)
  pub short : length q.nodes < 2 ^ 31
  pub ins : q.tot_in ≡ int64 (total in_of q.nodes)
  pub outs : q.tot_out ≡ int64 (total out_of q.nodes)
  pub fails : q.tot_fail ≡ int64 (total fail_of q.nodes)

pub fresh-IsValid : (l : ℤ) → IsValid (fresh l)
unfolding int64
fresh-IsValid l = record {
  counted = refl;
  short = omega arith;
  ins = refl;
  outs = refl;
  fails = refl;
}

len_succ : (n : ℕ) → suc n < 2 ^ 31 → int32 (pos n +ℤ pos 1) ≡ pos (suc n)
unfolding ◌+ℤ◌
len_succ n h = ap int32 (ground arith) ∙ int32-eq (pos (suc n)) (omega arith)

len_pred : (n : ℕ) → n < 2 ^ 31 → int32 (pos (suc n) -ℤ pos 1) ≡ pos n
unfolding ◌-ℤ◌
len_pred n h = ap int32 (ground arith) ∙ int32-eq (pos n) (omega arith)

total_grow :
    (f : Node → ℤ) (t : ℤ) (xs : List Node) (n : Node)
    → t ≡ int64 (total f xs)
    → int64 (t +ℤ f n) ≡ int64 (total f (xs ++ (n ∷ [])))
total_grow f t xs n e = rw (e, total-append f xs n) (int64-add_int64 _ _)

total_shrink :
    (f : Node → ℤ) (t : ℤ) (xs : List Node) (n : Node)
    → t ≡ int64 (f n +ℤ total f xs)
    → int64 (t -ℤ f n) ≡ int64 (total f xs)
total_shrink f t xs n e = rw e (int64-sub_int64 _ _ ∙ ap int64 cancel)
  where
    cancel : f n +ℤ total f xs -ℤ f n ≡ total f xs
    cancel = omega int_laws

pub length-snoc : (xs : List Node) (n : Node) → length (xs ++ (n ∷ [])) ≡ suc (length xs)
length-snoc xs n = omega (arith, length-append xs (n ∷ []))

pub insert-IsValid :
    (mem : Bool) (q : Queue) (n : Node)
    → suc (length q.nodes) < 2 ^ 31
    → IsValid q
    → IsValid (insert mem q n)
unfolding insert
insert-IsValid false q n h v = v
insert-IsValid true q n h v = record {
  counted = rw (v.counted, length-snoc q.nodes n) (len_succ _ h);
  short = omega (arith, length-snoc q.nodes n);
  ins = total_grow in_of q.tot_in q.nodes n v.ins;
  outs = total_grow out_of q.tot_out q.nodes n v.outs;
  fails = total_grow fail_of q.tot_fail q.nodes n v.fails;
}

unlink-IsValid :
    (q : Queue) (n : Node) (rest : List Node)
    → q.nodes ≡ n ∷ rest
    → IsValid q
    → IsValid (unlink q n rest).1
unfolding unlink
unlink-IsValid q n rest e v = record {
  counted =
      rw (v.counted ∙ ap (λ (l : List Node). pos (length l)) e)
        (len_pred _ (omega (arith, v.short, ap length e)));
  short = omega (arith, v.short, ap length e);
  ins =
      total_shrink in_of q.tot_in rest n (v.ins ∙ ap (λ (l : List Node). int64 (total in_of l)) e);
  outs =
      total_shrink out_of q.tot_out rest n
        (v.outs ∙ ap (λ (l : List Node). int64 (total out_of l)) e);
  fails =
      total_shrink fail_of q.tot_fail rest n
        (v.fails ∙ ap (λ (l : List Node). int64 (total fail_of l)) e);
}

pub deleteq_on :
    (q : Queue) (l : List Node)
    → q.nodes ≡ l
    → deleteq q ≡ elim l [ [] ↦ (pos 0, q) | n ∷ rest ↦ unlink q n rest ]
unfolding deleteq
deleteq_on q l e = rw (← e) refl

pub deleteq-IsValid : (q : Queue) → IsValid q → IsValid (deleteq q).1
deleteq-IsValid q v = go q.nodes refl
  where
    go : (l : List Node) → q.nodes ≡ l → IsValid (deleteq q).1
    go [] e = rw (deleteq_on q [] e) v
    go (n ∷ rest) e = rw (deleteq_on q (n ∷ rest) e) (unlink-IsValid q n rest e v)
