-- ===== src/Queue/Window.antt =====
-- What the logger's queue remembers: the last `limit` entries and their exact sums.
use mathlib.Core.List.{append_assoc, append-nil}
use mathlib.Core.Path.{subst}
use web_q_final.Prelude.{
  dec_lt, ◌≢◌, ℕ, zero, suc, ◌+◌, ◌-◌, ◌*◌, ◌^◌, ◌<◌, ◌≤◌, ◌≡◌, refl, ap, ◌∙◌, true, List, [], ◌∷◌,
  ◌++◌, arith, if◌then◌else◌, length, length-drop, drop, drop-append_le, drop-suc, sym, All,
  All-drop,
}
use web_q_final.Prelude.Int.{
  ℤ, pos, ◌-ℤ◌, int64, int64-eq, IsInt, pos_part, neg_part, +ℤ_bounds, -ℤ_bounds, ltb_ℤ, eqb_ℤ_iff,
}
use web_q_final.Queue.{
  Node, Queue, insert, deleteq, unlink, push_back, fresh, get_total_in, get_total_out,
  get_total_failing, pending_requests,
}
use web_q_final.Queue.Valid.{
  IsValid, total, in_of, out_of, fail_of, insert-IsValid, deleteq-IsValid, deleteq_on,
  fresh-IsValid, length-snoc,
}

-- A run of `push_back`, every allocation granted.
unfoldable pub push_all : Queue → List Node → Queue
push_all q [] = q
push_all q (n ∷ ns) = push_all (push_back true q n) ns

-- The last `l` of a history.
abbrev pub last_of : ℕ → List Node → List Node
last_of l h = drop (length h - l) h

limit-push_back : (q : Queue) (n : Node) → (push_back true q n).limit ≡ q.limit
unfolding push_back deleteq insert
limit-push_back q n = ground arith

-- `q` holds the window of the history `h`.
record Holds (l : ℕ) (h : List Node) (q : Queue) : Type 0 where
  valid : IsValid q
  bound : q.limit ≡ pos l
  window : q.nodes ≡ last_of l h

push_back-full :
    (q : Queue) (n : Node) → q.len ≡ q.limit → push_back true q n ≡ insert true (deleteq q).1 n
unfolding push_back
push_back-full q n e = rw ((eqb_ℤ_iff q.len q.limit).1 e)

push_back-room : (q : Queue) (n : Node) → q.len ≢ q.limit → push_back true q n ≡ insert true q n
unfolding push_back
push_back-room q n e = ground (arith, eqb_ℤ_iff q.len q.limit)

nodes-insert : (q : Queue) (n : Node) → (insert true q n).nodes ≡ q.nodes ++ (n ∷ [])
unfolding insert
nodes-insert q n = refl

nodes-deleteq :
    (q : Queue) (n : Node) (rest : List Node) → q.nodes ≡ n ∷ rest → (deleteq q).1.nodes ≡ rest
unfolding unlink
nodes-deleteq q n rest e = rw (deleteq_on q (n ∷ rest) e)

module _ {l : ℕ} (some_room : 0 < l) (fits : l < 2 ^ 31) where
  length-window :
      (h : List Node) (q : Queue) → Holds l h q → length q.nodes ≡ length h - (length h - l)
  length-window h q w = rw (w.window) (length-drop (length h - l) h)

  -- Below the limit the entry is appended; at the limit the oldest one goes first.
  grow :
      (h : List Node) (q : Queue) (n : Node)
      → Holds l h q
      → length h < l
      → Holds l (h ++ (n ∷ [])) (push_back true q n)
  grow h q n w below =
      let same = push_back-room q n room in
      record {
        valid = rw same (insert-IsValid true q n (omega (arith, length-window h q w)) w.valid);
        bound = limit-push_back q n ∙ w.bound;
        window = rw same (
            nodes-insert q n
            ∙ ap (λ t. t ++ (n ∷ [])) (w.window ∙ all_of h below)
            ∙ sym all_of_snoc);
      }
    where
      all_of : (g : List Node) → length g < l → last_of l g ≡ g
      all_of g b = ap (λ (k : ℕ). drop k g) {y = 0} (omega arith)

      all_of_snoc : last_of l (h ++ (n ∷ [])) ≡ h ++ (n ∷ [])
      all_of_snoc = ap (λ (k : ℕ). drop k (h ++ (n ∷ []))) {y = 0} (omega (arith, length-snoc h n))

      room : q.len ≢ q.limit
      room e =
          absurd
            (omega (arith, length-window h q w, ap pos_part (sym w.valid.counted ∙ e ∙ w.bound)))

  slide :
      (h : List Node) (q : Queue) (n : Node)
      → Holds l h q
      → l ≤ length h
      → Holds l (h ++ (n ∷ [])) (push_back true q n)
  slide h q n w full = go q.nodes refl
    where
      at_limit : q.len ≡ q.limit
      at_limit = w.valid.counted ∙ ap pos (omega (arith, length-window h q w)) ∙ sym w.bound

      next_window :
          (rest : List Node)
          → drop (suc (length h - l)) h ≡ rest
          → last_of l (h ++ (n ∷ [])) ≡ rest ++ (n ∷ [])
      next_window rest e =
          ap (λ (k : ℕ). drop k (h ++ (n ∷ []))) {y = suc (length h - l)}
            (omega (arith, length-snoc h n))
          ∙ drop-append_le (suc (length h - l)) h (n ∷ []) (omega arith)
          ∙ ap (λ t. t ++ (n ∷ [])) e

      go : (ns : List Node) → q.nodes ≡ ns → Holds l (h ++ (n ∷ [])) (push_back true q n)
      go [] e = absurd (omega (arith, length-window h q w, ap length e))
      go (m ∷ rest) e =
          let same = push_back-full q n at_limit in
          record {
            valid = rw same (
                insert-IsValid true (deleteq q).1 n
                  (omega
                    (arith, length-window h q w, ap length e, ap length (nodes-deleteq q m rest e)))
                  (deleteq-IsValid q w.valid));
            bound = limit-push_back q n ∙ w.bound;
            window = rw same (
                nodes-insert (deleteq q).1 n
                ∙ ap (λ t. t ++ (n ∷ [])) (nodes-deleteq q m rest e)
                ∙ sym (next_window rest (drop-suc (length h - l) h (sym w.window ∙ e))));
          }

  push_back-Holds :
      (h : List Node) (q : Queue) (n : Node)
      → Holds l h q
      → Holds l (h ++ (n ∷ [])) (push_back true q n)
  push_back-Holds h q n w = elim (dec_lt (length h) l) [
    | yes below ↦ grow h q n w below
    | no full ↦ slide h q n w (omega arith)
  ]

  push_all-Holds : (h ns : List Node) (q : Queue) → Holds l h q → Holds l (h ++ ns) (push_all q ns)
  unfolding push_all
  push_all-Holds h [] q w = rw append-nil w
  push_all-Holds h (n ∷ ns) q w =
      subst (λ g. Holds l g (push_all (push_back true q n) ns)) (append_assoc h (n ∷ []) ns)
        (push_all-Holds (h ++ (n ∷ [])) ns (push_back true q n) (push_back-Holds h q n w))

  fresh-Holds : Holds l [] (fresh (pos l))
  fresh-Holds = record { valid = fresh-IsValid (pos l); bound = refl; window = refl_nil (0 - l) }
    where
      refl_nil : (k : ℕ) → [] ≡ drop {A = Node} k []
      refl_nil zero = refl
      refl_nil (suc k) = refl

abbrev pub IsNode : Node → Type 0
IsNode n = IsInt n.in_count × IsInt n.out_count × IsInt n.fail_count

-- A count of each node is an `int`.
abbrev pub Ints : (Node → ℤ) → List Node → Type 0
Ints f ns = All (λ n. IsInt (f n)) ns

total_bound :
    (f : Node → ℤ) (ns : List Node)
    → Ints f ns
    → (pos_part (total f ns) ≤ length ns * 2 ^ 31) × (neg_part (total f ns) ≤ length ns * 2 ^ 31)
total_bound f [] h = omega arith
total_bound f (n ∷ ns) h = omega (arith, total_bound f ns h.1, +ℤ_bounds (f n) (total f ns), h.0)

-- Fewer than 2 ^ 31 values of an `int` add up to a `long long`.
total_exact :
    (f : Node → ℤ) (ns : List Node)
    → length ns < 2 ^ 31
    → Ints f ns
    → int64 (total f ns) ≡ total f ns
total_exact f ns h i =
    int64-eq _ (omega (arith, total_bound f ns i)) (omega (arith, total_bound f ns i))

module _ {l : ℕ} (some_room : 0 < l) (fits : l < 2 ^ 31) (h : List Node) where
  final : Holds l h (push_all (fresh (pos l)) h)
  final = push_all-Holds some_room fits [] h (fresh (pos l)) (fresh-Holds some_room fits)

  -- After any run of `push_back` on an empty queue whose limit l is positive and an `int`, the queue
  -- holds exactly the last l entries pushed (all of them, if fewer), in order, and is valid: `len`
  -- counts them and each total is their sum.
  pub push_all-window :
      ((push_all (fresh (pos l)) h).nodes ≡ last_of l h) × IsValid (push_all (fresh (pos l)) h)
  push_all-window = (final.window, final.valid)

  window_total :
      (f : Node → ℤ)
      → Ints f h
      → int64 (total f (push_all (fresh (pos l)) h).nodes) ≡ total f (last_of l h)
  window_total f i =
      ap (λ (ns : List Node). int64 (total f ns)) final.window
      ∙ total_exact f (last_of l h) (omega (arith, length-drop (length h - l) h))
          (All-drop _ (length h - l) h i)

  -- For such a run over entries whose counts are values of an `int`, the three getters return the
  -- sums over the last l entries, with no overflow.
  pub push_all-totals :
      Ints in_of h
      → Ints out_of h
      → Ints fail_of h
      → (get_total_in (push_all (fresh (pos l)) h) ≡ total in_of (last_of l h))
        × (get_total_out (push_all (fresh (pos l)) h) ≡ total out_of (last_of l h))
        × (get_total_failing (push_all (fresh (pos l)) h) ≡ total fail_of (last_of l h))
  unfolding get_total_in get_total_out get_total_failing
  push_all-totals i o f = (
    final.valid.ins ∙ window_total in_of i,
    final.valid.outs ∙ window_total out_of o,
    final.valid.fails ∙ window_total fail_of f,
  )

  -- For such a run over entries whose counts are values of an `int`, `pending_requests` is what came
  -- in less what went out over the last l entries, and 0 where more went out.
  pub push_all-pending :
      Ints in_of h
      → Ints out_of h
      → pending_requests (push_all (fresh (pos l)) h) ≡ (
          let d = total in_of (last_of l h) -ℤ total out_of (last_of l h) in
          if ltb_ℤ (pos 0) d then d else pos 0)
  unfolding pending_requests
  push_all-pending i o =
      rw
        (
          final.valid.ins ∙ window_total in_of i,
          final.valid.outs ∙ window_total out_of o,
          difference_exact,
        )
        refl
    where
      a : ℤ
      a = total in_of (last_of l h)

      b : ℤ
      b = total out_of (last_of l h)

      difference_exact : int64 (a -ℤ b) ≡ a -ℤ b
      difference_exact =
          let bounds : (pos_part a + neg_part b < 2 ^ 63) × (neg_part a + pos_part b < 2 ^ 63) =
            omega (
              arith,
              length-drop (length h - l) h,
              total_bound in_of (last_of l h) (All-drop _ (length h - l) h i),
              total_bound out_of (last_of l h) (All-drop _ (length h - l) h o),
            ) in
          int64-eq _ (omega (arith, bounds, -ℤ_bounds a b)) (omega (arith, bounds, -ℤ_bounds a b))
