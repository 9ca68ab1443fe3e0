-- ===== src/Exchange/Rates.antt =====
-- `writeToServer` of TokenGen/src/proxy1.c, and calcSoc of Controller/src/proxy1.c on what it sends.
use web_q_final.Prelude.{
  ℕ, suc, ◌+◌, ◌<◌, ◌≤◌, ◌≡◌, ◌∙◌, ap, sym, refl, arith, List, [], ◌∷◌, ◌++◌, get_or, set, take,
  map, length, All, length-set,
}
use web_q_final.Prelude.Int.{ℤ, pos, IsInt}
use web_q_final.Floats.{FloatOps}
use web_q_final.Net.{Net, IsUp}
use web_q_final.TokenGen.Outbox.{Outbox, report}
use web_q_final.TokenGen.Outbox.Report.{report-up}
use web_q_final.Controller.{Control, peers, share_out, sum_rates}
use web_q_final.Controller.Soc.Bounds.{total, granted, share_out-granted, get_or-take}
use web_q_final.Controller.Inbox.Protocol.{Msg, incoming, encode_all, IsMsg, apply, apply_all}
use web_q_final.Controller.Election.Heard.{received-apply}
use web_q_final.Controller.Election.Handover.{IsLeader, apply-IsLeader}
use web_q_final.Exchange.{reading}

-- The bytes of one turn of each TokenGen's `writeToServer`.
abbrev pub rate_bytes : Net → List Outbox → List ℕ
rate_bytes net [] = []
rate_bytes net (o ∷ os) = (report net 0 o).0 ++ rate_bytes net os

-- The TokenGens from `i` on have their numbers, and counts that fit an `int`.
abbrev pub IsOutboxes : ℕ → List Outbox → Type 0
IsOutboxes i [] = Unit {0}
IsOutboxes i (o ∷ os) = (o.my_id ≡ pos i) × IsInt o.incoming × IsOutboxes (suc i) os

abbrev pub rates_of : List Outbox → List ℤ
rates_of [] = []
rates_of (o ∷ os) = o.incoming ∷ rates_of os

abbrev rate_msgs : ℕ → List ℤ → List Msg
rate_msgs i [] = []
rate_msgs i (x ∷ xs) = incoming i x ∷ rate_msgs (suc i) xs

pub length-rates : (os : List Outbox) → length (rates_of os) ≡ length os
length-rates [] = refl
length-rates (o ∷ os) = ap suc (length-rates os)

length-rate_msgs : (i : ℕ) (xs : List ℤ) → length (rate_msgs i xs) ≡ length xs
length-rate_msgs i [] = refl
length-rate_msgs i (x ∷ xs) = ap suc (length-rate_msgs (suc i) xs)

rates-IsMsg :
    (i : ℕ) (os : List Outbox)
    → i + length os ≤ peers
    → IsOutboxes i os
    → All IsMsg (rate_msgs i (rates_of os))
rates-IsMsg i [] h v = tt
rates-IsMsg i (o ∷ os) h (e, w, v) = ((omega arith, w), rates-IsMsg (suc i) os (omega arith) v)

rate_bytes-encode :
    (net : Net) (up : IsUp net) (i : ℕ) (os : List Outbox)
    → IsOutboxes i os
    → rate_bytes net os ≡ encode_all (rate_msgs i (rates_of os))
rate_bytes-encode net up i [] v = refl
rate_bytes-encode net up i (o ∷ os) (e, w, v) =
    rw (report-up net 0 o up.3, e, rate_bytes-encode net up (suc i) os v) refl

-- The table with `xs` from `i` on.
abbrev filled : ℕ → List ℤ → List ℤ → List ℤ
filled i [] rs = rs
filled i (x ∷ xs) rs = filled (suc i) xs (set rs i x)

filled-cons : (i : ℕ) (xs rs : List ℤ) (r : ℤ) → filled (suc i) xs (r ∷ rs) ≡ r ∷ filled i xs rs
filled-cons i [] rs r = refl
filled-cons i (x ∷ xs) rs r = filled-cons (suc i) xs (set rs i x) r

take-filled : (xs rs : List ℤ) → length xs ≤ length rs → take (length xs) (filled 0 xs rs) ≡ xs
take-filled [] rs h = refl
take-filled (x ∷ xs) [] h = absurd (omega arith)
take-filled (x ∷ xs) (r ∷ rs) h =
    rw (filled-cons 0 xs rs x) (ap (λ t. x ∷ t) (take-filled xs rs (omega arith)))

module _ {F : Type 0} (ops : FloatOps F) (net : Net) where
  -- Each share is what the stored rates make it.
  abbrev pub IsShared : ℕ → Control F → Type 0
  IsShared k s =
      (tg : ℕ)
      → tg < k
      → get_or s.soc tg (pos 0)
        ≡ granted ops k (total ops k s) s.capacity (get_or s.incoming_r tg (pos 0))

  -- After a rate from TokenGen `j`.
  record Rated (k : ℕ) (rs : List ℤ) (s t : Control F) : Type 0 where
    stored : t.incoming_r ≡ rs
    same_capacity : t.capacity ≡ s.capacity
    same_id : t.my_id ≡ s.my_id
    shared : IsShared k t

  Rated-chain :
      {k : ℕ} {rs : List ℤ} {s t u : Control F} (f : List ℤ → List ℤ)
      → Rated k rs s t
      → Rated k (f t.incoming_r) t u
      → Rated k (f rs) s u
  Rated-chain f one rest = record {
    stored = rest.stored ∙ ap f one.stored;
    same_capacity = rest.same_capacity ∙ one.same_capacity;
    same_id = rest.same_id ∙ one.same_id;
    shared = rest.shared;
  }

  incoming-Rated :
      {k : ℕ} (j : ℕ) (x : ℤ) (s : Control F)
      → IsLeader k s
      → k ≤ peers
      → Rated k (set s.incoming_r j x) s (apply ops net (incoming j x) s)
  unfolding apply share_out
  incoming-Rated {k} j x s v h =
      let s₁ : Control F = record s { incoming_r = set s.incoming_r j x } in
      rw (v.leads, v.tokens)
        (record {
          stored = refl;
          same_capacity = refl;
          same_id = refl;
          shared = λ tg l.
              share_out-granted ops k tg s₁ l
                (omega (arith, length-set s.incoming_r j x, v.shape.rates));
        })

  apply_all-Rated :
      {k : ℕ} (i : ℕ) (xs : List ℤ) (s : Control F)
      → IsLeader k s
      → k ≤ peers
      → All IsMsg (rate_msgs i xs)
      → IsShared k s
      → Rated k (filled i xs s.incoming_r) s (apply_all ops net (rate_msgs i xs) s)
        × IsLeader k (apply_all ops net (rate_msgs i xs) s)
  unfolding apply_all
  apply_all-Rated i [] s v h ms w =
      (record { stored = refl; same_capacity = refl; same_id = refl; shared = w }, v)
  apply_all-Rated i (x ∷ xs) s v h (m, ms) w =
      let one = incoming-Rated i x s v h in
      let v' = apply-IsLeader ops net (incoming i x) s m tt v in
      let (rest, v'') =
        apply_all-Rated (suc i) xs (apply ops net (incoming i x) s) v' h ms one.shared in
      (Rated-chain (filled (suc i) xs) one rest, v'')

  -- The first rate makes the shares, whatever they were.
  rates-Rated :
      {k : ℕ} (xs : List ℤ) (s : Control F)
      → IsLeader k s
      → k ≤ peers
      → 0 < length xs
      → All IsMsg (rate_msgs 0 xs)
      → Rated k (filled 0 xs s.incoming_r) s (apply_all ops net (rate_msgs 0 xs) s)
        × IsLeader k (apply_all ops net (rate_msgs 0 xs) s)
  unfolding apply_all
  rates-Rated [] s v h some ms = absurd (omega arith)
  rates-Rated (x ∷ xs) s v h some (m, ms) =
      let one = incoming-Rated 0 x s v h in
      let v' = apply-IsLeader ops net (incoming 0 x) s m tt v in
      let (rest, v'') = apply_all-Rated 1 xs (apply ops net (incoming 0 x) s) v' h ms one.shared in
      (Rated-chain (filled 1 xs) one rest, v'')

  -- A controller in charge that has read one rate of each of its TokenGens.
  pub record IsInformed (k : ℕ) (xs : List ℤ) (s t : Control F) : Type 0 where
    pub leader : IsLeader k t
    pub same_id : t.my_id ≡ s.my_id
    pub shares :
        (tg : ℕ)
        → tg < k
        → get_or t.soc tg (pos 0)
          ≡ granted ops k
              (sum_rates ops (ops.of_int (pos 0)) (map ops.of_int xs))
              s.capacity
              (get_or xs tg (pos 0))

  pub reading-IsInformed :
      {k : ℕ} (up : IsUp net) (os : List Outbox) (s : Control F)
      → IsLeader k s
      → 0 < k
      → length os ≡ k
      → IsOutboxes 0 os
      → IsInformed k (rates_of os) s (reading ops net (suc k) (rate_bytes net os) s)
  reading-IsInformed {k} up os s v some n o =
      let few : k ≤ peers = omega (arith, v.tokens, v.shape.few) in
      let ms = rates-IsMsg 0 os (omega (arith, n, few)) o in
      let (r, v') = rates-Rated xs s v few (omega (arith, length-rates os, n)) ms in
      rw
        (ap (λ b. reading ops net (suc k) b s) (rate_bytes-encode net up 0 os o)
          ∙ ap (λ j. reading ops net (suc j) (encode_all (rate_msgs 0 xs)) s) (sym count)
          ∙ received-apply ops net up (rate_msgs 0 xs) s ms v.shape)
        (record {
          leader = v';
          same_id = r.same_id;
          shares = λ tg l.
              r.shared tg l
              ∙ ap
                  (λ ys.
                    granted ops k (sum_rates ops (ops.of_int (pos 0)) (map ops.of_int ys))
                      (apply_all ops net (rate_msgs 0 xs) s).capacity
                      (get_or (apply_all ops net (rate_msgs 0 xs) s).incoming_r tg (pos 0)))
                  (taken r)
              ∙ ap
                  (λ c.
                    granted ops k (sum_rates ops (ops.of_int (pos 0)) (map ops.of_int xs)) c
                      (get_or (apply_all ops net (rate_msgs 0 xs) s).incoming_r tg (pos 0)))
                  r.same_capacity
              ∙ ap
                  (granted ops k (sum_rates ops (ops.of_int (pos 0)) (map ops.of_int xs))
                    s.capacity)
                  (sym
                      (get_or-take k (apply_all ops net (rate_msgs 0 xs) s).incoming_r tg (pos 0) l)
                    ∙ ap (λ ys. get_or ys tg (pos 0)) (taken r));
        })
    where
      xs : List ℤ
      xs = rates_of os

      count : length (rate_msgs 0 xs) ≡ k
      count = length-rate_msgs 0 xs ∙ length-rates os ∙ n

      taken : {t : Control F} → Rated k (filled 0 xs s.incoming_r) s t → take k t.incoming_r ≡ xs
      taken r =
          ap (take k) r.stored
          ∙ ap (λ j. take j (filled 0 xs s.incoming_r)) (sym (length-rates os ∙ n))
          ∙ take-filled xs s.incoming_r
              (omega (arith, length-rates os, n, v.shape.rates, v.shape.few, v.tokens))
