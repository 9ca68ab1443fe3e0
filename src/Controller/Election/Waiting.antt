-- ===== src/Controller/Election/Waiting.antt =====
-- The state of a backup that waits for votes in `timeout` of Controller/src/proxy1.c.

use web_q_final.Prelude.{
  ℕ, ◌≤◌, ◌≡◌, ◌∙◌, ap, refl, arith, List, [], ◌∷◌, false, length, All, Bool-cases, inl, inr,
}
use web_q_final.Prelude.Int.{ℤ, pos, eqb_ℤ, pos_part}
use web_q_final.Floats.{FloatOps}
use web_q_final.Net.{Net}
use web_q_final.Controller.{Control, share_out}
use web_q_final.Controller.Inbox.Protocol.{
  Msg, capacity, hardness, heartbeat, positive, negative, change, tg_ack, ack, incoming, IsControl,
  apply, apply_all,
}
use web_q_final.Controller.Inbox.Keep.{apply-IsControl}
use web_q_final.Controller.Election.{await_votes, in_time}
use web_q_final.Controller.Election.Votes.{polls_of}
use web_q_final.Controller.Election.Decision.{begun, begun-IsControl}

-- Neither a heartbeat nor the news of another takeover.
abbrev pub IsCalm : Msg → Type 0
IsCalm heartbeat = ⊥
IsCalm (change n) = ⊥
IsCalm _ = Unit {0}

module _ {F : Type 0} where
  -- A backup that waits for votes since `t`, with `k` TokenGens and `m` as the majority.
  pub record IsWaiting (t m : ℤ) (k : ℕ) (s : Control F) : Type 0 where
    pub shape : IsControl s
    pub backup : eqb_ℤ s.id s.my_id ≡ false
    pub asking : s.time_out ≡ pos 1
    pub since : s.start_time ≡ t
    pub enough : s.majority ≡ m
    pub tokens : pos_part s.no_of_proxy ≡ k
    pub known : k ≤ length s.ip_array

module _ {F : Type 0} (ops : FloatOps F) (net : Net) where
  same_wait :
      {t m : ℤ} {k : ℕ} {s s' : Control F}
      → IsWaiting t m k s
      → IsControl s'
      → s'.id ≡ s.id
      → s'.my_id ≡ s.my_id
      → s'.time_out ≡ s.time_out
      → s'.start_time ≡ s.start_time
      → s'.majority ≡ s.majority
      → s'.no_of_proxy ≡ s.no_of_proxy
      → s'.ip_array ≡ s.ip_array
      → IsWaiting t m k s'
  same_wait v c i me o st ma n ips = record {
    shape = c;
    backup = rw (i, me) v.backup;
    asking = o ∙ v.asking;
    since = st ∙ v.since;
    enough = ma ∙ v.enough;
    tokens = ap pos_part n ∙ v.tokens;
    known = rw ips v.known;
  }

  pub apply-IsWaiting :
      {t m : ℤ} {k : ℕ} (x : Msg) (s : Control F)
      → IsCalm x
      → IsWaiting t m k s
      → IsWaiting t m k (apply ops net x s)
  unfolding apply share_out
  apply-IsWaiting (change n) s h v = absurd h
  apply-IsWaiting heartbeat s h v = absurd h
  apply-IsWaiting (positive tg) s h v =
      same_wait v (apply-IsControl ops net (positive tg) s v.shape) (ground (arith, v.backup))
        (ground (arith, v.backup)) (ground (arith, v.backup)) (ground (arith, v.backup))
        (ground (arith, v.backup)) (ground (arith, v.backup)) (ground (arith, v.backup))
  apply-IsWaiting (tg_ack tg) s h v = rw v.backup v
  apply-IsWaiting (ack n) s h v = rw v.backup v
  apply-IsWaiting (incoming tg z) s h v =
      same_wait v (apply-IsControl ops net (incoming tg z) s v.shape) (rw v.backup refl)
        (rw v.backup refl) (rw v.backup refl) (rw v.backup refl) (rw v.backup refl)
        (rw v.backup refl) (rw v.backup refl)
  apply-IsWaiting (capacity z) s h v =
      same_wait v (apply-IsControl ops net (capacity z) s v.shape) refl refl refl refl refl refl
        refl
  apply-IsWaiting (hardness a b) s h v =
      same_wait v (apply-IsControl ops net (hardness a b) s v.shape) refl refl refl refl refl refl
        refl
  apply-IsWaiting (negative tg) s h v = v

  pub apply_all-IsWaiting :
      {t m : ℤ} {k : ℕ} (ms : List Msg) (s : Control F)
      → All IsCalm ms
      → IsWaiting t m k s
      → IsWaiting t m k (apply_all ops net ms s)
  unfolding apply_all
  apply_all-IsWaiting [] s h w = w
  apply_all-IsWaiting (x ∷ ms) s h w =
      apply_all-IsWaiting ms (apply ops net x s) h.1 (apply-IsWaiting x s h.0 w)

  -- Such messages make a backup send nothing.
  apply-trace :
      {t m : ℤ} {k : ℕ} (x : Msg) (s : Control F)
      → IsCalm x
      → IsWaiting t m k s
      → (apply ops net x s).trace ≡ s.trace
  unfolding apply share_out
  apply-trace (change n) s h v = absurd h
  apply-trace heartbeat s h v = absurd h
  apply-trace (positive tg) s h v = ground (arith, v.backup)
  apply-trace (tg_ack tg) s h v = rw v.backup refl
  apply-trace (ack n) s h v = rw v.backup refl
  apply-trace (incoming tg z) s h v = rw v.backup refl
  apply-trace (capacity z) s h v = refl
  apply-trace (hardness a b) s h v = refl
  apply-trace (negative tg) s h v = refl

  pub apply_all-trace :
      {t m : ℤ} {k : ℕ} (ms : List Msg) (s : Control F)
      → All IsCalm ms
      → IsWaiting t m k s
      → (apply_all ops net ms s).trace ≡ s.trace
  unfolding apply_all
  apply_all-trace [] s h w = refl
  apply_all-trace (x ∷ ms) s h w =
      apply_all-trace ms (apply ops net x s) h.1 (apply-IsWaiting x s h.0 w) ∙ apply-trace x s h.0 w

  -- Nor does the wait for votes.
  pub await_votes-calm :
      {t m : ℤ} {k : ℕ} (ps : List (ℤ × List Msg)) (s : Control F)
      → All (λ p. All IsCalm p.1) ps
      → IsWaiting t m k s
      → let s' = (await_votes ops net (polls_of ops net ps) s).1 in
        (eqb_ℤ s'.id s'.my_id ≡ false) × (s'.trace ≡ s.trace)
  unfolding await_votes
  await_votes-calm [] s h w = (w.backup, refl)
  await_votes-calm ((now, ms) ∷ ps) s (h, hs) w =
      let w' = apply_all-IsWaiting ms s h w in
      let kept = apply_all-trace ms s h w in
      let (rest, still) = await_votes-calm ps (apply_all ops net ms s) hs w' in
      let on : eqb_ℤ (apply_all ops net ms s).time_out (pos 2) ≡ false = rw w'.asking refl in
      elim (Bool-cases (in_time ops net (pos 3) now (apply_all ops net ms s))) [
        | inl waits ↦ rw (waits, on) (rest, still ∙ kept)
        | inr over ↦ rw over (w'.backup, kept)
      ]

  pub begun-IsWaiting :
      (s : Control F)
      → IsControl s
      → pos_part s.no_of_proxy ≤ length s.ip_array
      → IsWaiting net.now s.majority (pos_part s.no_of_proxy) (begun ops net s)
  begun-IsWaiting s c a = record {
    shape = begun-IsControl ops net s c;
    backup = ground (arith, c.unsigned);
    asking = refl;
    since = refl;
    enough = refl;
    tokens = refl;
    known = a;
  }
