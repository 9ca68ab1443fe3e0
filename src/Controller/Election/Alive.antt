-- ===== src/Controller/Election/Alive.antt =====
-- `timer_fn` of Controller/src/proxy1.c, with the heartbeats that a backup reads.
use web_q_final.Prelude.{
  ◌≡◌, ◌∙◌, refl, List, [], ◌∷◌, ◌++◌, true, false, if◌then◌else◌, All, Bool-cases, inl, inr,
}
use web_q_final.Prelude.Int.{ℤ, pos, ltb_ℤ, ◌-ℤ◌}
use web_q_final.Floats.{FloatOps}
use web_q_final.Machine.{done, ◌>>=◌}
use web_q_final.Net.{Net, IsUp}
use web_q_final.Controller.{Control}
use web_q_final.Controller.Inbox.Protocol.{apply_all}
use web_q_final.Controller.Election.{
  Poll, pending, expired, await_silence, timer_fn, timeout, in_time,
}
use web_q_final.Controller.Election.Heard.{received, received-apply}
use web_q_final.Controller.Election.Beats.{
  Beat, IsBeat, IsSilent, last_beat, IsBackup, at, apply_all-Same,
}

module _ {F : Type 0} (ops : FloatOps F) (net : Net) where
  -- What the backup does between two tests of `timer_fn`.
  abbrev pub beats : List Beat → List (Poll F)
  beats [] = []
  beats (b ∷ bs) =
      record { now = b.now; meanwhile = received ops (at net b.read_at) b.read } ∷ beats bs

  -- The last poll finds no heartbeat; it ends the wait if it comes too late.
  await_silence-last :
      (up : IsUp net) (t : ℤ) (bs : List Beat) (x : Beat) (s : Control F)
      → All IsBeat bs
      → IsSilent x
      → IsBackup s
      → s.start_time ≡ t
      → (u : Control F) × (await_silence ops net (beats (bs ++ (x ∷ []))) s
          ≡ (if ltb_ℤ (x.now -ℤ last_beat t bs) (pos 4) then pending else expired, u))
        × (u.id ≡ s.id)
        × IsBackup u
  unfolding await_silence
  await_silence-last up t [] x s h (none_there, ms, q) b since =
      let u = apply_all ops (at net x.read_at) x.read s in
      let (e, b') = apply_all-Same ops net x.read_at x.read s q b in
      let stale : u.start_time ≡ t = e.start_time ∙ (rw none_there since) in
      (
        u,
        rw (received-apply ops (at net x.read_at) up x.read s ms b.shape)
            (elim (Bool-cases (ltb_ℤ (x.now -ℤ t) (pos 4))) [
              | inl soon ↦
                  (let waits : in_time ops net (pos 4) x.now u ≡ true = rw stale soon in
                    rw (waits, soon) refl)
              | inr late ↦
                  (let over : in_time ops net (pos 4) x.now u ≡ false = rw stale late in
                    rw (over, late) refl)
            ]),
        e.id,
        b',
      )
  await_silence-last up t (y ∷ ys) x s ((beat, ms, q, soon), h) silent b since =
      let u = apply_all ops (at net y.read_at) y.read s in
      let (e, b') = apply_all-Same ops net y.read_at y.read s q b in
      let fresh : u.start_time ≡ y.read_at = e.start_time ∙ rw beat refl in
      let (v, w, i, b'') = await_silence-last up y.read_at ys x u h silent b' fresh in
      let waits : in_time ops net (pos 4) y.now u ≡ true = rw fresh soon in
      (v, rw (received-apply ops (at net y.read_at) up y.read s ms b.shape, waits) w, i ∙ e.id, b'')

  -- With every system call successful, at a backup in shape that holds no election: before each test
  -- of `timer_fn` but the last it reads messages with a heartbeat among them, less than four seconds
  -- before the test, and before the last test messages without one, all with numbers in range and no
  -- takeover among them. Then `timer_fn` still waits where the last test comes less than four seconds
  -- after the last heartbeat, or after its start if there was none, and goes on as `timeout` where it
  -- comes later; up to there the backup is under the controller that it was under, and holds no
  -- election.
  pub timer_fn-beats :
      (up : IsUp net) (bs : List Beat) (x : Beat) (polls : List (Poll F))
      (rounds : List (Control F → Control F)) (s : Control F)
      → All IsBeat bs
      → IsSilent x
      → IsBackup s
      → (u : Control F) × (timer_fn ops net (beats (bs ++ (x ∷ []))) polls rounds s ≡ (
          if ltb_ℤ (x.now -ℤ last_beat net.now bs) (pos 4)
          then done (pending, u)
          else timeout ops net polls rounds u))
        × (u.id ≡ s.id)
        × IsBackup u
  unfolding timer_fn
  timer_fn-beats up bs x polls rounds s h silent b =
      let started : IsBackup (record s { start_time = net.now }) = record {
        shape = record {
          mine = b.shape.mine;
          unsigned = b.shape.unsigned;
          few = b.shape.few;
          hard = b.shape.hard;
          socs = b.shape.socs;
          ballots = b.shape.ballots;
          flags = b.shape.flags;
          rates = b.shape.rates;
          pair = b.shape.pair;
        };
        backup = b.backup;
        calm = b.calm;
      } in
      let (u, w, i, b') = await_silence-last up net.now bs x _ h silent started refl in
      (
        u,
        rw (w, ◌>>=◌)
            (elim (Bool-cases (ltb_ℤ (x.now -ℤ last_beat net.now bs) (pos 4))) [
              | inl soon ↦ rw soon refl
              | inr late ↦ rw late refl
            ]),
        i,
        b',
      )
