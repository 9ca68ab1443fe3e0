-- ===== src/Controller/Election/Beats.antt =====
-- `readFromClient` of Controller/src/proxy1.c at a backup: heartbeats and the start of its wait.
use web_q_final.Prelude.{
  ◌≡◌, ◌∙◌, refl, arith, List, [], ◌∷◌, Bool, true, false, ◌||◌, if◌then◌else◌, get_or, All,
  Bool-cases, inl, inr,
}
use web_q_final.Prelude.Int.{ℤ, pos, eqb_ℤ, ltb_ℤ, ◌-ℤ◌}
use web_q_final.Floats.{FloatOps}
use web_q_final.Net.{Net}
use web_q_final.Controller.{Control, share_out}
use web_q_final.Controller.Inbox.Protocol.{
  Msg, capacity, hardness, heartbeat, positive, negative, change, tg_ack, ack, incoming, IsMsg,
  IsControl, apply, apply_all,
}
use web_q_final.Controller.Inbox.Keep.{apply-IsControl}
use web_q_final.Controller.Election.Handover.{IsQuiet}

abbrev pub is_beat : Msg → Bool
is_beat heartbeat = true
is_beat _ = false

abbrev pub beaten : List Msg → Bool
beaten [] = false
beaten (m ∷ ms) = is_beat m || beaten ms

-- The clock at a test of `timer_fn`, and the messages read since the last one, with the clock then.
pub record Beat : Type 0 where
  pub now : ℤ
  pub read_at : ℤ
  pub read : List Msg

-- A heartbeat among the messages, read less than four seconds before; nobody takes over.
abbrev pub IsBeat : Beat → Type 0
IsBeat b =
    (beaten b.read ≡ true)
    × All IsMsg b.read
    × All IsQuiet b.read
    × (ltb_ℤ (b.now -ℤ b.read_at) (pos 4) ≡ true)

-- Messages without a heartbeat, where nobody takes over.
abbrev pub IsSilent : Beat → Type 0
IsSilent b = (beaten b.read ≡ false) × All IsMsg b.read × All IsQuiet b.read

-- When the last heartbeat was read, or the wait began.
abbrev pub last_beat : ℤ → List Beat → ℤ
last_beat t [] = t
last_beat t (b ∷ bs) = last_beat b.read_at bs

-- The same answers at another time.
abbrev pub at : Net → ℤ → Net
at net t = record net { now = t }

module _ {F : Type 0} where
  -- A backup that holds no election.
  pub record IsBackup (s : Control F) : Type 0 where
    pub shape : IsControl s
    pub backup : eqb_ℤ s.id s.my_id ≡ false
    pub calm : eqb_ℤ s.time_out (pos 1) ≡ false

  -- The controller that it is under, and its election, are as they were; a heartbeat that is read at
  -- `t` starts the wait anew.
  pub record Same (t : ℤ) (beat : Bool) (s u : Control F) : Type 0 where
    pub id : u.id ≡ s.id
    my_id : u.my_id ≡ s.my_id
    time_out : u.time_out ≡ s.time_out
    pub start_time : u.start_time ≡ (if beat then t else s.start_time)

  Same-IsBackup :
      {t : ℤ} {beat : Bool} {s u : Control F}
      → IsBackup s
      → IsControl u
      → Same t beat s u
      → IsBackup u
  Same-IsBackup b c e = record {
    shape = c;
    backup = rw (e.id, e.my_id) b.backup;
    calm = rw e.time_out b.calm;
  }

  Same-chain :
      {t : ℤ} (x y : Bool) {s u v : Control F} → Same t x s u → Same t y u v → Same t (x || y) s v
  Same-chain x y e d = record {
    id = d.id ∙ e.id;
    my_id = d.my_id ∙ e.my_id;
    time_out = d.time_out ∙ e.time_out;
    start_time = ground (arith, d.start_time, e.start_time);
  }

module _ {F : Type 0} (ops : FloatOps F) (net : Net) where
  apply-Same :
      (t : ℤ) (m : Msg) (s : Control F)
      → IsQuiet m
      → IsBackup s
      → Same t (is_beat m) s (apply ops (at net t) m s)
  unfolding apply share_out
  apply-Same t (change n) s q b = absurd q
  apply-Same t heartbeat s q b =
      rw (b.backup, b.calm) (record { id = refl; my_id = refl; time_out = refl; start_time = refl })
  apply-Same t (capacity z) s q b = record {
    id = refl;
    my_id = refl;
    time_out = refl;
    start_time = refl;
  }
  apply-Same t (hardness x y) s q b = record {
    id = refl;
    my_id = refl;
    time_out = refl;
    start_time = refl;
  }
  apply-Same t (negative tg) s q b = record {
    id = refl;
    my_id = refl;
    time_out = refl;
    start_time = refl;
  }
  apply-Same t (positive tg) s q b =
      rw b.backup (elim (Bool-cases (eqb_ℤ (get_or s.votes tg (pos 0)) (pos 0))) [
        | inl free ↦
            rw free (record { id = refl; my_id = refl; time_out = refl; start_time = refl })
        | inr taken ↦
            rw taken (record { id = refl; my_id = refl; time_out = refl; start_time = refl })
      ])
  apply-Same t (tg_ack tg) s q b =
      rw b.backup (record { id = refl; my_id = refl; time_out = refl; start_time = refl })
  apply-Same t (ack n) s q b =
      rw b.backup (record { id = refl; my_id = refl; time_out = refl; start_time = refl })
  apply-Same t (incoming tg z) s q b =
      rw b.backup (record { id = refl; my_id = refl; time_out = refl; start_time = refl })

  pub apply_all-Same :
      (t : ℤ) (ms : List Msg) (s : Control F)
      → All IsQuiet ms
      → IsBackup s
      → Same t (beaten ms) s (apply_all ops (at net t) ms s)
        × IsBackup (apply_all ops (at net t) ms s)
  unfolding apply_all
  apply_all-Same t [] s q b =
      (record { id = refl; my_id = refl; time_out = refl; start_time = refl }, b)
  apply_all-Same t (m ∷ ms) s (q, qs) b =
      let one = apply-Same t m s q b in
      let b' = Same-IsBackup b (apply-IsControl ops (at net t) m s b.shape) one in
      let (rest, b'') = apply_all-Same t ms (apply ops (at net t) m s) qs b' in
      (Same-chain (is_beat m) (beaten ms) one rest, b'')
