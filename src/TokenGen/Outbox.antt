-- ===== src/TokenGen/Outbox.antt =====
-- TokenGen/src/proxy1.c: the thread that reports the incoming requests to the controller.
pub mod Report
use web_q_final.Prelude.{ℕ, ◌+◌, List, [], ◌∷◌, ◌++◌, Bool, true, false, not, if◌then◌else◌}
use web_q_final.Prelude.Int.{ℤ, pos, negsuc, eqb_ℤ, int32, ◌+ℤ◌}
use web_q_final.Cells.{set_value}
use web_q_final.Machine.{Outcome, done, exit, fault, nth}
use web_q_final.Net.{Net, Effect, sent}
use web_q_final.Wire.{bytes_of_int}
use web_q_final.TokenGen.Link.{Link, no_id}

-- The variables that the loop reads and changes.
pub record Outbox : Type 0 where
  pub flag : ℤ
  pub my_id : ℤ
  pub incoming : ℤ
  pub numbytes : ℤ

module _ (net : Net) where
  -- Write `k`: the bytes that go out, and whether the loop ends. It does where the write fails while
  -- `flag` is set, by a change of controller.
  unfoldable pub put : ℕ → List ℕ → Outbox → List ℕ × Bool × Outbox
  put k part o =
      if net.write_ok k
      then (part, false, o)
      else if eqb_ℤ o.flag (pos 1)
      then ([], true, record o { flag = set_value o.flag (pos 0) })
      else ([], false, o)

  -- `write` returns -1 where it fails.
  abbrev written : ℕ → ℤ
  written k = if net.write_ok k then pos 4 else negsuc 0

  -- One turn of the loop of `writeToServer`, from write `k` on; the second part says whether it ends.
  unfoldable pub report : ℕ → Outbox → List ℕ × Bool × Outbox
  unfolding put
  report k o =
      let (a, stop_a, o₁) = put k (b'i' ∷ []) o in
      if stop_a
      then (a, true, o₁)
      else (let (b, stop_b, o₂) = put (k + 1) (bytes_of_int o₁.my_id) o₁ in
          if stop_b
          then (a ++ b, true, o₂)
          else (let (c, stop_c, o₃) = put (k + 2) (bytes_of_int o₂.incoming) o₂ in
              if stop_c then (a ++ (b ++ c), true, o₃) else (
                a ++ (b ++ c),
                false,
                record o₃ { numbytes = int32 (o₃.numbytes +ℤ written (k + 2)) },
              )))

  -- The loop: before each turn, the other threads do `meanwhile`. The second part says whether it has
  -- ended.
  unfoldable pub reports : ℕ → List (Outbox → Outbox) → Outbox → List ℕ × Bool × Outbox
  unfolding report
  reports k [] o = ([], false, o)
  reports k (meanwhile ∷ later) o =
      let (bytes, stop, o') = report k (meanwhile o) in
      let (more, stop', o'') = reports (k + 3) later o' in
      if stop then (bytes, true, o') else (bytes ++ more, stop', o'')

  abbrev connection : List ℕ → ℤ → List (Outbox → Outbox) → Outbox → Outcome (List Effect × Outbox)
  connection addr port later o =
      if not net.socket_ok
      then exit 1
      else if not (net.valid_ip addr)
      then exit 1
      else if net.connect_ok addr
      then (let (bytes, _, o') = reports 0 later o in done (sent addr port bytes ∷ [], o'))
      else done ([], o)

  abbrev to_address :
      ℤ → List (Outbox → Outbox) → Outbox → Outcome (List ℕ × Link) → Outcome (List Effect × Outbox)
  to_address port later o (done (addr, _)) = connection addr port later o
  to_address port later o (exit n) = exit n
  to_address port later o fault = fault

  -- `writeToServer`: to the controller in charge, or to the last one.
  unfoldable pub write_to_server :
      Link → List (Outbox → Outbox) → Outbox → Outcome (List Effect × Outbox)
  unfolding reports
  write_to_server l later o =
      to_address l.port later o
        (nth l.ip_controller (if eqb_ℤ l.id no_id then l.prev_id else l.id) l)
