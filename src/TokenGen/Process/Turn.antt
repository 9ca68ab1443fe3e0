-- ===== src/TokenGen/Process/Turn.antt =====
-- A turn of the loop of `main` of TokenGen/src/proxy1.c on the variables of all threads.
use web_q_final.Prelude.{
  ℕ, ◌+◌, ◌≤◌, ◌<◌, ◌^◌, ◌≡◌, refl, arith, List, [], ◌∷◌, ltb, ltb→lt, ◌==◌, if◌then◌else◌,
  Bool-cases, inl, inr, get_or, map,
}
use web_q_final.Prelude.Int.{ℤ, pos, pos_part, int32, ◌+ℤ◌, eqb_ℤ}
use web_q_final.Cells.{change_values, change_float_values}
use web_q_final.Floats.{FloatOps}
use web_q_final.Machine.{done}
use web_q_final.Net.{Net}
use web_q_final.TokenGen.Book.{admit}
use web_q_final.TokenGen.Book.Room.{Desk, serve, Tally, serve-Tally}
use web_q_final.TokenGen.Link.{Link}
use web_q_final.TokenGen.Reply.{Hmac, Request, arrive, serve_request, kind_of}
use web_q_final.TokenGen.Process.Granted.{IsGranted}
use web_q_final.TokenGen.Reply.Hash.{IsHmac}
use web_q_final.TokenGen.Reply.Serve.{Answerable, redirect-goal}
use web_q_final.TokenGen.Process.{Process, front, request, act}

module _ {F : Type 0} where
  abbrev pub desk : Process F → Desk
  desk p = record { book = p.book; share = pos_part p.link.share; clock = p.clock; due = p.due }

  pub record IsSafe (lim m : ℕ) (p : Process F) : Type 0 where
    pub tally : Tally lim m (desk p)
    pub granted : IsGranted m p.link

-- A share of 0 becomes 1 when a request comes.
abbrev raised : ℕ → ℕ
raised s = if s == 0 then 1 else s

raised_lem :
    (z : ℤ)
    → z ≡ pos (pos_part z)
    → (if eqb_ℤ z (pos 0) then pos 1 else z) ≡ pos (raised (pos_part z))
raised_lem z e = ground (arith, e)

weight_one :
    (hs : List ℤ) (q : List ℕ) → hs ≡ pos 1 ∷ pos 1 ∷ [] → get_or hs (kind_of q) (pos 0) ≡ pos 1
unfolding kind_of
weight_one hs q e = rw e (ground arith)

module _ {F : Type 0} (ops : FloatOps F) (hmac : Hmac) (check : List ℕ) (lim : ℕ) (net : Net)
    (sound : IsHmac hmac) (few : lim ≤ 1000)
    (exact : (n : ℕ) → n < lim → ops.trunc (ops.of_int (pos n)) ≡ pos n) where
  -- The state after the search, before the client is told.
  abbrev booked : ℕ → Process F → Process F
  booked s p = record p {
    link = record p.link { share = pos s };
    book = (admit lim (pos s) (pos 1) p.book).1;
    incoming = change_values p.incoming (pos 1);
    total_in = int32 (p.total_in +ℤ pos 1);
    peer_incoming_rate = map ops.of_int p.link.incoming_peers;
  }

  raised-Tally :
      (m : ℕ) (p : Process F)
      → 1 ≤ m
      → Tally lim m (desk p)
      → Tally lim m (record (desk p) { share = raised (pos_part p.link.share) })
  raised-Tally m p some v = record {
    tally = v.tally;
    share_in = ground (arith, v.share_in);
    soon = v.soon;
    no_overload = v.no_overload;
  }

  IsGranted-share :
      (m s : ℕ) (l : Link) → s ≤ m → IsGranted m l → IsGranted m (record l { share = pos s })
  IsGranted-share m s l h v = record {
    shape = record { two = v.shape.two; five = v.shape.five; pair = v.shape.pair };
    counted = refl;
    most = h;
    weights = v.weights;
  }

  pub request-IsSafe :
      (m : ℕ) (r : Request) (p : Process F)
      → 1 ≤ m
      → m < 2 ^ 31
      → Answerable check r
      → IsSafe lim m p
      → (q : Process F) × (act ops hmac check lim net (request r) p ≡ done q) × IsSafe lim m q
  unfolding act serve_request arrive serve
  request-IsSafe m r p some fits h v = elim (Bool-cases (ltb w lim)) [
    | inl room ↦ (
      record (booked s p) {
        total_waiting_time =
            change_float_values ops p.total_waiting_time (ops.of_int (pos w)) (ops.of_int (pos 0));
        due = (p.clock + w) ∷ p.due;
      },
      rw
          (
            raised_lem p.link.share v.granted.counted,
            weight_one p.link.hardness r.query_string v.granted.weights,
            room,
            h.2,
            redirect-goal ops hmac check lim sound few exact r w (front (booked s p)) h
                (ltb→lt w lim room),
          )
          refl,
      record { tally = rw room at served; granted = IsGranted-share m s p.link s_in v.granted },
    )
    | inr full ↦ (
      booked s p,
      rw
          (
            raised_lem p.link.share v.granted.counted,
            weight_one p.link.hardness r.query_string v.granted.weights,
            full,
          )
          refl,
      record { tally = rw full at served; granted = IsGranted-share m s p.link s_in v.granted },
    )
  ]
    where
      s : ℕ
      s = raised (pos_part p.link.share)

      w : ℕ
      w = (admit lim (pos s) (pos 1) p.book).0

      s_in : s ≤ m
      s_in = ground (arith, v.granted.most)

      served : Tally lim m (serve lim (record (desk p) { share = s }))
      served = serve-Tally lim fits (raised-Tally m p some v.tally)
