-- ===== src/TokenGen/Reply/Serve.antt =====
-- The answer to a request, against the line of expected visitors.
use web_q_final.Prelude.{
  ℕ, ◌<◌, ◌≤◌, ◌≡◌, ◌^◌, refl, arith, List, true, false, ltb, ltb→lt, if◌then◌else◌, length, get_or,
  Bool-cases, inl, inr,
}
use web_q_final.Prelude.Int.{pos, eqb_ℤ}
use web_q_final.Cells.{change_float_values}
use web_q_final.Floats.{FloatOps}
use web_q_final.Machine.{done}
use web_q_final.TokenGen.Book.{admit}
use web_q_final.TokenGen.Book.Line.{Line, IsBook, first_room, join_at}
use web_q_final.TokenGen.Book.Search.{admit_refines}
use web_q_final.TokenGen.Reply.{
  Hmac, Front, Request, refresh, busy, kind_of, token_text, target_text, hex, request_limit,
  url_to_visit, target, redirect, arrive, serve_request,
}
use web_q_final.TokenGen.Reply.Hash.{IsHmac, get_hash-fits, get_token-fits}

-- A query with an `=`, whose URL fits its array, from an address of at most 15 characters, at a time
-- below 10 ^ 10.
abbrev pub Answerable : List ℕ → Request → Type 0
Answerable check r =
    (wanted : List ℕ) × (now : ℕ) × (request_limit r.query_string ≡ done wanted)
    × (length (url_to_visit check r.query_string wanted) < 100)
    × (length r.remote_addr ≤ 15)
    × (r.now ≡ pos now)
    × (now < 10 ^ 10)

-- Where a client that is to wait so long is sent.
abbrev pub goal : Hmac → List ℕ → Request → List ℕ → ℕ → List ℕ
goal hmac check r wanted w =
    let token = token_text r.remote_addr r.now (pos w) in
    target_text (url_to_visit check r.query_string wanted) (hex (hmac.code token)) token

module _ {F : Type 0} (ops : FloatOps F) (hmac : Hmac) (check : List ℕ) (lim : ℕ)
    (sound : IsHmac hmac) (few : lim ≤ 1000)
    (exact : (n : ℕ) → n < lim → ops.trunc (ops.of_int (pos n)) ≡ pos n) where
  pub redirect-goal :
      (r : Request) (w : ℕ) (f : Front F) (h : Answerable check r)
      → w < lim
      → redirect ops hmac check lim r w h.0 f
        ≡ done (
          refresh (pos w) (goal hmac check r h.0 w),
          record f {
            total_waiting_time =
                change_float_values ops f.total_waiting_time
                  (ops.of_int (pos w))
                  (ops.of_int (pos 0));
          },
        )
  unfolding redirect target
  redirect-goal r w f (wanted, now, asked, short, near, at_time, early) h =
      let in_url : ltb (length (url_to_visit check r.query_string wanted)) 100 ≡ true =
        ground (arith, short) in
      rw
        (
          in_url,
          exact w h,
          at_time,
          get_token-fits r.remote_addr now w near early (omega arith),
          get_hash-fits hmac (token_text r.remote_addr (pos now) (pos w)) sound,
        )
        (rw (exact w h) refl)

  -- The code of a token has 16 bytes, with one spare byte behind its array, LIMIT is at most 1000, and
  -- the waits below LIMIT are exact as floating-point numbers. On a table of counts, with a share above
  -- 0, hardness 1 for the request's kind, a query whose part after the first `=` is `wanted` and makes a
  -- URL of fewer than 100 characters, an address of at most 15 characters, and a time below 10 ^ 10:
  -- where some second has fewer requests than the share, the client is told to come back after the
  -- first such second, with the token for it, and one request more is booked there; where none has, the
  -- client is told that all is taken, and nothing is booked.
  pub serve_request_refines :
      (r : Request) (f : Front F) (line : Line) (s : ℕ) (h : Answerable check r)
      → IsBook lim f.book line
      → f.share ≡ pos s
      → 0 < s
      → s < 2 ^ 31
      → get_or f.hardness (kind_of r.query_string) (pos 0) ≡ pos 1
      → let w = first_room s line lim 0 in
        (f' : Front F) × (serve_request ops hmac check lim r f
          ≡ done (if ltb w lim then refresh (pos w) (goal hmac check r h.0 w) else busy, f'))
        × IsBook lim f'.book (if ltb w lim then join_at w line else line)
  unfolding serve_request arrive
  serve_request_refines r f line s h v sh some_share small hard = elim (Bool-cases (ltb w lim)) [
    | inl room ↦ (
      record booked {
        total_waiting_time =
            change_float_values ops f.total_waiting_time (ops.of_int (pos w)) (ops.of_int (pos 0));
      },
      rw
          (
            sh,
            nonzero s some_share,
            hard,
            found.0,
            room,
            h.2,
            redirect-goal r w booked h (ltb→lt w lim room),
          )
          refl,
      found.1,
    )
    | inr full ↦ (booked, rw (sh, nonzero s some_share, hard, found.0, full) refl, found.1)
  ]
    where
      w : ℕ
      w = first_room s line lim 0

      found :
          ((admit lim (pos s) (pos 1) f.book).0 ≡ w)
          × IsBook lim
              (admit lim (pos s) (pos 1) f.book).1
              (if ltb w lim then join_at w line else line)
      found = admit_refines v s small

      booked : Front F
      booked = record (arrive ops hmac check lim f) {
        share = pos s;
        book = (admit lim (pos s) (pos 1) f.book).1;
      }

      nonzero : (s : ℕ) → 0 < s → eqb_ℤ (pos s) (pos 0) ≡ false
      nonzero s h = ground arith
