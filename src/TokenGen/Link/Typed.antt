-- ===== src/TokenGen/Link/Typed.antt =====
-- The handlers of `readFromClient` of TokenGen/src/proxy1.c on whatever their reads return.
use web_q_final.Prelude.{
  ℕ, ◌<◌, ◌≡◌, ◌⊎◌, ◌∙◌, refl, arith, List, [], ◌∷◌, ◌++◌, Bool, true, ◌||◌, ◌==◌, Bool-cases, inl,
  inr, set, Option, none, some, get_elem?, get_elem?-eq-get_or, Option-cases, length-set, All,
  All-set,
}
use web_q_final.Prelude.Int.{ℤ, pos, negsuc, IsInt}
use web_q_final.Machine.{Outcome, done, exit, fault, nth, ◌>>=◌}
use web_q_final.Net.{Net, IsUp, stored}
use web_q_final.Text.{decimal}
use web_q_final.Wire.{Conn, read_int}
use web_q_final.Wire.Bytes.{IsConn, IsIntOption}
use web_q_final.TokenGen.Link.{
  Link, peers, vote_of, obey, accepts, take_share, read_or, on_capacity, on_share, on_hardness,
  on_incoming, on_takeover, on_controller,
}
use web_q_final.TokenGen.Link.Protocol.{IsLink}
use web_q_final.TokenGen.Link.Decode.{send_response-up, write_id-up}

-- Every variable has a value of its type, and the arrays have their sizes.
pub record IsTyped (l : Link) : Type 0 where
  pub shape : IsLink l
  pub ids : IsInt l.id × IsInt l.prev_id × IsInt l.local_id
  pub amounts : IsInt l.share × IsInt l.capacity × IsInt l.flag
  pub weights : All IsInt l.hardness
  pub rates : All IsInt l.incoming_peers

-- The characters that are followed by the number of a controller.
abbrev pub names_controller : ℕ → Bool
names_controller b = b == b'x' || b == b't'

-- The run ends with typed variables, or, only where `r` says so, by a fault.
abbrev pub IsRun : Bool → Outcome (Conn × Link) → Type 0
IsRun r (done (c, l)) = IsConn names_controller r c × IsTyped l
IsRun r (exit n) = ⊥
IsRun r fault = r ≡ true

module _ (net : Net) (up : IsUp net) (r : Bool) where
  pub capacity-IsRun :
      (c c' : Conn) (v : Option ℤ) (l : Link)
      → read_int c ≡ (v, c')
      → IsConn names_controller r c'
      → IsTyped l
      → IsRun r (on_capacity net c l)
  unfolding on_capacity
  capacity-IsRun c c' none l e n t = rw e (n, ground arith)
  capacity-IsRun c c' (some x) l e n t = rw e (n, ground arith)

  take_share-IsTyped : (sh : ℤ) (l : Link) → IsInt sh → IsTyped l → IsTyped (take_share net sh l)
  take_share-IsTyped sh l h t = ground arith

  pub share-IsRun :
      (c c' c'' : Conn) (v w : Option ℤ) (l : Link)
      → read_int c ≡ (v, c')
      → read_int c' ≡ (w, c'')
      → IsConn names_controller r c''
      → IsInt (read_or (net.junk 1) w)
      → IsTyped l
      → IsRun r (on_share net c l)
  unfolding on_share
  share-IsRun c c' c'' v w l e f n h t =
      elim (Bool-cases (accepts net (read_or (net.junk 0) v) l)) [
        | inl mine ↦ rw (e, f, mine) (n, take_share-IsTyped (read_or (net.junk 1) w) l h t)
        | inr other ↦ rw (e, f, other) (n, t)
      ]

  weight-IsTyped :
      (i : ℕ) (x : ℤ) (l : Link)
      → IsInt x
      → IsTyped l
      → IsTyped (record l { hardness = set l.hardness i x })
  weight-IsTyped i x l h t = record {
    shape = record {
      two = length-set l.hardness i x ∙ t.shape.two;
      five = t.shape.five;
      pair = t.shape.pair;
    };
    ids = t.ids;
    amounts = t.amounts;
    weights = All-set IsInt l.hardness i x t.weights h;
    rates = t.rates;
  }

  ones-IsTyped :
      (l : Link)
      → IsTyped l
      → IsTyped (record l { hardness = set (set l.hardness 0 (pos 1)) 1 (pos 1) })
  ones-IsTyped l t = weight-IsTyped 1 (pos 1) _ one (weight-IsTyped 0 (pos 1) l one t)
    where
      one : IsInt (pos 1)
      one = omega arith

  pub hardness-IsRun :
      (c c' c'' : Conn) (v w : Option ℤ) (l : Link)
      → read_int c ≡ (v, c')
      → read_int c' ≡ (w, c'')
      → IsConn names_controller r c''
      → IsIntOption v × IsIntOption w
      → IsTyped l
      → IsRun r (on_hardness net c l)
  unfolding on_hardness
  hardness-IsRun c c' c'' none none l e f n h t = rw (e, f) (n, ones-IsTyped l t)
  hardness-IsRun c c' c'' none (some y) l e f n h t =
      rw (e, f) (n, ones-IsTyped _ (weight-IsTyped 1 y l h.1 t))
  hardness-IsRun c c' c'' (some x) none l e f n h t =
      rw (e, f) (n, ones-IsTyped _ (weight-IsTyped 0 x l h.0 t))
  hardness-IsRun c c' c'' (some x) (some y) l e f n h t =
      rw (e, f) (n, ones-IsTyped _ (weight-IsTyped 1 y _ h.1 (weight-IsTyped 0 x l h.0 t)))

  pub incoming-IsRun :
      (c c' : Conn) (v : Option ℤ) (l : Link) (client : ℕ)
      → client < peers
      → read_int c ≡ (v, c')
      → IsConn names_controller r c'
      → IsIntOption v
      → IsTyped l
      → IsRun r (on_incoming net client c l)
  unfolding on_incoming
  incoming-IsRun c c' none l client few e n h t = rw e (n, t)
  incoming-IsRun c c' (some x) l client few e n h t = rw e (
      rw (get_elem?-eq-get_or l.incoming_peers client (pos 0) (omega (arith, t.shape.five)), ◌>>=◌)
        (
          n,
          record {
            shape = record {
              two = t.shape.two;
              five = length-set l.incoming_peers client x ∙ t.shape.five;
              pair = t.shape.pair;
            };
            ids = t.ids;
            amounts = t.amounts;
            weights = t.weights;
            rates = All-set IsInt l.incoming_peers client x t.rates h;
          },
        ))

  pub takeover-IsRun :
      (c c' : Conn) (v : Option ℤ) (l : Link)
      → r ≡ true
      → read_int c ≡ (v, c')
      → IsConn names_controller r c'
      → IsIntOption v
      → IsTyped l
      → IsRun r (on_takeover net c l)
  unfolding on_takeover
  takeover-IsRun c c' none l risky e n h t = rw e (n, t)
  takeover-IsRun c c' (some (negsuc i)) l risky e n h t = rw e risky
  takeover-IsRun c c' (some (pos i)) l risky e n h t =
      elim (Option-cases (get_elem? l.ip_controller i)) [
        | inl out ↦ rw e (rw (out, ◌>>=◌) risky)
        | inr (addr, here) ↦ rw e (
            rw (here, ◌>>=◌)
              (rw
                (
                  send_response-up net up addr (vote_of net l.id) (record l { local_id = pos i }),
                  ◌>>=◌,
                )
                (n, ground arith)))
      ]

  nth-cases :
      (xs : List (List ℕ)) (i : ℤ) (l : Link)
      → (nth xs i l ≡ fault) ⊎ ((x : List ℕ) × (nth xs i l ≡ done (x, l)))
  nth-cases xs (negsuc i) l = inl refl
  nth-cases xs (pos i) l = elim (Option-cases (get_elem? xs i)) [
    | inl out ↦ inl (rw (out, nth))
    | inr (x, here) ↦ inr (x, rw (here, nth))
  ]

  obey-IsTyped :
      (v : Option ℤ) (l : Link)
      → IsIntOption v
      → IsTyped l
      → (l' : Link) × (obey net v l ≡ done (tt, l')) × IsTyped l'
  obey-IsTyped none l h t = (l, refl, t)
  obey-IsTyped (some x) l h t =
      let named = record l { id = x } in
      (
        record named { start_time = net.now; trace = l.trace ++ (stored (decimal x) ∷ []) },
        rw (write_id-up net up named, ◌>>=◌) refl,
        ground arith,
      )

  pub controller-IsRun :
      (c c' : Conn) (v : Option ℤ) (l : Link)
      → r ≡ true
      → read_int c ≡ (v, c')
      → IsConn names_controller r c'
      → IsIntOption v
      → IsTyped l
      → IsRun r (on_controller net c l)
  unfolding on_controller
  controller-IsRun c c' v l risky e n h t =
      let (l', obeyed, t') = obey-IsTyped v l h t in
      rw e (
        rw (obeyed, ◌>>=◌)
          (elim (nth-cases l'.ip_controller l'.id (record l' { flag = pos 1 })) [
            | inl out ↦ rw (out, ◌>>=◌) risky
            | inr (addr, here) ↦
                rw (here, ◌>>=◌)
                  (rw (send_response-up net up addr b'y' (record l' { flag = pos 1 }), ◌>>=◌)
                    (n, ground arith))
          ]))
