-- ===== src/TokenGen/Process/Granted.antt =====
-- The share of `readFromClient` and `timer_fn` of TokenGen/src/proxy1.c, and what the controllers grant.
use web_q_final.Prelude.{
  ℕ, ◌≤◌, ◌≡◌, ◌∙◌, ap, sym, refl, arith, List, [], ◌∷◌, All, Bool-cases, inl, inr,
}
use web_q_final.Prelude.Int.{ℤ, pos, pos_part, ltb_ℤ, ◌-ℤ◌}
use web_q_final.Net.{Net, Effect, IsUp}
use web_q_final.TokenGen.Link.{Link}
use web_q_final.TokenGen.Link.Protocol.{
  Msg, share, capacity, hardness, incoming, takeover, controller, IsLink, apply, apply_all,
}
use web_q_final.TokenGen.Link.Decode.{apply-IsLink}
use web_q_final.TokenGen.Watch.{Poll, timeout, polled}

-- A message grants no share above `m`.
abbrev pub AtMost : ℕ → Msg → Type 0
AtMost m (share c sh) = (sh ≡ pos (pos_part sh)) × pos_part sh ≤ m
AtMost m _ = Unit {0}

-- The share is a count up to `m`, the requests weigh 1, and the arrays have their sizes.
pub record IsGranted (m : ℕ) (l : Link) : Type 0 where
  pub shape : IsLink l
  pub counted : l.share ≡ pos (pos_part l.share)
  pub most : pos_part l.share ≤ m
  pub weights : l.hardness ≡ pos 1 ∷ pos 1 ∷ []

-- That the share and the weights stay is enough.
same_grant :
    {m : ℕ} {l t : Link}
    → IsGranted m l
    → IsLink t
    → t.share ≡ l.share
    → t.hardness ≡ l.hardness
    → IsGranted m t
same_grant v shape s h = record {
  shape = shape;
  counted = s ∙ v.counted ∙ ap (λ z. pos (pos_part z)) (sym s);
  most = omega (arith, ap pos_part s, v.most);
  weights = h ∙ v.weights;
}

apply-IsGranted :
    (net : Net) (up : IsUp net) (client m : ℕ) (x : Msg) (l : Link)
    → AtMost m x
    → IsGranted m l
    → IsGranted m (apply net client x l)
unfolding apply
apply-IsGranted net up client m (share c sh) l h v = record {
  shape = apply-IsLink net up client (share c sh) l v.shape;
  counted = ground (arith, v.counted);
  most = ground (arith, v.most);
  weights = ground arith;
}
apply-IsGranted net up client m (hardness a b) l h v =
    same_grant v (apply-IsLink net up client (hardness a b) l v.shape) refl (sym v.weights)
apply-IsGranted net up client m (capacity z) l h v =
    same_grant v (apply-IsLink net up client (capacity z) l v.shape) refl refl
apply-IsGranted net up client m (incoming x) l h v =
    same_grant v (apply-IsLink net up client (incoming x) l v.shape) refl refl
apply-IsGranted net up client m (takeover n) l h v =
    same_grant v (apply-IsLink net up client (takeover n) l v.shape) refl refl
apply-IsGranted net up client m (controller n) l h v =
    same_grant v (apply-IsLink net up client (controller n) l v.shape) refl refl

pub apply_all-IsGranted :
    (net : Net) (up : IsUp net) (client m : ℕ) (ms : List Msg) (l : Link)
    → All (AtMost m) ms
    → IsGranted m l
    → IsGranted m (apply_all net client ms l)
unfolding apply_all
apply_all-IsGranted net up client m [] l h v = v
apply_all-IsGranted net up client m (x ∷ ms) l h v =
    apply_all-IsGranted net up client m ms (apply net client x l) h.1
      (apply-IsGranted net up client m x l h.0 v)

pub polled-IsGranted :
    (m : ℕ) (p : Poll) (l : Link) → IsGranted m (p.meanwhile l) → IsGranted m (polled p l)
unfolding polled timeout
polled-IsGranted m p l v = elim (Bool-cases (ltb_ℤ (p.now -ℤ (p.meanwhile l).start_time) (pos 3))) [
  | inl waits ↦ rw waits v
  | inr over ↦ rw over (
      same_grant v (record { two = v.shape.two; five = v.shape.five; pair = v.shape.pair }) refl
        refl)
]

-- `writeToServer` changes no more than this.
pub outbox-IsGranted :
    (m : ℕ) (flag : ℤ) (trace : List Effect) (l : Link)
    → IsGranted m l
    → IsGranted m (record l { flag = flag; trace = trace })
outbox-IsGranted m flag trace l v =
    same_grant v (record { two = v.shape.two; five = v.shape.five; pair = v.shape.pair }) refl refl
