-- ===== src/Exchange/Answers.antt =====
-- `sendResponse` of TokenGen/src/proxy1.c, and the messages of a controller.
use mathlib.Core.List.{append-nil, append_assoc}
use web_q_final.Prelude.{
  ℕ, suc, ◌<◌, ◌≡◌, ◌∙◌, ◌≤◌, sym, ap, refl, arith, List, [], ◌∷◌, ◌++◌, drop, length, get_or,
  Bool-cases, inl, inr, if◌then◌else◌,
}
use web_q_final.Prelude.Int.{pos, eqb_ℤ, pos_part}
use web_q_final.Floats.{FloatOps}
use web_q_final.Machine.{done}
use web_q_final.Net.{Net, Effect, sent, session, IsUp}
use web_q_final.Wire.{bytes_of_int}
use web_q_final.TokenGen.Link.{Link, no_id}
use web_q_final.TokenGen.Link.Protocol.{takeover, controller, IsLink}
use web_q_final.TokenGen.Link.Protocol.{
  Msg as Request, IsMsg as IsRequest, encode as encode_request, apply as apply_request,
  apply_all as apply_all_requests,
}
use web_q_final.TokenGen.Link.Decode.{read_from_client-decode}
use web_q_final.Controller.{Control}
use web_q_final.Controller.Duty.{change_controller}
use web_q_final.Controller.Inbox.Protocol.{Msg, positive, negative, tg_ack, encode}
use web_q_final.Controller.Election.Takeover.{tell_one}
use web_q_final.Exchange.{final, informed, answer, question, news}

drop-trace : (es fs : List Effect) → drop (length es) (es ++ fs) ≡ fs
drop-trace [] fs = refl
drop-trace (e ∷ es) fs = drop-trace es fs

-- The answer of TokenGen `tg`.
abbrev pub vote : ℕ → Link → Msg
vote tg l = if eqb_ℤ l.id no_id then positive tg else negative tg

module _ {F : Type 0} (ops : FloatOps F) (net : Net) (up : IsUp net) where
  change_controller-up :
      (addr : List ℕ) (s : Control F)
      → change_controller ops net addr s
        ≡ done (
          tt,
          record s { trace = s.trace ++ (sent addr s.port (b'x' ∷ bytes_of_int s.my_id) ∷ []) },
        )
  unfolding change_controller session bytes_of_int
  change_controller-up addr s = rw (up.0, up.1 addr, up.2 addr, up.3 0, up.3 1) refl

  pub question-takeover :
      (tg : ℕ) (s : Control F)
      → s.my_id ≡ pos (pos_part s.my_id)
      → question ops net tg s ≡ encode_request (takeover (pos_part s.my_id))
  question-takeover tg s e =
      rw (change_controller-up (get_or s.ip_array tg []) s, drop-trace, append-nil)
        (ap (λ z. b'x' ∷ bytes_of_int z) e)

  pub news-controller :
      (tg : ℕ) (s : Control F)
      → suc tg ≤ length s.flag_tg
      → suc tg ≤ length s.ip_array
      → s.my_id ≡ pos (pos_part s.my_id)
      → news ops net tg s ≡ encode_request (controller (pos_part s.my_id))
  news-controller tg s h a e =
      rw (tell_one ops net up tg s h a, drop-trace, append-nil) (ap (λ z. b't' ∷ bytes_of_int z) e)

module _ (net : Net) (up : IsUp net) where
  pub informed-apply :
      (m : Request) (l : Link)
      → IsRequest m
      → IsLink l
      → informed net (encode_request m) l ≡ apply_request net 0 m l
  informed-apply m l h v =
      ap (λ b. informed net b l) (sym (append-nil (encode_request m)))
      ∙ ap (final l)
          (read_from_client-decode net up 2 0 (m ∷ []) l (omega arith) (h, tt) v (omega arith))
      ∙ (unfold apply_all_requests in refl)

  pub answer-vote :
      (n tg : ℕ) (l : Link)
      → n < 2
      → IsLink l
      → l.my_id ≡ pos tg
      → answer net (encode_request (takeover n)) l ≡ encode (vote tg l)
  answer-vote n tg l h v e = rw (informed-apply (takeover n) l h v) (
      unfold apply_request in
      (rw (drop-trace, append-nil, e)
        (elim (Bool-cases (eqb_ℤ l.id no_id)) [
          | inl free ↦ rw free refl
          | inr bound ↦ rw bound refl
        ])))

  pub answer-ack :
      (n tg : ℕ) (l : Link)
      → n < 2
      → IsLink l
      → l.my_id ≡ pos tg
      → answer net (encode_request (controller n)) l ≡ encode (tg_ack tg)
  answer-ack n tg l h v e = rw (informed-apply (controller n) l h v) (
      unfold apply_request in
      (rw (append_assoc, append_assoc, drop-trace)
        (rw e (ap (λ b. b'y' ∷ b) (append-nil (bytes_of_int (pos tg)))))))
