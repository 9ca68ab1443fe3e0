-- ===== src/TokenGen/Outbox/Report.antt =====
-- `writeToServer` of TokenGen/src/proxy1.c, and the messages of a controller.

use web_q_final.Prelude.{ℕ, ◌+◌, ◌≡◌, ap, refl, List, [], ◌∷◌, ◌++◌, false, true, map}
use web_q_final.Prelude.Int.{ℤ, pos, int32, ◌+ℤ◌}
use web_q_final.Net.{Net}
use web_q_final.Wire.{bytes_of_int}
use web_q_final.Controller.Inbox.Protocol.{incoming, encode_all}
use web_q_final.TokenGen.Outbox.{Outbox, put, report, reports}

-- Each turn finds this many incoming requests.
abbrev pub counts : List ℤ → List (Outbox → Outbox)
counts [] = []
counts (x ∷ xs) = (λ o. record o { incoming = x }) ∷ counts xs

pub report-up :
    (net : Net) (k : ℕ) (o : Outbox)
    → ((j : ℕ) → net.write_ok j ≡ true)
    → report net k o ≡ (
      b'i' ∷ (bytes_of_int o.my_id ++ bytes_of_int o.incoming),
      false,
      record o { numbytes = int32 (o.numbytes +ℤ pos 4) },
    )
unfolding report put
report-up net k o up = rw (up k, up (k + 1), up (k + 2)) refl

-- Where all writes succeed, the bytes of the turns that find the counts `xs` are the messages of this
-- TokenGen, under its number, with these counts in order, in the encoding that a controller reads.
pub reports-messages :
    (net : Net) (k tg : ℕ) (xs : List ℤ) (o : Outbox)
    → ((j : ℕ) → net.write_ok j ≡ true)
    → o.my_id ≡ pos tg
    → (reports net k (counts xs) o).0 ≡ encode_all (map (incoming tg) xs)
unfolding reports
reports-messages net k tg [] o up me = refl
reports-messages net k tg (x ∷ xs) o up me =
    rw (report-up net k (record o { incoming = x }) up, me)
      (ap (λ rest. (b'i' ∷ (bytes_of_int (pos tg) ++ bytes_of_int x)) ++ rest)
        (reports-messages net (k + 3) tg xs
          (record o { my_id = pos tg; incoming = x; numbytes = int32 (o.numbytes +ℤ pos 4) }) up
          refl))
