-- ===== src/Controller/Soc.antt =====
-- calcSoc of Controller/src/proxy1.c: what the shares come to when nothing comes in.
pub mod Bounds
pub mod Sum
use native.Mathlib.Nat.{div-eq_of_lt}
use web_q_final.Prelude.{
  ℕ, ◌≤◌, ◌≡◌, ◌∙◌, ap, refl, arith, List, [], ◌∷◌, ◌++◌, true, take, drop, map, length, replicate,
  length-map, length-take, ltb, false, ◌<◌,
}
use web_q_final.Prelude.Int.{ℤ, pos, scale, int32, int32-eq, pos_part, eqb_ℤ}
use web_q_final.Floats.{FloatOps}
use web_q_final.Machine.{done}
use web_q_final.Controller.{Control, share_out, sum_rates, calc_soc, even_share, peers}

map_const : {A B : Type 0} (b : B) (xs : List A) → map (λ _. b) xs ≡ replicate (length xs) b
map_const b [] = refl
map_const b (x ∷ xs) = ap (λ t. b ∷ t) (map_const b xs)

-- `1/n` is 0 from 2 on.
even_share-many : (n : ℕ) (cap : ℤ) → 2 ≤ n → even_share n cap ≡ pos 0
even_share-many n z h =
    let small : 1 < n = omega arith in
    rw (div-eq_of_lt small) (ap int32 (nothing z) ∙ int32-eq (pos 0) (omega arith))
  where
    nothing : (z : ℤ) → scale 0 z ≡ pos 0
    nothing z = ground arith

module _ {F : Type 0} (ops : FloatOps F) where
  -- The rates that the first `n` TokenGens reported.
  abbrev pub reported : Control F → List F
  reported s = map ops.of_int (take (pos_part s.no_of_proxy) s.incoming_r)

  -- Where there are from 2 to PEERS TokenGens and their rates add up to 0, the controller in charge
  -- gives each of them the share 0, whatever the capacity is.
  pub calc_soc-idle :
      (s : Control F)
      → eqb_ℤ s.id s.my_id ≡ true
      → 2 ≤ pos_part s.no_of_proxy
      → pos_part s.no_of_proxy ≤ peers
      → length s.incoming_r ≡ peers
      → ops.eq (sum_rates ops (ops.of_int (pos 0)) (reported s)) (ops.of_int (pos 0)) ≡ true
      → calc_soc ops s
        ≡ done (
          tt,
          record s {
            incoming_rate = reported s ++ drop (pos_part s.no_of_proxy) s.incoming_rate;
            sum_incoming_rate = sum_rates ops (ops.of_int (pos 0)) (reported s);
            soc = replicate (pos_part s.no_of_proxy) (pos 0) ++ drop (pos_part s.no_of_proxy) s.soc;
          },
        )
  unfolding calc_soc share_out
  calc_soc-idle s mine two few size idle =
      rw (mine, in_range (pos_part s.no_of_proxy) few, idle)
        (ap
          (λ (shares : List ℤ). done (
            tt,
            record s {
              incoming_rate = reported s ++ drop (pos_part s.no_of_proxy) s.incoming_rate;
              sum_incoming_rate = sum_rates ops (ops.of_int (pos 0)) (reported s);
              soc = shares ++ drop (pos_part s.no_of_proxy) s.soc;
            },
          ))
          shares)
    where
      in_range : (n : ℕ) → n ≤ peers → ltb peers n ≡ false
      in_range n h = ground arith

      shares :
          map (λ _. even_share (pos_part s.no_of_proxy) s.capacity) (reported s)
          ≡ replicate (pos_part s.no_of_proxy) (pos 0)
      shares =
          map_const (even_share (pos_part s.no_of_proxy) s.capacity) (reported s)
          ∙ ap (λ k. replicate k (even_share (pos_part s.no_of_proxy) s.capacity))
              (length-map (take (pos_part s.no_of_proxy) s.incoming_r) ops.of_int
                ∙ length-take (pos_part s.no_of_proxy) s.incoming_r
                ∙ omega (arith, size, few))
          ∙ ap (replicate (pos_part s.no_of_proxy))
              (even_share-many (pos_part s.no_of_proxy) s.capacity two)
