-- ===== src/Sni/ClientHello/Fuel.antt =====
-- More rounds than bytes change nothing: the loops of the source end by themselves.
use cachic.Common.{
  ℕ, zero, suc, ◌+◌, ◌≤◌, ◌≡◌, refl, List, [], ◌∷◌, length, drop, arith, length-drop, ◌*◌,
}
use cachic.Sni.ClientHello.{take_bytes, u8, u16, names_loop, extensions_loop}

-- One round of the names loop reads three bytes at least.
names_loop_enough :
    (f g : ℕ) (n : List ℕ) → length n ≤ f → length n ≤ g → names_loop f n ≡ names_loop g n
unfolding names_loop u8 u16 take_bytes
names_loop_enough zero zero n h k = refl
names_loop_enough zero (suc g) [] h k = refl
names_loop_enough zero (suc g) (a ∷ n) h k = absurd (omega arith)
names_loop_enough (suc f) zero [] h k = refl
names_loop_enough (suc f) zero (a ∷ n) h k = absurd (omega arith)
names_loop_enough (suc f) (suc g) [] h k = refl
names_loop_enough (suc f) (suc g) (a ∷ []) h k = refl
names_loop_enough (suc f) (suc g) (a ∷ b ∷ []) h k = refl
names_loop_enough (suc f) (suc g) (a ∷ b ∷ c ∷ n) h k = ground (
  arith,
  names_loop_enough f g (drop (b * 256 + c) n) (omega (arith, length-drop (b * 256 + c) n))
      (omega (arith, length-drop (b * 256 + c) n)),
)

extensions_loop_enough :
    (f g : ℕ) (e : List ℕ) → length e ≤ f → length e ≤ g → extensions_loop f e ≡ extensions_loop g e
unfolding extensions_loop u16 take_bytes
extensions_loop_enough zero zero e h k = refl
extensions_loop_enough zero (suc g) [] h k = refl
extensions_loop_enough zero (suc g) (a ∷ e) h k = absurd (omega arith)
extensions_loop_enough (suc f) zero [] h k = refl
extensions_loop_enough (suc f) zero (a ∷ e) h k = absurd (omega arith)
extensions_loop_enough (suc f) (suc g) [] h k = refl
extensions_loop_enough (suc f) (suc g) (a ∷ []) h k = refl
extensions_loop_enough (suc f) (suc g) (a ∷ b ∷ []) h k = refl
extensions_loop_enough (suc f) (suc g) (a ∷ b ∷ c ∷ []) h k = refl
extensions_loop_enough (suc f) (suc g) (a ∷ b ∷ c ∷ d ∷ e) h k = ground (
  arith,
  extensions_loop_enough f g (drop (c * 256 + d) e) (omega (arith, length-drop (c * 256 + d) e))
      (omega (arith, length-drop (c * 256 + d) e)),
)

-- On the same bytes, any two numbers of rounds that are at least the number of bytes give the same
-- answer, for the loop over the extensions and for the loop over the names.
loops_enough :
    (f g : ℕ) (s : List ℕ)
    → length s ≤ f
    → length s ≤ g
    → (extensions_loop f s ≡ extensions_loop g s) × (names_loop f s ≡ names_loop g s)
loops_enough f g s h k = (extensions_loop_enough f g s h k, names_loop_enough f g s h k)
