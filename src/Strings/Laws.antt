-- ===== src/Strings/Laws.antt =====
-- Equality of texts.
use tab_vm.Strings.{Text, text_eq, is_empty}
use tab_vm.Prelude.{◌≡◌, refl, ◌↔◌, true, [], ◌∷◌, arith, false}

pub text_eq_refl : (s : Text) → text_eq s s ≡ true
unfolding text_eq
text_eq_refl [] = refl
text_eq_refl (c ∷ s) = ground (arith, text_eq_refl s)

pub text_eq_sound : (s t : Text) → text_eq s t ≡ true → s ≡ t
unfolding text_eq
text_eq_sound [] [] h = refl
text_eq_sound [] (d ∷ t) h = cc
text_eq_sound (c ∷ s) [] h = cc
text_eq_sound (c ∷ s) (d ∷ t) h = ground (arith, text_eq_sound s t)

pub text_eq_iff : (s t : Text) → (text_eq s t ≡ true) ↔ (s ≡ t)
text_eq_iff s t = (text_eq_sound s t, λ e. rw e (text_eq_refl t))

pub text_eq-empty : (s t : Text) → is_empty s ≡ true → is_empty t ≡ false → text_eq s t ≡ false
unfolding text_eq
text_eq-empty [] [] h k = cc
text_eq-empty [] (c ∷ t) h k = refl
text_eq-empty (c ∷ s) t h k = cc
