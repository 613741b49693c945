-- ===== src/Text/Sorting.antt =====
-- `sorted` on texts in another order.
use mathlib.Core.List.{Perm, Permᴰ}
use mathlib.Core.Logic.{∥∥₁_elim}
use matchmaker_platform.Prelude.{◌≡◌, refl, ◌∙◌, true, List, [], ◌∷◌, arith, inl, inr, ◌⊎◌}
use matchmaker_platform.Text.{Text, text_le, insert_text, sorted}

text_le_total : (a b : Text) → (text_le a b ≡ true) ⊎ (text_le b a ≡ true)
unfolding text_le
text_le_total [] b = inl refl
text_le_total (x ∷ a) [] = inr refl
text_le_total (x ∷ a) (y ∷ b) = ground (arith, text_le_total a b)

text_le_antisymm : (a b : Text) → text_le a b ≡ true → text_le b a ≡ true → a ≡ b
unfolding text_le
text_le_antisymm [] [] h k = refl
text_le_antisymm [] (y ∷ b) h k = cc
text_le_antisymm (x ∷ a) [] h k = cc
text_le_antisymm (x ∷ a) (y ∷ b) h k = ground (arith, text_le_antisymm a b)

text_le_trans : (a b c : Text) → text_le a b ≡ true → text_le b c ≡ true → text_le a c ≡ true
unfolding text_le
text_le_trans [] b c h k = refl
text_le_trans (x ∷ a) [] c h k = cc
text_le_trans (x ∷ a) (y ∷ b) [] h k = cc
text_le_trans (x ∷ a) (y ∷ b) (z ∷ c) h k = ground (arith, text_le_trans a b c)

insert_text_comm :
    (t u : Text) (l : List Text) → insert_text t (insert_text u l) ≡ insert_text u (insert_text t l)
unfolding insert_text
insert_text_comm t u [] = ground (arith, text_le_total t u, text_le_antisymm t u)
insert_text_comm t u (v ∷ l) = ground (
  arith,
  insert_text_comm t u l,
  text_le_total t u,
  text_le_antisymm t u,
  text_le_trans t u v,
  text_le_trans u t v,
  text_le_total u v,
  text_le_total t v,
)

sorted-permᴰ : {xs ys : List Text} → Permᴰ xs ys → sorted xs ≡ sorted ys
unfolding sorted
sorted-permᴰ Permᴰ.nil = refl
sorted-permᴰ (Permᴰ.cons e d) = cc (e, sorted-permᴰ d)
sorted-permᴰ (Permᴰ.swap {a} {b} {l = l} p q) = cc (p, q, insert_text_comm a b (sorted l))
sorted-permᴰ (Permᴰ.trans d e) = sorted-permᴰ d ∙ sorted-permᴰ e

List-Text-set : IsSet (List Text)
List-Text-set = hlevel

-- Lists with the same texts sort to the same list.
pub sorted-perm : {xs ys : List Text} → Perm xs ys → sorted xs ≡ sorted ys
sorted-perm p = ∥∥₁_elim p (List-Text-set _ _) sorted-permᴰ
