-- ===== src/SessionManager/Token.antt =====
-- generate_session_token and verify_session_token of services/api/utils/session_manager.py.
use mathlib.Core.List.{Perm}
use mathlib.Core.List.Perm
use matchmaker_platform.Prelude.{ℕ, ◌≡◌, refl, ◌↔◌, true, Option, some, none, List, [], ◌∷◌, arith}
use matchmaker_platform.Text.{Text}
use matchmaker_platform.Text.Sorting.{sorted-perm}
use matchmaker_platform.SessionManager.{
  token_message, generate_session_token, same_text, is_ascii, compare_digest, verify_session_token,
}

pub same_text_refl : (a : Text) → same_text a a ≡ true
unfolding same_text
same_text_refl [] = refl
same_text_refl (x ∷ a) = ground (arith, same_text_refl a)

same_text_eq : (a b : Text) → same_text a b ≡ true → a ≡ b
unfolding same_text
same_text_eq [] [] h = refl
same_text_eq (x ∷ a) (y ∷ b) h = ground (arith, same_text_eq a b)
same_text_eq _ _ h = cc

compare_digest_refl : (a : Text) → is_ascii a ≡ true → compare_digest a a ≡ some true
unfolding compare_digest
compare_digest_refl a h = rw (h, same_text_refl a) refl

compare_digest_eq : (a b : Text) → compare_digest a b ≡ some true → a ≡ b
unfolding compare_digest
compare_digest_eq a b h = same_text_eq a b (ground (arith, h))

module _ (hmac : Text → Text → Text) (id_text : ℕ → Text) (match_id : ℕ) where
  token_message-perm :
      {xs ys : List ℕ}
      → Perm xs ys
      → token_message id_text match_id xs ≡ token_message id_text match_id ys
  unfolding token_message
  token_message-perm p = rw (sorted-perm (Perm.map id_text p))

  -- The token does not depend on the order of the player ids.
  pub generate_session_token-perm :
      (secret : Option Text) {xs ys : List ℕ}
      → Perm xs ys
      → generate_session_token hmac id_text secret match_id xs
        ≡ generate_session_token hmac id_text secret match_id ys
  unfolding generate_session_token
  generate_session_token-perm none p = refl
  generate_session_token-perm (some s) p = rw (token_message-perm p)

  -- With a secret, and where the digests of the HMAC are in ASCII, the check accepts exactly the token
  -- that is generated for the players, in any order.
  pub verify_session_token_iff :
      ((key message : Text) → is_ascii (hmac key message) ≡ true)
      → (secret : Text) {xs ys : List ℕ} (token : Text) → Perm xs ys
      → (verify_session_token hmac id_text (some secret) match_id ys token ≡ some true)
        ↔ (generate_session_token hmac id_text (some secret) match_id xs ≡ some token)
  unfolding verify_session_token generate_session_token
  verify_session_token_iff hex secret {xs} {ys} token p = (
    λ accepted. cc (
      token_message-perm p,
      compare_digest_eq token (hmac secret (token_message id_text match_id ys)) accepted,
    ),
    λ made.
        let q : hmac secret (token_message id_text match_id ys) ≡ token =
          cc (token_message-perm p) in
        rw q
          (compare_digest_refl token (rw (← q) (hex secret (token_message id_text match_id ys)))),
  )
