-- ===== src/Auth/Sessions.antt =====
-- The rotation of refresh tokens (backend/app/auth/service.py, `rotate_refresh`).
use blyns_ops.Prelude.{
  ℕ, ◌≡◌, refl, String, false, List, [], ◌∷◌, arith, str_eq, leb, length, any_of, insert_one,
  Bool-cases, inl, inr,
}
use blyns_ops.Auth.{
  User, AuthError, Outcome, last_items, issue_token_pair, pull, rotate_refresh,
  max_active_refresh_jtis,
}

-- The id is on no place of the list.
abbrev Absent : String → List String → Type 0
Absent jti xs = any_of (λ x. str_eq jti x) xs ≡ false

pull-Absent : (jti : String) (xs : List String) → Absent jti (pull jti xs)
pull-Absent jti [] = refl
pull-Absent jti (x ∷ xs) = elim (Bool-cases (str_eq jti x)) [
  | inl same ↦ rw same (pull-Absent jti xs)
  | inr other ↦ rw (other, other) (pull-Absent jti xs)
]

insert_one-Absent :
    (jti fresh : String) (xs : List String)
    → str_eq jti fresh ≡ false
    → Absent jti xs
    → Absent jti (insert_one xs fresh)
insert_one-Absent jti fresh [] other h = rw other refl
insert_one-Absent jti fresh (x ∷ xs) other h = ground (arith, insert_one-Absent jti fresh xs)

last_items-Absent :
    (n : ℕ) (jti : String) (xs : List String) → Absent jti xs → Absent jti (last_items n xs)
unfolding last_items
last_items-Absent n jti [] h = refl
last_items-Absent n jti (x ∷ xs) h = elim (Bool-cases (leb (length (x ∷ xs)) n)) [
  | inl short ↦ rw short h
  | inr long ↦ rw long (last_items-Absent n jti xs (tail-Absent h))
]
  where
    tail-Absent : Absent jti (x ∷ xs) → Absent jti xs
    tail-Absent k = ground (arith, k)

rotate_refresh-Absent :
    (jti fresh : String) (u : User)
    → Absent jti u.refresh_jtis
    → rotate_refresh jti fresh u ≡ (Outcome.raised AuthError.permission_denied, u)
unfolding rotate_refresh
rotate_refresh-Absent jti fresh u h = rw h refl

rotated-Absent :
    (jti fresh : String) (u : User)
    → str_eq jti fresh ≡ false
    → Absent jti (rotate_refresh jti fresh u).1.refresh_jtis
unfolding rotate_refresh issue_token_pair
rotated-Absent jti fresh u other = elim (Bool-cases (any_of (λ x. str_eq jti x) u.refresh_jtis)) [
  | inl found ↦ rw found (
      last_items-Absent max_active_refresh_jtis jti (insert_one (pull jti u.refresh_jtis) fresh) (
        insert_one-Absent jti fresh (pull jti u.refresh_jtis) other
          (pull-Absent jti u.refresh_jtis)))
  | inr missing ↦ rw missing missing
]

-- A refresh token works once: whether the first rotation was accepted or refused, presenting the same
-- token again is refused and changes nothing, if the new token's id is another.
pub rotate_refresh_once :
    (jti fresh again : String) (u : User)
    → str_eq jti fresh ≡ false
    → rotate_refresh jti again (rotate_refresh jti fresh u).1
      ≡ (Outcome.raised AuthError.permission_denied, (rotate_refresh jti fresh u).1)
rotate_refresh_once jti fresh again u other =
    rotate_refresh-Absent jti again (rotate_refresh jti fresh u).1
      (rotated-Absent jti fresh u other)
