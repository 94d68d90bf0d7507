-- ===== src/Auth/Lockout.antt =====
-- The lockout after failed logins (backend/app/auth/service.py, `handle_password_check`).
use blyns_ops.Prelude.{
  ℕ, suc, ◌+◌, ◌<◌, ◌≡◌, refl, ap, ◌∙◌, true, false, some, List, [], ◌∷◌, arith, length, leb,
  insert_one,
}
use blyns_ops.Auth.{User, AuthError, Outcome, check_lockout, handle_password_check, lock_time}

-- Wrong passwords at the given times, one after the other.
unfoldable pub fail_at : ℕ → ℕ → List ℕ → User → User
fail_at threshold minutes [] u = u
fail_at threshold minutes (now ∷ times) u =
    fail_at threshold minutes times (handle_password_check now threshold minutes false u).1

reached : (threshold n : ℕ) → n + 0 + 1 ≡ threshold → leb threshold (n + 1) ≡ true
reached threshold n h = ground (arith, h)

missing : (threshold n m : ℕ) → n + suc m + 1 ≡ threshold → leb threshold (n + 1) ≡ false
missing threshold n m h = ground (arith, h)

still_locked : (until now : ℕ) → now < until → leb until now ≡ false
still_locked until now h = ground (arith, h)

-- A failure below the threshold is only counted.
counted :
    (now threshold minutes : ℕ) (u : User)
    → leb threshold (u.failed_attempts + 1) ≡ false
    → (handle_password_check now threshold minutes false u).1
      ≡ record u { failed_attempts = u.failed_attempts + 1 }
unfolding handle_password_check
counted now threshold minutes u h = rw h refl

-- The account after the failures, by how many are missing to the threshold.
locked_after :
    (threshold minutes : ℕ) (times : List ℕ) (last : ℕ) (u : User)
    → u.failed_attempts + length times + 1 ≡ threshold
    → fail_at threshold minutes (insert_one times last) u
      ≡ record u { failed_attempts = 0; locked_until = some (lock_time last minutes) }
unfolding fail_at handle_password_check
locked_after threshold minutes [] last u h = rw (reached threshold u.failed_attempts h) refl
locked_after threshold minutes (now ∷ times) last u h =
    ap (λ v. fail_at threshold minutes (insert_one times last) v)
      (counted now threshold minutes u (missing threshold u.failed_attempts (length times) h))
    ∙ locked_after threshold minutes times last
        (record u { failed_attempts = u.failed_attempts + 1 }) (omega (arith, h))

-- As many wrong passwords as the threshold, counted from a clean account, lock it: the last of them
-- starts the lock and sets the counter back, and until the lock has passed a login is refused.
pub fail_at_locks :
    (threshold minutes : ℕ) (times : List ℕ) (last later : ℕ) (u : User)
    → u.failed_attempts ≡ 0
    → length times + 1 ≡ threshold
    → later < lock_time last minutes
    → (fail_at threshold minutes (insert_one times last) u
        ≡ record u { failed_attempts = 0; locked_until = some (lock_time last minutes) })
      × (check_lockout later (fail_at threshold minutes (insert_one times last) u)
          ≡ Outcome.raised AuthError.account_locked)
unfolding check_lockout
fail_at_locks threshold minutes times last later u clean count before =
    let locked = locked_after threshold minutes times last u (omega (arith, clean, count)) in
    (locked, rw locked (rw (still_locked (lock_time last minutes) later before) refl))
