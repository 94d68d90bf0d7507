-- ===== src/Tenant/Frame.antt =====
-- Rules for actions that leave a part of the database as it was, and for actions that keep an
-- invariant and give a value with a property.
use blyns_ops.Prelude.{
  Bool, true, false, if◌then◌else◌, ◌≡◌, refl, sym, ◌∙◌, ap, subst, ℕ, Option, none, some,
}
use blyns_ops.Tenant.Docs.{Db}
use blyns_ops.Tenant.Actions.{
  Error, Result, ok, err, Exec, reads, raise, pure, raise_if, modify, or_raise, or_undo, on_status,
  has_status, ◌>>=◌,
}
use blyns_ops.Tenant.Rules.{same_ok, bind_rule, outcome_rule, undo_rule, query_rule, IsQuery, Keeps}

-- `m` leaves what `view` shows, whether it returns or raises.
pub record Leaves {C A : Type 0} (view : Db → C) (m : Exec A) : Type 0 where
  pub same : (s : Db) → view (m s).1 ≡ view s

-- What a run leaves, by its outcome.
abbrev IsSame : {C A : Type 0} → (Db → C) → Db → Result A × Db → Type 0
IsSame view s rs = view rs.1 ≡ view s

module _ {C A : Type 0} {view : Db → C} where
  pub Leaves-pure : (a : A) → Leaves view (pure a)
  Leaves-pure a = record { same = λ s. refl }

  pub Leaves-raise : (e : Error) → Leaves view (raise {A = A} e)
  Leaves-raise e = record { same = λ s. refl }

  pub Leaves-reads : (f : Db → Result A) → Leaves view (reads f)
  Leaves-reads f = record { same = λ s. refl }

  pub Leaves-query : (m : Exec A) → IsQuery m → Leaves view m
  Leaves-query m q = record { same = λ s. ap view (q.same s) }

  pub Leaves-if :
      (b : Bool) (m n : Exec A) → Leaves view m → Leaves view n → Leaves view (if b then m else n)
  Leaves-if true m n km kn = km
  Leaves-if false m n km kn = kn

  pub Leaves-or_undo :
      (m : Exec A) (undo : Db → Db)
      → Leaves view m
      → ((s : Db) → view (undo s) ≡ view s)
      → Leaves view (or_undo m undo)
  Leaves-or_undo m undo km ku = record {
    same = λ s.
        undo_rule (λ rs. view rs.1 ≡ view s) (λ rs. view rs.1 ≡ view s) m undo s (km.same s)
          (λ e s' k. ku s' ∙ k) (λ a s' k. k);
  }

  pub Leaves-on_status :
      (status : ℕ) (m n : Exec A)
      → Leaves view m
      → Leaves view n
      → Leaves view (on_status status m n)
  Leaves-on_status status m n km kn = record { same = λ s. go s (m s).0 (m s).1 (km.same s) }
    where
      caught :
          (s s' : Db) (e : Error) (b : Bool)
          → view s' ≡ view s
          → IsSame {A = A} view s (if b then n s' else (err e, s'))
      caught s s' e true k = kn.same s' ∙ k
      caught s s' e false k = k

      go :
          (s : Db) (r : Result A) (s' : Db)
          → view s' ≡ view s
          → IsSame {A = A} view s (elim r [
            | ok a ↦ (ok a, s')
            | err e ↦ if has_status status e then n s' else (err e, s')
          ])
      go s (ok a) s' k = k
      go s (err e) s' k = caught s s' e (has_status status e) k

module _ {C : Type 0} {view : Db → C} where
  pub Leaves-modify : (f : Db → Db) → ((s : Db) → view (f s) ≡ view s) → Leaves view (modify f)
  Leaves-modify f h = record { same = h }

  pub Leaves-raise_if : (b : Bool) (e : Error) → Leaves view (raise_if b e)
  Leaves-raise_if true e = record { same = λ s. refl }
  Leaves-raise_if false e = record { same = λ s. refl }

  pub Leaves-bind :
      {A B : Type 0} (m : Exec A) (f : A → Exec B)
      → Leaves view m
      → ((a : A) → Leaves view (f a))
      → Leaves view (m >>= f)
  Leaves-bind m f km kf = record {
    same = λ s.
        bind_rule (λ rs. view rs.1 ≡ view s) m f s (λ e _. km.same s)
          (λ a _. (kf a).same (m s).1 ∙ km.same s);
  }

pub ruleset leaves_rules = (
  Leaves-pure, Leaves-raise, Leaves-reads, Leaves-raise_if, Leaves-if, Leaves-bind, Leaves-or_undo,
  Leaves-modify, refl,
)

-- What holds of the part that is left as it was is kept.
pub Keeps-Leaves :
    {C : Type 0} {A : Type 0} {view : Db → C} {P : Db → Type 0} (Q : C → Type 0) (m : Exec A)
    → ((s : Db) → P s → Q (view s))
    → ((s : Db) → Q (view s) → P s)
    → Leaves view m
    → Keeps P m
Keeps-Leaves {view = view} Q m to from l = record {
  at = λ s h. from (m s).1 (subst Q (sym (l.same s)) (to s h));
}

-- `m` keeps `P`, and what it returns has the property `Q`.
abbrev pub After : {A : Type 0} → (Db → Type 0) → (A → Type 0) → Result A × Db → Type 0
After P Q (ok a, s) = P s × Q a
After P Q (err e, s) = P s

pub record Gives {A : Type 0} (P : Db → Type 0) (Q : A → Type 0) (m : Exec A) : Type 0 where
  pub at : (s : Db) → P s → After P Q (m s)

pub Gives-reads :
    {A : Type 0} {P : Db → Type 0} {Q : A → Type 0} (f : Db → Result A)
    → ((s : Db) → P s → (a : A) → f s ≡ ok a → Q a)
    → Gives P Q (reads f)
Gives-reads {A} {P} {Q} f k = record { at = λ s h. go s h (f s) refl }
  where
    go : (s : Db) → P s → (r : Result A) → f s ≡ r → After P Q (r, s)
    go s h (ok a) e = (h, k s h a e)
    go s h (err x) e = h

pub Gives-bind :
    {A B : Type 0} {P : Db → Type 0} {Q : B → Type 0} (m : Exec A) (f : A → Exec B)
    → Keeps P m
    → ((a : A) → Gives P Q (f a))
    → Gives P Q (m >>= f)
Gives-bind {P = P} {Q = Q} m f km kf = record {
  at = λ s h. bind_rule (After P Q) m f s (λ e _. km.at s h) (λ a _. (kf a).at (m s).1 (km.at s h));
}

-- What `or_raise` lets through was there.
pub or_raise_ok : {A : Type 0} (o : Option A) (e : Error) (a : A) → or_raise o e ≡ ok a → o ≡ some a
or_raise_ok none e a h = cc
or_raise_ok (some x) e a h = ap some (same_ok h)

pub Keeps-Gives :
    {A B : Type 0} {P : Db → Type 0} (Q : A → Type 0) (m : Exec A) (f : A → Exec B)
    → Gives P Q m
    → ((a : A) → Q a → Keeps P (f a))
    → Keeps P (m >>= f)
Keeps-Gives {P = P} Q m f g kf = record {
  at = λ s h.
      outcome_rule (After P Q) (λ rs. P rs.1) m f s (g.at s h) (λ e s' k. k)
        (λ a s' k. (kf a k.1).at s' k.0);
}

-- A test that is passed has come out as it should.
pub Keeps-check :
    {B : Type 0} {P : Db → Type 0} (b : Bool) (e : Error) (n : Exec B)
    → (b ≡ false → Keeps P n)
    → Keeps P (raise_if b e >>= λ _. n)
Keeps-check true e n k = record { at = λ s h. h }
Keeps-check false e n k = k refl

-- A bind goes on with what its first part returned.
pub bind_ok :
    {A B : Type 0} (m : Exec A) (f : A → Exec B) (s s' : Db) (a : A)
    → m s ≡ (ok a, s')
    → (m >>= f) s ≡ f a s'
bind_ok {A} {B} m f s s' a e =
    ap
      (λ (rs : Result A × Db). elim rs.0 as (λ _. Result B × Db) [
        | ok x ↦ f x rs.1
        | err y ↦ (err y, rs.1)
      ])
      e

-- An error, and the database as it was.
abbrev pub IsRefused : {A : Type 0} → Db → Result A × Db → Type 0
IsRefused s (ok a, s') = ⊥
IsRefused s (err e, s') = s' ≡ s

-- A query before a refusal.
pub query-IsRefused :
    {A B : Type 0} (m : Exec A) (f : A → Exec B) (s : Db)
    → IsQuery m
    → ((a : A) → IsRefused s (f a s))
    → IsRefused s ((m >>= f) s)
query-IsRefused m f s q h = query_rule (IsRefused s) m f s q (λ e. refl) (λ a _. h a)

pub check-IsRefused :
    {B : Type 0} (b : Bool) (e : Error) (n : Exec B) (s : Db)
    → IsRefused s (n s)
    → IsRefused s ((raise_if b e >>= λ _. n) s)
check-IsRefused true e n s h = refl
check-IsRefused false e n s h = h

-- Nothing follows an error.
pub raised-IsRefused :
    {A B : Type 0} (m : Exec A) (f : A → Exec B) (s : Db) (e : Error)
    → m s ≡ (err e, s)
    → IsRefused s ((m >>= f) s)
raised-IsRefused {A} {B} m f s e h = subst (IsRefused s) (sym fails) refl
  where
    fails : (m >>= f) s ≡ (err e, s)
    fails =
        ap
          (λ (rs : Result A × Db). elim rs.0 as (λ _. Result B × Db) [
            | ok x ↦ f x rs.1
            | err y ↦ (err y, rs.1)
          ])
          h
