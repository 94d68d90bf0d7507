-- ===== src/Tenant/Rules.antt =====
-- Rules for proofs about actions: what a bind, a query and an undone `try` do.
use blyns_ops.Prelude.{ℕ, ◌+◌, arith, ◌≡◌, refl, sym, ◌∙◌, subst, Bool, true, false, if◌then◌else◌}
use blyns_ops.Tenant.Docs.{Db}
use blyns_ops.Tenant.Actions.{
  Error, Result, ok, err, Exec, new_id, reads, raise, pure, raise_if, modify, or_undo, undone,
  ◌>>=◌,
}

pub same_ok : {A : Type 0} {a b : A} → ok a ≡ ok b → a ≡ b
same_ok e = cc

-- A property of the outcome and the database of a bind, by how its first part ended.
pub bind_rule :
    {A B : Type 0} (P : Result B × Db → Type 0) (m : Exec A) (f : A → Exec B) (s : Db)
    → ((e : Error) → (m s).0 ≡ err e → P (err e, (m s).1))
    → ((a : A) → (m s).0 ≡ ok a → P (f a (m s).1))
    → P ((m >>= f) s)
bind_rule {A} P m f s on_err on_ok = go (m s).0 on_err on_ok
  where
    go :
        (r : Result A)
        → ((e : Error) → r ≡ err e → P (err e, (m s).1))
        → ((a : A) → r ≡ ok a → P (f a (m s).1))
        → P (elim r [ ok a ↦ f a (m s).1 | err e ↦ (err e, (m s).1) ])
    go (ok a) bad good = good a refl
    go (err e) bad good = bad e refl

-- The same from an outcome `Q` of the first part.
pub outcome_rule :
    {A B : Type 0} (Q : Result A × Db → Type 0) (P : Result B × Db → Type 0) (m : Exec A)
    (f : A → Exec B) (s : Db)
    → Q (m s)
    → ((e : Error) (s' : Db) → Q (err e, s') → P (err e, s'))
    → ((a : A) (s' : Db) → Q (ok a, s') → P (f a s'))
    → P ((m >>= f) s)
outcome_rule {A} Q P m f s q on_err on_ok = go (m s).0 (m s).1 q
  where
    go : (r : Result A) (s' : Db) → Q (r, s') → P (elim r [ ok a ↦ f a s' | err e ↦ (err e, s') ])
    go (ok a) s' h = on_ok a s' h
    go (err e) s' h = on_err e s' h

-- The same for a part whose writes are undone if it raises.
pub undo_rule :
    {A : Type 0} (Q P : Result A × Db → Type 0) (m : Exec A) (undo : Db → Db) (s : Db)
    → Q (m s)
    → ((e : Error) (s' : Db) → Q (err e, s') → P (err e, undo s'))
    → ((a : A) (s' : Db) → Q (ok a, s') → P (ok a, s'))
    → P (or_undo m undo s)
undo_rule {A} Q P m undo s q on_err on_ok = go (m s).0 (m s).1 q
  where
    go : (r : Result A) (s' : Db) → Q (r, s') → P (undone undo (r, s'))
    go (ok a) s' h = on_ok a s' h
    go (err e) s' h = on_err e s' h

-- `m` keeps `P`, whether it returns or raises.
pub record Keeps {A : Type 0} (P : Db → Type 0) (m : Exec A) : Type 0 where
  pub at : (s : Db) → P s → P (m s).1

module _ {A : Type 0} {P : Db → Type 0} where
  pub Keeps-pure : (a : A) → Keeps P (pure a)
  Keeps-pure a = record { at = λ s h. h }

  pub Keeps-raise : (e : Error) → Keeps P (raise {A = A} e)
  Keeps-raise e = record { at = λ s h. h }

  pub Keeps-reads : (f : Db → Result A) → Keeps P (reads f)
  Keeps-reads f = record { at = λ s h. h }

pub Keeps-modify : {P : Db → Type 0} (f : Db → Db) → ((s : Db) → P s → P (f s)) → Keeps P (modify f)
Keeps-modify f h = record { at = h }

pub Keeps-or_undo :
    {A : Type 0} {P : Db → Type 0} (m : Exec A) (undo : Db → Db)
    → Keeps P m
    → ((s : Db) → P s → P (undo s))
    → Keeps P (or_undo m undo)
Keeps-or_undo {P = P} m undo km ku = record {
  at = λ s h.
      undo_rule (λ rs. P rs.1) (λ rs. P rs.1) m undo s (km.at s h) (λ e s' k. ku s' k)
        (λ a s' k. k);
}

pub Keeps-if :
    {A : Type 0} {P : Db → Type 0} (b : Bool) (m n : Exec A)
    → Keeps P m
    → Keeps P n
    → Keeps P (if b then m else n)
Keeps-if true m n km kn = km
Keeps-if false m n km kn = kn

pub Keeps-raise_if : {P : Db → Type 0} (b : Bool) (e : Error) → Keeps P (raise_if b e)
Keeps-raise_if true e = record { at = λ s h. h }
Keeps-raise_if false e = record { at = λ s h. h }

pub Keeps-bind :
    {A B : Type 0} {P : Db → Type 0} (m : Exec A) (f : A → Exec B)
    → Keeps P m
    → ((a : A) → Keeps P (f a))
    → Keeps P (m >>= f)
Keeps-bind {P = P} m f km kf = record {
  at = λ s h.
      bind_rule (λ rs. P rs.1) m f s (λ e _. km.at s h) (λ a _. (kf a).at (m s).1 (km.at s h));
}

pub ruleset keeps_rules =
    (Keeps-pure, Keeps-raise, Keeps-reads, Keeps-raise_if, Keeps-if, Keeps-bind, Keeps-or_undo)

-- `m` writes nothing.
pub record IsQuery {A : Type 0} (m : Exec A) : Type 0 where
  pub same : (s : Db) → (m s).1 ≡ s

module _ {A : Type 0} where
  pub IsQuery-pure : (a : A) → IsQuery (pure a)
  IsQuery-pure a = record { same = λ s. refl }

  pub IsQuery-reads : (f : Db → Result A) → IsQuery (reads f)
  IsQuery-reads f = record { same = λ s. refl }

pub IsQuery-raise_if : (b : Bool) (e : Error) → IsQuery (raise_if b e)
IsQuery-raise_if true e = record { same = λ s. refl }
IsQuery-raise_if false e = record { same = λ s. refl }

pub IsQuery-bind :
    {A B : Type 0} (m : Exec A) (f : A → Exec B)
    → IsQuery m
    → ((a : A) → IsQuery (f a))
    → IsQuery (m >>= f)
IsQuery-bind m f qm qf = record {
  same = λ s.
      bind_rule (λ rs. rs.1 ≡ s) m f s (λ e _. qm.same s) (λ a _. (qf a).same (m s).1 ∙ qm.same s);
}

pub ruleset query_rules = (IsQuery-pure, IsQuery-reads, IsQuery-raise_if, IsQuery-bind)

-- A bind after a query goes on from the same database.
pub query_rule :
    {A B : Type 0} (P : Result B × Db → Type 0) (m : Exec A) (f : A → Exec B) (s : Db)
    → IsQuery m
    → ((e : Error) → P (err e, s))
    → ((a : A) → (m s).0 ≡ ok a → P (f a s))
    → P ((m >>= f) s)
query_rule P m f s q on_err on_ok =
    bind_rule P m f s (λ e _. subst (λ (t : Db). P (err e, t)) (sym (q.same s)) (on_err e))
      (λ a h. subst (λ (t : Db). P (f a t)) (sym (q.same s)) (on_ok a h))

-- A query keeps whatever holds.
pub Keeps-query : {A : Type 0} {P : Db → Type 0} (m : Exec A) → IsQuery m → Keeps P m
Keeps-query {P = P} m q = record { at = λ s h. subst P (sym (q.same s)) h }

-- What an insertion by the driver leaves: the next id is used up, or the driver has raised.
abbrev pub Inserts : Db → Result ℕ × Db → Type 0
Inserts s (ok id, s') =
    (id ≡ s.next_id) × (s' ≡ record s { next_id = s.next_id + 1; faults = s'.faults })
Inserts s (err e, s') = s' ≡ record s { faults = s'.faults }

pub new_id-Inserts : (s : Db) → Inserts s (new_id s)
unfolding new_id
new_id-Inserts s = ground arith
