-- ===== src/Production/Requests/Inspected.antt =====
-- What is packed or has left has passed its inspection (backend/app/modules/production/service.py).
use blyns_ops.Prelude.{
  ℕ, Bool, true, false, none, some, List, [], ◌∷◌, ◌≡◌, refl, subst, arith, ◌==◌, ◌&&◌, ◌||◌,
  any_of, Bool-cases, inl, inr, find_one-All, not,
}
use blyns_ops.Tenant.{Db, Move, WorkOrder, WoStatus, queued, qc_pending, passed}
use blyns_ops.Production.Lifecycle.{is_one_of, phase_cleared, quality_control}
use blyns_ops.Production.Lifecycle.Reach.{◌⟶◌}
use blyns_ops.Production.Store.{find_work_order}
use blyns_ops.Production.Floor.Tracked.{Follows, IsTracked, HasTrackedOrders}
use blyns_ops.Production.Requests.{Call, serve}
use blyns_ops.Production.Requests.Histories.{serve-HasTrackedOrders}

-- A move of the inspection: from `qc_pending` to `passed`.
abbrev pub is_pass : Move → Bool
is_pass m = elim m.from_status [
  | none ↦ false
  | some a ↦ is_one_of a (qc_pending ∷ []) && is_one_of m.to_status (passed ∷ [])
]

abbrev pub cleared_qc : WoStatus → Bool
cleared_qc w = is_one_of w (phase_cleared quality_control)

-- Only the inspection leads into the cleared statuses.
only_pass_clears :
    (a b : WoStatus)
    → a ⟶ b
    → cleared_qc a ≡ false
    → cleared_qc b ≡ true
    → is_one_of a (qc_pending ∷ []) && is_one_of b (passed ∷ []) ≡ true
only_pass_clears a b h u v = ground arith

or_right : (x y : Bool) → y ≡ true → x || y ≡ true
or_right x y h = ground arith

-- From a status that inspection has not cleared to one that it has, the moves include a pass.
Follows-pass :
    (a b : WoStatus) (ms : List Move)
    → Follows (some a) ms b
    → cleared_qc a ≡ false
    → cleared_qc b ≡ true
    → any_of is_pass ms ≡ true
Follows-pass a b [] h u v = cc
Follows-pass a b (m ∷ ms) h u v = elim (Bool-cases (cleared_qc m.to_status)) [
  | inl now ↦ rw h.0 (rw (only_pass_clears a m.to_status h.1 u now) refl)
  | inr later ↦ or_right (is_pass m) (any_of is_pass ms) (Follows-pass m.to_status b ms h.2 later v)
]

-- The same for a whole history, which starts with the making of the work order.
tracked-pass :
    (w : WoStatus) (ms : List Move)
    → Follows none ms w
    → cleared_qc w ≡ true
    → any_of is_pass ms ≡ true
tracked-pass w [] h v = cc
tracked-pass w (m ∷ ms) h v =
    or_right (is_pass m) (any_of is_pass ms)
      (Follows-pass queued w ms (subst (λ (a : WoStatus). Follows (some a) ms w) h.1 h.2) refl v)

-- After any requests of any users, accepted or refused, a work order that is passed, packed, staged or
-- dispatched has a move from `qc_pending` to `passed` in its history, if the histories of all work orders
-- were in order before.
pub nothing_leaves_uninspected :
    (calls : List Call) (s : Db) (id : ℕ) (w : WorkOrder)
    → HasTrackedOrders s
    → find_work_order id (serve calls s) ≡ some w
    → cleared_qc w.status ≡ true
    → any_of is_pass w.history ≡ true
unfolding find_work_order
nothing_leaves_uninspected calls s id w h found c =
    tracked-pass w.status w.history
      (find_one-All IsTracked (λ x. id == x.id && not x.is_deleted) (serve calls s).shop.work_orders
        w (serve-HasTrackedOrders calls s h).tracked found)
      c
