-- ===== src/Layout/Request/Frame.antt =====
-- src/layout.rs: what asking for a layout and refreshing the stacking order leave alone.
use pinnacle.Common.{ℕ, ◌≡◌, arith}
use pinnacle.Deps.{IndexSet}
use pinnacle.State.{Pinnacle}
use pinnacle.Layout.Request.{request_layout, update_xwayland_stacking_order}

-- Two states that differ at most in the log and in the number of the last layout request.
abbrev pub OnlyLogs : Pinnacle → Pinnacle → Type 0
OnlyLogs q p = q ≡ record p { layout_request_id = q.layout_request_id; effects = q.effects }

pub stacking-OnlyLogs : (p : Pinnacle) → OnlyLogs (update_xwayland_stacking_order p) p
unfolding update_xwayland_stacking_order
stacking-OnlyLogs p = ground arith

module _ ⦃ix : IndexSet⦄ where
  pub request_layout-OnlyLogs : (o : ℕ) (p : Pinnacle) → OnlyLogs (request_layout o p) p
  unfolding request_layout
  request_layout-OnlyLogs o p = ground arith
