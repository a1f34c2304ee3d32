-- ===== src/Compaction/Window.antt =====
-- The budgets leave room for the answer in the context window.
use just_another_coding_agen.Base.{◌≡◌, ℕ, ◌+◌, ◌*◌, ◌/◌, ◌≤◌, ◌<◌, arith}
use just_another_coding_agen.Compaction.Trigger.{
  build_compaction_output_headroom_tokens, build_effective_compaction_context_window_tokens,
  trigger_budget,
}

div_below : (a d e : ℕ) → 0 < d → a < (e + 1) * d → a / d ≤ e
div_below a d e p h = grind arith

scaled :
    (effective num den : ℕ)
    → 0 < den
    → num ≤ den
    → effective * num * 1000000 + den < (effective + 1) * (den * 1000000)
scaled effective num den p h = grind arith

headroom_fits :
    (window : ℕ)
    → 0 < window
    → build_effective_compaction_context_window_tokens window
        + build_compaction_output_headroom_tokens window
      ≡ window
unfolding build_effective_compaction_context_window_tokens build_compaction_output_headroom_tokens
headroom_fits window h = ground arith

-- For a share of the context window of one at most: a history below the budget that triggers compaction
-- and the answer's headroom fit together into the window.
pub trigger-budget_room :
    (num den window : ℕ)
    → 0 < den
    → num ≤ den
    → 0 < window
    → trigger_budget num den (build_effective_compaction_context_window_tokens window)
        + build_compaction_output_headroom_tokens window
      ≤ window
unfolding trigger_budget
trigger-budget_room num den window p q h =
    let effective = build_effective_compaction_context_window_tokens window in
    omega (
      arith,
      headroom_fits window h,
      div_below (effective * num * 1000000 + den) (den * 1000000) effective (omega arith)
          (scaled effective num den p q),
    )
