-- ===== src/Webhooks/Delivery/Retirement.antt =====
-- A removed webhook gets no delivery any more: every statement on webhook deliveries, in any order.
use enterprise_integration_s.Webhooks.Delivery.Steps.{Steps, here, next}
use enterprise_integration_s.Common.{
  ℕ, ◌≤◌, ◌≡◌, sym, refl, String, false, some, List, [], ◌∷◌, arith, inl, inr, Bool-cases, ◌==◌,
}
use enterprise_integration_s.Common.Table.{
  affected, update_where, affected-none_le, affected-update_where_none,
}
use enterprise_integration_s.Webhooks.State.{WebhookRow, DeliveryRow, WebhookDb}
use enterprise_integration_s.Webhooks.Delivery.{
  webhook_is, is_registered, retirable, cancelled_row, retire_webhook, removed_row, removal,
}
use enterprise_integration_s.Webhooks.Delivery.Quiet.{
  pending_of, registered_as, IsQuiet, Step-IsQuiet,
}

removed_rows :
    (w shop : String) (f : WebhookRow → WebhookRow) (rows : List WebhookRow)
    → ((r : WebhookRow) → registered_as w (f r) ≡ false)
    → affected (webhook_is w) rows ≤ 1
    → 1 ≤ affected (retirable w shop) rows
    → affected (registered_as w) (update_where (retirable w shop) f rows) ≡ 0
removed_rows w shop f [] h one some_row = absurd (omega arith)
removed_rows w shop f (r ∷ rows) h one some_row = elim (Bool-cases (webhook_is w r)) [
  | inr e ↦ ground (arith, removed_rows w shop f rows h)
  | inl e ↦
      let none_left : affected (webhook_is w) rows ≡ 0 = ground arith in
      ground (
        arith,
        h r,
        affected-none_le (webhook_is w) (retirable w shop) (λ x t. ground arith) rows none_left,
        affected-none_le (webhook_is w) (registered_as w) (λ x t. ground arith) rows none_left,
        affected-update_where_none (registered_as w) (retirable w shop) f rows,
      )
]

cancelled_rows :
    (w : String) (rows : List DeliveryRow)
    → affected (pending_of w) (update_where (pending_of w) cancelled_row rows) ≡ 0
cancelled_rows w [] = refl
cancelled_rows w (d ∷ rows) = ground (arith, cancelled_rows w rows)

retired-IsQuiet :
    (w shop : String) (now : ℕ) (db db' : WebhookDb)
    → affected (webhook_is w) db.webhooks ≤ 1
    → retire_webhook now w shop db ≡ some db'
    → IsQuiet w db'
unfolding retire_webhook
retired-IsQuiet w shop now db db' one e =
    elim (Bool-cases (affected (retirable w shop) db.webhooks == 0)) [
      | inl free ↦ absurd (ground arith)
      | inr taken ↦
          let written : removal now w shop db ≡ db' = ground arith in
          rw (sym written) (record {
            removed =
                removed_rows w shop (removed_row now) db.webhooks (λ r. ground arith) one
                  (ground arith);
            idle = cancelled_rows w db.deliveries;
          })
    ]

Steps-IsQuiet : (w : String) {db db' : WebhookDb} → Steps db db' → IsQuiet w db → IsQuiet w db'
Steps-IsQuiet w here q = q
Steps-IsQuiet w (next h s) q = Step-IsQuiet w s (Steps-IsQuiet w h q)

-- Once retireWebhook has removed a webhook, none of its deliveries is ever pending again: neither the
-- fan-out of an event, nor its replay, duplication or delay by an operator, nor the outcome of a call that was under way, nor a manual retry brings one
-- back, in whatever order they run.
pub retire_webhook-forever :
    (w shop : String) (now : ℕ) (db db₁ db₂ : WebhookDb)
    → affected (webhook_is w) db.webhooks ≤ 1
    → retire_webhook now w shop db ≡ some db₁
    → Steps db₁ db₂
    → (affected (pending_of w) db₂.deliveries ≡ 0) × (is_registered w db₂.webhooks ≡ false)
retire_webhook-forever w shop now db db₁ db₂ one e h =
    let quiet = Steps-IsQuiet w h (retired-IsQuiet w shop now db db₁ one e) in
    (quiet.idle, rw quiet.removed refl)
