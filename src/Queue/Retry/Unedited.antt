-- ===== src/Queue/Retry/Unedited.antt =====
-- What a retry sends when an edited approval failed, app/saas/sync_service.py.
use autonomous_executive_ema.Base.{ℕ, ◌≡◌, refl, ap, ◌∙◌, true, false, String, Option, some, ◌∷◌}
use autonomous_executive_ema.Models.{reply}
use autonomous_executive_ema.Queue.{
  World, ActionRow, MessageRow, MailProvider, Services, Sent, send_reply, is_failed, get_action,
}
use autonomous_executive_ema.Queue.Execute.{execute, execute_as, call, or_text, default_reply}
use autonomous_executive_ema.Queue.Review.{audit, carry_out, mark_failed}
use autonomous_executive_ema.Queue.Review.Once.{result_of, carry_out-row, refused_row}
use autonomous_executive_ema.Queue.Retry.{attempt, Summary}

-- The call that sends a reply for a row.
abbrev pub reply_for : MailProvider → ActionRow → MessageRow → World → Sent
reply_for provider row m w =
    let write = send_reply m.provider_message_id (or_text row.content default_reply) in
    record { row = some row.id; write = write; ok = (provider w.sent write).ok }

attempt-reply :
    (provider : MailProvider) (later : ℕ) (org : String) (row : ActionRow) (m : MessageRow)
    (w : World) (s : Summary)
    → row.action_type ≡ reply
    → (attempt provider later org row m (w, s)).0.sent ≡ reply_for provider row m w ∷ w.sent
unfolding attempt execute execute_as call audit
attempt-reply provider later org row m w s e = rw (attempt, execute, e) refl

module _ (services : Services) (provider : MailProvider) (now : ℕ) (org user : String)
    (edit : Option String) where
  -- An edit of the reviewer is lost when the provider refuses the approval: the row that is left is
  -- failed, and the next attempt to send it calls the provider with the text from before the edit, or with
  -- the default reply where there was none, whatever the reviewer wrote.
  pub retry_drops_edit :
      (backend : MailProvider) (later : ℕ) (a : ActionRow) (m : MessageRow) (w : World)
      (s : Summary)
      → get_action org a.id w.rows ≡ some a
      → (result_of services provider now org user edit a m w).ok ≡ false
      → a.action_type ≡ reply
      → let after = carry_out services provider now org user edit a m w in
        (row : ActionRow) × (get_action org a.id after.rows ≡ some row)
        × (is_failed row.status ≡ true)
        × ((attempt backend later org row m (after, s)).0.sent
            ≡ reply_for backend a m after ∷ after.sent)
  unfolding mark_failed
  retry_drops_edit backend later a m w s h e t =
      let result = result_of services provider now org user edit a m w in
      let after = carry_out services provider now org user edit a m w in
      let row = mark_failed user now result a in
      (
        row,
        carry_out-row services provider now org user edit a m w h
            ∙ ap some (refused_row services provider now org user edit result a e),
        refl,
        attempt-reply backend later org row m after s t,
      )
