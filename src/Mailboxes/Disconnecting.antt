-- ===== src/Mailboxes/Disconnecting.antt =====
-- What is left of a mailbox that was disconnected.
use autonomous_executive_ema.Base.{
  ap, ◌&&◌, count_if, Option-cases, ◌≡◌, refl, String, Bool, true, false, none, some, Bool-cases,
  inl, inr,
}
use autonomous_executive_ema.Queue.{World, Connection, get_connection, on_connection}
use autonomous_executive_ema.Queue.Review.{audit}
use autonomous_executive_ema.Queue.Invariant.{Good}
use autonomous_executive_ema.Queue.Invariant.Removing.{remove_rows-Good}
use autonomous_executive_ema.Mailboxes.{
  belongs, is_derived, message_ids_of, delete_connection, disconnect, is_referenced, removed,
  refused, after_deletion, without_connection,
}

module _ (org id : String) where
  disconnected :
      (enforces : Bool) (user : String) (w : World) (c : Connection)
      → get_connection org id w.connections ≡ some c
      → (enforces && is_referenced org id w) ≡ false
      → disconnect enforces org user id w ≡ (
        some true,
        audit "mailbox.disconnect" org
            (some user)
            (on_connection id)
            true
            (without_connection org id w),
      )
  unfolding disconnect delete_connection
  disconnected enforces user w c h free =
      let deleted : delete_connection enforces org id w ≡ (
        removed (count_if (belongs org id) w.messages)
            (count_if (is_derived org (message_ids_of org id w)) w.rows),
        without_connection org id w,
      ) =
        rw (delete_connection, h) (rw free refl) in
      rw (disconnect, h) (ap (after_deletion org user id) deleted)

  -- Where the database enforces its foreign keys and a promise refers to a message of the mailbox, the
  -- disconnecting raises and changes nothing.
  pub disconnect_refused :
      (enforces : Bool) (user : String) (w : World) (c : Connection)
      → get_connection org id w.connections ≡ some c
      → (enforces && is_referenced org id w) ≡ true
      → disconnect enforces org user id w ≡ (none, w)
  unfolding disconnect delete_connection
  disconnect_refused enforces user w c h busy =
      let kept : delete_connection enforces org id w ≡ (refused, w) =
        rw (delete_connection, h) (rw busy refl) in
      rw (disconnect, h) (ap (after_deletion org user id) kept)

-- Disconnecting takes the rows of one deletion out of the queue, or none, and makes no call.
pub disconnect-Good :
    (enforces : Bool) (org user id : String) (w : World)
    → Good w
    → Good (disconnect enforces org user id w).1
unfolding disconnect delete_connection audit without_connection
disconnect-Good enforces org user id w g =
    elim (Option-cases (get_connection org id w.connections)) [
      | inl n ↦ rw (disconnect, n) g
      | inr (c, p) ↦ elim (Bool-cases (enforces && is_referenced org id w)) [
        | inl b ↦ rw (disconnect_refused org id enforces user w c p b) g
        | inr b ↦
            rw (disconnected org id enforces user w c p b)
              (remove_rows-Good (is_derived org (message_ids_of org id w)) w g)
      ]
    ]
