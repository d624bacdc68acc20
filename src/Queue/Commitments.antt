-- ===== src/Queue/Commitments.antt =====
-- `CommitmentRepository.upsert` of app/saas/repository.py, and the two loops of
-- app/saas/sync_service.py that record promises.
use autonomous_executive_ema.Base.{
  ℕ, ◌+◌, String, Bool, true, false, ◌&&◌, none, some, List, [], ◌∷◌, ◌++◌, any, str_eq, truthy,
  if◌then◌else◌,
}
use autonomous_executive_ema.Models.{ActionType, reply}
use autonomous_executive_ema.Queue.{
  World, ActionRow, MessageRow, Services, Found, CommitmentRow, ours,
}

abbrev pub is_known : String → String → CommitmentRow → Bool
is_known org key c = str_eq c.org_id org && str_eq c.fingerprint key

-- The rows after an upsert, and how many are new: a known promise is left as it is.
unfoldable pub upsert :
    Services → String → MessageRow → Found → List CommitmentRow → List CommitmentRow × ℕ
upsert s org m f rows =
    let key = s.fingerprint m.id f.direction f.text in
    if any (is_known org key) rows then (rows, 0) else (
      rows
          ++ record {
            org_id = org;
            message_id = m.id;
            fingerprint = key;
            found = f;
            counterparty = m.sender;
            subject = m.subject;
          }
            ∷ [],
      1,
    )

unfoldable pub upsert_all :
    Services → String → MessageRow → List Found → List CommitmentRow → List CommitmentRow × ℕ
upsert_all s org m [] rows = (rows, 0)
upsert_all s org m (f ∷ fs) rows =
    let (rows', new) = upsert s org m f rows in
    let (rows'', more) = upsert_all s org m fs rows' in (rows'', new + more)

abbrev pub is_reply : ActionType → Bool
is_reply reply = true
is_reply _ = false

-- `_record_own_commitments`: promises in a reply that was just sent.
unfoldable pub record_own : Services → String → ActionRow → MessageRow → World → World
record_own s org action message w = elim action.content [
  | none ↦ w
  | some text ↦
      if is_reply action.action_type && truthy text
      then record w {
        commitments = (upsert_all s org message (s.extract text ours false) w.commitments).0;
      }
      else w
]
