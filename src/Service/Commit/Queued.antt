-- ===== src/Service/Commit/Queued.antt =====
-- Publication requests that `update_all_checkpoints` of service_lib/src/ephemeral_service_impl.rs never drops:
-- those of tables that have had extension work.
use powdrr_engine.Common.{
  Bool, false, ◌≢◌, ==_iff, ==_eq_false, ◌≡◌, arith, inl, inr, Bool-cases, String, true, some, List,
  [], ◌∷◌, ◌==◌, string_eq, nat_eq, option_eq,
}
use text.Mathlib.TextLemmas.{append_cancel_left}
use powdrr_engine.Common.Dict.{contains_key, values, get-remove}
use powdrr_engine.DataContract.Types.{ExtensionCommit}
use powdrr_engine.Service.State.{
  Payloads, EphemeralServiceImpl, checkpoint_publication_request_key, default_metadata_namespace,
}
use powdrr_engine.Service.Publish.{
  update_one_checkpoint, update_checkpoints, update_all_checkpoints,
}
use powdrr_engine.Service.Publish.Frames.{
  updated_once, updated_once-IsCutover, update_one-IsUpdated,
}
use powdrr_engine.Service.Types.{CheckpointUpdateRequest}
use powdrr_engine.Common.Int.{ℤ}
use powdrr_engine.Service.Cutover.{checkpoint_publication_still_pending}
use powdrr_engine.Service.Commit.Extension.{extension_commit}
use powdrr_engine.Service.Commit.Pending.{
  IsQueued, IsQueued-still_pending, extension_commit-IsQueued,
}

request_key-injective :
    (a b : String)
    → checkpoint_publication_request_key default_metadata_namespace a
      ≡ checkpoint_publication_request_key default_metadata_namespace b
    → a ≡ b
unfolding checkpoint_publication_request_key
request_key-injective a b e =
    append_cancel_left _ _ _ (append_cancel_left default_metadata_namespace _ _ e)

module _ {P : Payloads} where
  update_one-IsQueued :
      (now : ℤ) (table_name other : String) (s : EphemeralServiceImpl P) (done : Bool)
      → IsQueued table_name s
      → IsQueued table_name (update_one_checkpoint now other (s, done)).0
  unfolding update_one_checkpoint contains_key
  update_one-IsQueued now table_name other s done q =
      let f = updated_once-IsCutover now other s in
      let key = checkpoint_publication_request_key default_metadata_namespace table_name in
      let other_key = checkpoint_publication_request_key default_metadata_namespace other in
      record {
        waiting = rw (update_one-IsUpdated now other s done).same_waiting q.waiting;
        requested = elim (Bool-cases (other == table_name)) [
          | inl same ↦
              let queued : IsQueued other (updated_once now other s) = record {
                waiting = rw (f.same_waiting, (==_iff other table_name).0 same) q.waiting;
                requested = rw (f.same_requests, (==_iff other table_name).0 same) q.requested;
              } in
              let pending = IsQueued-still_pending other (updated_once now other s) queued in
              ground (arith, pending, f.same_requests, q.requested)
          | inr different ↦
              let keys_differ : other_key ≢ key = λ e. absurd (
                ground (
                  arith,
                  (==_iff other table_name).1 (request_key-injective other table_name e),
                )) in
              ground (
                arith,
                f.same_requests,
                q.requested,
                get-remove other_key key s.checkpoint_publication_requests,
                ==_eq_false other_key key keys_differ,
              )
        ];
      }

  update-IsQueued :
      (now : ℤ) (table_name : String) (requests : List CheckpointUpdateRequest)
      (s : EphemeralServiceImpl P) (done : Bool)
      → IsQueued table_name s
      → IsQueued table_name (update_checkpoints now requests (s, done)).0
  unfolding update_checkpoints
  update-IsQueued now table_name [] s done q = q
  update-IsQueued now table_name (request ∷ requests) s done q =
      update-IsQueued now table_name requests
        (update_one_checkpoint now request.table_name (s, done)).0
        (update_one_checkpoint now request.table_name (s, done)).1
        (update_one-IsQueued now table_name request.table_name s done q)

  -- `update_all_checkpoints`, once at each of the times
  abbrev pub update_at : List ℤ → EphemeralServiceImpl P → EphemeralServiceImpl P
  update_at [] s = s
  update_at (now ∷ times) s = update_at times (update_all_checkpoints now s).0

  update_at-IsQueued :
      (times : List ℤ) (table_name : String) (s : EphemeralServiceImpl P)
      → IsQueued table_name s
      → IsQueued table_name (update_at times s)
  unfolding update_all_checkpoints
  update_at-IsQueued [] table_name s q = q
  update_at-IsQueued (now ∷ times) table_name s q =
      update_at-IsQueued times table_name (update_all_checkpoints now s).0
        (update-IsQueued now table_name (values s.checkpoint_publication_requests) s false q)

  -- After an extension commit of "es" that does not panic, the publication of the table stays pending and
  -- requested, also where the commit completed every waiting checkpoint: `update_all_checkpoints`, called
  -- any number of times with nothing else in between, never drops the request.
  pub extension_commit-update_all_checkpoints :
      (table_name : String) (commit : ExtensionCommit) (s s' : EphemeralServiceImpl P)
      (times : List ℤ)
      → commit.extension ≡ "es"
      → extension_commit table_name commit s ≡ some s'
      → (checkpoint_publication_still_pending (update_at times s') table_name ≡ true)
        × (contains_key
              (update_at times s').checkpoint_publication_requests
              (checkpoint_publication_request_key default_metadata_namespace table_name)
            ≡ true)
  extension_commit-update_all_checkpoints table_name commit s s' times is_es h =
      let q =
        update_at-IsQueued times table_name s'
          (extension_commit-IsQueued table_name commit s s' is_es h) in
      (IsQueued-still_pending table_name (update_at times s') q, q.requested)
