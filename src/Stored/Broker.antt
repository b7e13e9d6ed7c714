-- ===== src/Stored/Broker.antt =====
-- crates/renee-stored/src/store.rs: `DurableUpdateStore`, the tables with the subscriptions and the
-- passes, and the operations that touch several of them. An answer `err` is that of a statement that
-- fails; what it leaves in memory is what the code has changed before it.
pub mod Revocation
use renee.Prelude.{
  ℕ, Bool, true, false, not, ◌&&◌, ◌==◌, if◌then◌else◌, Option, none, some, List, [], ◌∷◌, ◌++◌,
  map, Result, ok, err,
}
use renee.Bytes.{Bytes, bytes_eq}
use renee.Types.{DocumentId, CapabilityId, CreateAuthorityId, RequestId, Authenticator}
use renee.Types.Operations.{Operation, OperationSet}
use renee.Types.LoroOplogVersion.{LoroOplogVersion}
use renee.Types.ImmutableUpdate.{ImmutableUpdate}
use renee.Maps.{get}
use renee.Maps.Keys.{bytes_key}
use renee.Stored.Tables.{StoreError, Tables}
use renee.Stored.Authority.{
  DocumentAuthorization, authorize, authorize_document, is_descendant_or_self,
}
use renee.Stored.Control.{StoreControlOutcome}
use renee.Stored.Control.Commands.{grant_capability, revoke_capability}
use renee.Stored.Creation.{StoreCreateOutcome, create_document}
use renee.Stored.Updates.{StoreAcceptOutcome, accept}
use renee.Stored.Subscription.{
  BrokerChannel, UpdateSubscriptionRegistry, UpdateSubscriptionEnd, revoked, retired,
}
use renee.Stored.Subscription.Registry
use renee.Stored.Subscription.Registry.{
  SubscriptionContext, RegisterError, recognizes, contexts, register, Channel, notify,
  invalidate_document, invalidate_subscriptions, close_channel,
}
use renee.Stored.Passes.{
  StorePassOutcome, EnumerationPass, VectorBackfillPass, AuthorizedStoredUpdatePage,
  AuthorizedVectorBackfillPage, Context, Token, any_of, keep_if,
}
use renee.Stored.Passes.Enumeration
use renee.Stored.Passes.Enumeration.{StoreEnumerateStart}
use renee.Stored.Passes.Vector
use renee.Stored.Passes.Vector.{StoreVectorBackfillStart}

pub record DurableUpdateStore : Type 0 where
  pub tables : Tables
  pub enumeration_passes : List EnumerationPass
  pub generation : Bytes
  pub subscriptions : UpdateSubscriptionRegistry
  pub vector_passes : List VectorBackfillPass

pub data StoreSubscribeOutcome : Type 0 where
  acknowledged : ℕ → StoreSubscribeOutcome
  authorization_denied backpressure : StoreSubscribeOutcome

-- `open_broker_channel`.
unfoldable pub open_broker_channel :
    DurableUpdateStore → Option (BrokerChannel × DurableUpdateStore)
open_broker_channel s = elim (Registry.open_channel s.subscriptions) [
  | none ↦ none
  | some (channel, registry) ↦ some (channel, record s { subscriptions = registry })
]

unfoldable pub close_broker_channel : DurableUpdateStore → BrokerChannel → DurableUpdateStore
close_broker_channel s channel = if not (recognizes s.subscriptions channel) then s else record s {
  enumeration_passes =
      keep_if (λ pass. not (pass.channel_id == channel.lease)) s.enumeration_passes;
  vector_passes = keep_if (λ pass. not (pass.channel_id == channel.lease)) s.vector_passes;
  subscriptions = close_channel s.subscriptions channel;
}

unfoldable pub publish_committed_retirement : DurableUpdateStore → DocumentId → DurableUpdateStore
publish_committed_retirement s document_id = elim (get document_id s.tables.documents) [
  | none ↦ s
  | some row ↦
      if row.state == 1
      then record s {
        enumeration_passes =
            keep_if (λ pass. not (bytes_eq pass.document_id document_id)) s.enumeration_passes;
        vector_passes =
            keep_if (λ pass. not (bytes_eq pass.document_id document_id)) s.vector_passes;
        subscriptions = invalidate_document s.subscriptions document_id retired;
      }
      else s
]

-- `revoked_subscription_ids`: those of the contexts at or below the target.
unfoldable pub revoked_ids : Tables → DocumentId → CapabilityId → List SubscriptionContext → List ℕ
revoked_ids t document_id target_id [] = []
revoked_ids t document_id target_id (c ∷ cs) =
    let rest = revoked_ids t document_id target_id cs in
    if is_descendant_or_self t document_id target_id c.capability_id
    then c.subscription_id ∷ rest
    else rest

-- Whether a pass of the document is at or below the target.
abbrev pub is_revoked_pass : Tables → DocumentId → CapabilityId → DocumentId → CapabilityId → Bool
is_revoked_pass t document_id target_id pass_document pass_capability =
    bytes_eq pass_document document_id
    && is_descendant_or_self t document_id target_id pass_capability

-- What a committed revocation ends, by the tables before it.
unfoldable pub publish_revocation :
    DurableUpdateStore → Tables → DocumentId → CapabilityId → DurableUpdateStore
publish_revocation s committed document_id target_id = record s {
  tables = committed;
  enumeration_passes =
      keep_if
        (λ pass.
          not (is_revoked_pass s.tables document_id target_id pass.document_id pass.capability_id))
        s.enumeration_passes;
  vector_passes =
      keep_if
        (λ pass.
          not (is_revoked_pass s.tables document_id target_id pass.document_id pass.capability_id))
        s.vector_passes;
  subscriptions =
      invalidate_subscriptions s.subscriptions
        (revoked_ids s.tables document_id target_id (contexts s.subscriptions document_id)) revoked;
}

abbrev pub pass_context : BrokerChannel → DocumentId → CapabilityId → Context
pass_context channel document_id capability_id = record {
  channel_id = channel.lease;
  document_id = document_id;
  capability_id = capability_id;
}

module _ (sha256 : Bytes → Bytes) where
  -- `subscribe_updates_internal`; an acknowledgement carries the subscription's identifier.
  unfoldable pub subscribe_updates :
      DurableUpdateStore
      → BrokerChannel
      → DocumentId
      → CapabilityId
      → Authenticator
      → StoreSubscribeOutcome × DurableUpdateStore
  subscribe_updates s channel document_id capability_id authenticator =
      if not (recognizes s.subscriptions channel)
      then (authorization_denied, s)
      else if not (authorize sha256 s.tables document_id capability_id authenticator Operation.read)
      then (authorization_denied, s)
      else let (answer, registry) = register s.subscriptions channel document_id capability_id in
        (
          elim answer [
            | ok subscription_id ↦ acknowledged subscription_id
            | err RegisterError.invalid_channel ↦ authorization_denied
            | err RegisterError.backpressure ↦ backpressure
          ],
          record s { subscriptions = registry },
        )

  unfoldable pub create_document_in :
      DurableUpdateStore
      → CreateAuthorityId
      → Authenticator
      → RequestId
      → DocumentId
      → CapabilityId
      → Authenticator
      → Result StoreError StoreCreateOutcome × DurableUpdateStore
  create_document_in s create_authority_id create_authenticator request_id document_id
        root_capability_id root_authenticator =
      elim (create_document sha256 s.tables create_authority_id create_authenticator request_id
        document_id root_capability_id root_authenticator) [
          | err e ↦ (err e, s)
          | ok (outcome, committed) ↦ (ok outcome, record s { tables = committed })
        ]

  unfoldable pub grant_capability_in :
      DurableUpdateStore
      → DocumentId
      → CapabilityId
      → Authenticator
      → RequestId
      → CapabilityId
      → Authenticator
      → OperationSet
      → Result StoreError StoreControlOutcome × DurableUpdateStore
  grant_capability_in s document_id issuer_id issuer_authenticator request_id descendant_id
        authenticator operations =
      elim (grant_capability sha256 s.tables document_id issuer_id issuer_authenticator request_id
        descendant_id authenticator operations) [
          | err e ↦ (err e, s)
          | ok (outcome, committed) ↦ (ok outcome, record s { tables = committed })
        ]

  unfoldable pub revoke_capability_in :
      DurableUpdateStore
      → DocumentId
      → CapabilityId
      → Authenticator
      → RequestId
      → CapabilityId
      → Result StoreError StoreControlOutcome × DurableUpdateStore
  revoke_capability_in s document_id issuer_id issuer_authenticator request_id target_id =
      elim (revoke_capability sha256 s.tables document_id issuer_id issuer_authenticator request_id
        target_id) [
          | err e ↦ (err e, s)
          | ok (StoreControlOutcome.inserted, committed) ↦ (
            ok StoreControlOutcome.inserted,
            publish_revocation s committed document_id target_id,
          )
          | ok (outcome, _) ↦ (ok outcome, s)
        ]

  -- `accept_internal`, with the notification.
  unfoldable pub accept_update :
      Channel
      → DurableUpdateStore
      → CapabilityId
      → Authenticator
      → ImmutableUpdate
      → Bytes
      → Result StoreError StoreAcceptOutcome × DurableUpdateStore
  accept_update send s capability_id authenticator update encoded_record =
      elim (accept sha256 s.tables capability_id authenticator update encoded_record) [
        | err e ↦ (err e, s)
        | ok (StoreAcceptOutcome.inserted, committed) ↦ (
          ok StoreAcceptOutcome.inserted,
          record s {
            tables = committed;
            subscriptions = notify send s.subscriptions update.document_id update.update_id;
          },
        )
        | ok (outcome, _) ↦ (ok outcome, s)
      ]

  unfoldable pub enumerate_authorized :
      DurableUpdateStore
      → BrokerChannel
      → DocumentId
      → CapabilityId
      → Authenticator
      → StoreEnumerateStart
      → ℕ
      → ℕ
      → ℕ
      → (ℕ → Option Token)
      → Result StoreError (StorePassOutcome AuthorizedStoredUpdatePage) × DurableUpdateStore
  enumerate_authorized s channel document_id capability_id authenticator start limit now later
        draw =
      if not (recognizes s.subscriptions channel)
      then (ok StorePassOutcome.authorization_denied, s)
      else elim (authorize_document sha256 s.tables document_id capability_id authenticator
          Operation.read) [
            | DocumentAuthorization.denied ↦ (ok StorePassOutcome.authorization_denied, s)
            | DocumentAuthorization.retired ↦ (ok StorePassOutcome.retired_document, s)
            | DocumentAuthorization.authorized ↦
                let (answer, passes) =
                  Enumeration.enumerate s.tables s.generation
                    (pass_context channel document_id capability_id) limit now later draw
                    s.enumeration_passes start in
                (answer, record s { enumeration_passes = passes })
          ]

  unfoldable pub vector_backfill_authorized :
      DurableUpdateStore
      → BrokerChannel
      → DocumentId
      → CapabilityId
      → Authenticator
      → LoroOplogVersion
      → StoreVectorBackfillStart
      → ℕ
      → ℕ
      → ℕ
      → (ℕ → Option Token)
      → Result StoreError (StorePassOutcome AuthorizedVectorBackfillPage) × DurableUpdateStore
  vector_backfill_authorized s channel document_id capability_id authenticator version start limit
        now later draw =
      if not (recognizes s.subscriptions channel)
      then (ok StorePassOutcome.authorization_denied, s)
      else elim (authorize_document sha256 s.tables document_id capability_id authenticator
          Operation.read) [
            | DocumentAuthorization.denied ↦ (ok StorePassOutcome.authorization_denied, s)
            | DocumentAuthorization.retired ↦ (ok StorePassOutcome.retired_document, s)
            | DocumentAuthorization.authorized ↦
                let (answer, passes) =
                  Vector.vector_backfill s.tables (pass_context channel document_id capability_id)
                    version limit now later draw s.vector_passes start in
                (answer, record s { vector_passes = passes })
          ]
