-- ===== src/Tests/Updates.antt =====
-- Updates in the tables of the store, their pages and the passes over them.
use renee.Prelude.{
  ℕ, zero, suc, Option, ◌≡◌, ◌≢◌, ◌↔◌, All, ◌≤◌, ◌<◌, refl, inl, true, false, length, none, some,
  [], ◌∷◌, ok, arith,
}
use renee.Bytes.{bytes_eq}
use renee.Types.{DocumentId, UpdateId}
use renee.Types.AcceptanceSequence.{checked_next}
use renee.Types.ImmutableUpdate.{ImmutableUpdate, UpdateMetadata}
use renee.Types.LoroOplogVersion.{LoroOplogVersion, end_counter_for, search_base}
use renee.Wire.Update.Records.{record_bytes, decode_update_record, metadata_encoded_length}
use renee.Tests.Codec.{update, ranges, record_decoded}
use renee.Maps.{get, contains_key, insert}
use renee.Maps.Keys.{nat_key, bytes_key, pair_key, compare_bytes}
use renee.Stored.Verifier.{verify_live, derive_domain}
use renee.Stored.Tables.{Tables, insert_row, count_where, sum_where}
use renee.Stored.Authority.{
  authorize, authorize_document, authorize_from, presented, operation_code, document_authorization,
  is_active_descendant, active_from, is_descendant_or_self, descends_from,
}
use renee.Stored.Control.{
  inserted, insert_control_receipt, set_control_revision, next_control_revision,
  resolve_control_receipt, control_limits_exceeded, too_many_children, control_logical_bytes,
  logical_bytes,
}
use renee.Stored.Control.Commands.{
  in_subtree, revoke_rows, commit_revocation, revoke_capability, revoke_authorized,
}
use renee.Stored.Updates.{
  StoreAcceptOutcome, already_present, accept_authorized, insert_accepted, insert_update,
  insert_ranges, insert_peers, insert_document_loro_peers, sequence_taken, fetch_in,
}
use renee.Stored.Updates.Fetching.{accepted-fetch}
use renee.Stored.Updates.Pages.{
  StoredUpdatePage, StoredVectorBackfillPage, accepted_rows, insert_sorted, row_at, metadata,
  vector_backfill_in, vector_from, rows_between, any_beyond,
}
use renee.Stored.Updates.Progress.{IsPage, entry_of, window, vector_backfill_in-IsPage}
use renee.Stored.Updates.Advancing.{FitsAlone, vector_backfill_in_advances}
use renee.Stored.Passes.{EnumerationPass, continue_mode, Context, Token, mint_enumeration_token}
use renee.Stored.Passes.Admission.{IsInUse, mint_enumeration_token_iff}
use renee.Stored.Passes.Enumeration.{enumerate, origin_start}
use renee.Stored.Passes.Enumeration.Bounds.{enumerate-Within}
use renee.Stored.Subscription.{SubscriptionEntry, UpdateSubscriptionRegistry}
use renee.Stored.Broker.{DurableUpdateStore, revoke_capability_in}
use renee.Stored.Broker.Revocation.{Over, revocation_ends}
use renee.Tests.Stored.{digest, document_id, root_id, child_id, root_secret, request_id, tables}

abbrev updated_tables : Tables
updated_tables = record tables {
  document_acceptance_sequences = (update.document_id, 2) ∷ [];
  updates =
      (
        (update.document_id, update.update_id),
        record { acceptance_sequence = 1; encoded_record = record_bytes update },
      )
      ∷ [];
  update_loro_ranges =
      (((update.document_id, update.update_id), 5), record { start_counter = 0; end_counter = 2 })
      ∷ [];
  document_loro_peers = ((update.document_id, 5), tt) ∷ [];
}

update_accepted :
    accept_authorized tables update (record_bytes update)
    ≡ ok (StoreAcceptOutcome.inserted, updated_tables)
unfolding accept_authorized checked_next insert_document_loro_peers insert_peers count_where
    insert_accepted insert_update sequence_taken insert_ranges insert_row contains_key get insert
    bytes_eq
update_accepted = refl

accepted-fetch_example :
    (fetch_in updated_tables update.document_id update.update_id ≡ ok (some (7 ∷ 8 ∷ [])))
    × (accept_authorized updated_tables update (record_bytes update)
        ≡ ok (already_present, updated_tables))
    × ((d : DocumentId) (id : UpdateId)
        → ◌≢◌ {A = DocumentId × UpdateId} (d, id) (update.document_id, update.update_id)
        → get {K = DocumentId × UpdateId} (d, id) updated_tables.updates
          ≡ get {K = DocumentId × UpdateId} (d, id) [])
accepted-fetch_example =
    accepted-fetch tables updated_tables update (record_bytes update) record_decoded update_accepted

abbrev update_metadata : UpdateMetadata
update_metadata = record {
  encrypted_payload_length = 2;
  public_loro_ranges = ranges;
  update_id = update.update_id;
}

abbrev page : StoredUpdatePage
page = record { has_more = false; next_ordinal = 1; updates = update_metadata ∷ [] }

abbrev no_version : LoroOplogVersion
no_version = record { entries = [] }

abbrev vector_page : StoredVectorBackfillPage
vector_page = record {
  has_more = false;
  last_examined_sequence = some 1;
  updates = update_metadata ∷ [];
}

vector_page_selected :
    vector_backfill_in updated_tables update.document_id 0 1 no_version 100 ≡ ok vector_page
unfolding vector_backfill_in vector_from accepted_rows insert_sorted row_at rows_between metadata
    any_beyond metadata_encoded_length end_counter_for search_base bytes_eq
vector_page_selected = rw (vector_backfill_in, vector_from, record_decoded) refl

vector_backfill_in-IsPage_example :
    IsPage update.document_id no_version
      (window updated_tables update.document_id 0 1)
      64
      none
      0
      100
      vector_page
vector_backfill_in-IsPage_example =
    vector_backfill_in-IsPage updated_tables update.document_id 0 1 no_version 100 vector_page
      vector_page_selected

-- Two rows with the same record, of which a page holds one.
abbrev two_tables : Tables
two_tables = record updated_tables {
  updates =
      (
        (update.document_id, update.update_id),
        record { acceptance_sequence = 1; encoded_record = record_bytes update },
      )
      ∷ (
        (update.document_id, 99 ∷ []),
        record { acceptance_sequence = 2; encoded_record = record_bytes update },
      )
      ∷ [];
}

abbrev first_page : StoredVectorBackfillPage
first_page = record {
  has_more = true;
  last_examined_sequence = some 1;
  updates = update_metadata ∷ [];
}

first_page_selected :
    vector_backfill_in two_tables update.document_id 0 2 no_version 50 ≡ ok first_page
unfolding vector_backfill_in vector_from accepted_rows insert_sorted row_at rows_between metadata
    any_beyond metadata_encoded_length end_counter_for search_base bytes_eq
first_page_selected =
    rw (vector_backfill_in, vector_from, record_decoded, vector_from, record_decoded) refl

update_fits :
    (u : ImmutableUpdate)
    → decode_update_record (record_bytes update) ≡ ok u
    → metadata_encoded_length (entry_of u) ≤ 50
unfolding metadata_encoded_length
update_fits u h =
    let same : update ≡ u = ground (arith, record_decoded, h) in rw (← same) (omega arith)

rows_fit : All (FitsAlone 50) (window two_tables update.document_id 0 2)
unfolding accepted_rows insert_sorted rows_between bytes_eq
rows_fit = (update_fits, (update_fits, tt))

vector_backfill_in_advances_example :
    (last : ℕ) × (◌≡◌ {A = Option ℕ} (some 1) (some last)) × (0 < last) × (last ≤ 2)
vector_backfill_in_advances_example =
    vector_backfill_in_advances two_tables update.document_id 0 2 no_version 50 first_page rows_fit
      first_page_selected refl

abbrev pass : EnumerationPass
pass = record {
  capability_id = root_id;
  channel_id = 1;
  current = record { mode = continue_mode; next_ordinal = 1; token = 2 ∷ [] };
  document_id = document_id;
  expires_at = 300;
  generation = 8 ∷ [];
  lower_sequence_exclusive = 0;
  retry = none;
  terminal_sequence = 4;
}

abbrev draw : ℕ → Option Token
draw zero = some (2 ∷ [])
draw (suc _) = some (1 ∷ [])

mint_enumeration_token_iff_example :
    (mint_enumeration_token (pass ∷ []) draw ≡ ok (some (1 ∷ []))) ↔ (
      (k : ℕ) × (k < 4)
      × (draw k ≡ some (1 ∷ []))
      × (¬ (IsInUse (1 ∷ []) (pass ∷ [])))
      × ((j : ℕ) → j < k → (other : Token) × (draw j ≡ some other) × IsInUse other (pass ∷ [])))
mint_enumeration_token_iff_example = mint_enumeration_token_iff (pass ∷ []) draw (1 ∷ [])

abbrev context : Context
context = record { channel_id = 1; document_id = update.document_id; capability_id = root_id }

enumerate-Within_example :
    length (enumerate updated_tables (8 ∷ []) context 100 10 11 draw (pass ∷ []) origin_start).1
    ≤ 1024
enumerate-Within_example =
    enumerate-Within updated_tables (8 ∷ []) context 100 10 11 draw (pass ∷ []) origin_start
      (omega arith)

abbrev entry : SubscriptionEntry
entry = record {
  capability_id = child_id;
  channel = 1;
  document_id = document_id;
  subscription_id = 1;
}

abbrev registry : UpdateSubscriptionRegistry
registry = record {
  broker = 7;
  next_channel_id = 2;
  next_subscription_id = 2;
  subscriptions = entry ∷ [];
  leases = (1, tt) ∷ [];
  cells = (1, record { state = 0; queue = []; closed = false }) ∷ [];
}

abbrev broker : DurableUpdateStore
broker = record {
  tables = tables;
  enumeration_passes = pass ∷ [];
  generation = 8 ∷ [];
  subscriptions = registry;
  vector_passes = [];
}

abbrev broker_after : DurableUpdateStore
broker_after =
    (revoke_capability_in digest broker document_id root_id root_secret request_id child_id).1

revocation_answered :
    revoke_capability_in digest broker document_id root_id root_secret request_id child_id
    ≡ (ok inserted, broker_after)
unfolding revoke_capability_in revoke_capability resolve_control_receipt authorize
    authorize_document authorize_from presented operation_code document_authorization verify_live
    derive_domain revoke_authorized next_control_revision is_active_descendant active_from
    control_limits_exceeded too_many_children control_logical_bytes logical_bytes count_where
    sum_where commit_revocation insert_control_receipt set_control_revision insert_row contains_key
    get insert revoke_rows in_subtree descends_from bytes_eq compare_bytes
revocation_answered = refl

revocation_ends_example : Over 1 broker_after.subscriptions.cells
unfolding is_descendant_or_self descends_from bytes_eq contains_key get
revocation_ends_example =
    (revocation_ends digest broker broker_after document_id root_id root_secret request_id child_id
        revocation_answered).0
      entry (inl refl) refl refl refl refl
