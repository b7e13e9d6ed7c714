-- ===== src/Stored/Passes/Vector.antt =====
-- crates/renee-stored/src/store.rs: `vector_backfill_authorized`, once the read is authorized. `now` and
-- `later` are the two instants that a call takes.
use renee.Prelude.{
  ℕ, ◌+◌, Bool, true, false, not, ◌&&◌, ◌||◌, ltb, leb, ◌==◌, if◌then◌else◌, length, Option, none,
  some, List, [], ◌∷◌, ◌++◌, Result, ok, err,
}
use renee.Bytes.{Bytes, bytes_eq}
use renee.Types.AcceptanceSequence.{AcceptanceSequence, origin}
use renee.Types.LoroOplogVersion.{LoroOplogVersion, LoroOplogVersionEntry}
use renee.Stored.Tables.{StoreError, invalid_cursor, corrupt, Tables}
use renee.Stored.Updates.Pages.{
  StoredVectorBackfillPage, high_water_sequence_in, vector_backfill_in,
}
use renee.Stored.Passes.{
  StorePassOutcome, authorized, invalid_continuation, backpressure, AuthorizedVectorBackfillPage,
  VectorPassPosition, VectorBackfillPass, Context, vector_context, same_context, Token,
  pass_idle_ttl, continuation_length, keep_if, find, replace_first, swap_remove, can_admit,
  vector_pass_contains_token, mint_vector_token,
}

pub data StoreVectorBackfillStart : Type 0 where
  origin_start : StoreVectorBackfillStart
  continue_start : Bytes → StoreVectorBackfillStart

abbrev pub Answer : Type 0
Answer = Result StoreError (StorePassOutcome AuthorizedVectorBackfillPage) × List VectorBackfillPass

-- The derived `==` of the entries.
unfoldable pub entries_eq : List LoroOplogVersionEntry → List LoroOplogVersionEntry → Bool
entries_eq [] [] = true
entries_eq (a ∷ xs) (b ∷ ys) =
    a.end_counter == b.end_counter && (a.peer_id == b.peer_id && entries_eq xs ys)
entries_eq _ _ = false

abbrev pub version_eq : LoroOplogVersion → LoroOplogVersion → Bool
version_eq a b = entries_eq a.entries b.entries

abbrev authorized_page : StoredVectorBackfillPage → Option Token → AuthorizedVectorBackfillPage
authorized_page page cursor = record { page = page; next_cursor = cursor }

abbrev pub empty_page : StoredVectorBackfillPage
empty_page = record { has_more = false; last_examined_sequence = none; updates = [] }

module _ (t : Tables) (context : Context) (version : LoroOplogVersion) (limit now later : ℕ)
    (draw : ℕ → Option Token) where
  -- A pass that continues behind `position`.
  unfoldable pub start_pass :
      AcceptanceSequence
      → StoredVectorBackfillPage
      → AcceptanceSequence
      → List VectorBackfillPass
      → Answer
  start_pass terminal page position passes =
      if not (can_admit vector_context passes context)
      then (ok backpressure, passes)
      else elim (mint_vector_token passes draw) [
        | err e ↦ (err e, passes)
        | ok none ↦ (ok backpressure, passes)
        | ok (some token) ↦ (
          ok (authorized (authorized_page page (some token))),
          passes
              ++ (record {
                capability_id = context.capability_id;
                channel_id = context.channel_id;
                current = some (record { position = position; token = token });
                document_id = context.document_id;
                expires_at = now + pass_idle_ttl;
                oplog_version = version;
                retry = none;
                terminal_sequence = terminal;
              }
                  ∷ []),
        )
      ]

  abbrev superseded : VectorBackfillPass → Bool
  superseded pass =
      same_context (vector_context pass) context && version_eq pass.oplog_version version

  unfoldable pub vector_origin : List VectorBackfillPass → Answer
  unfolding start_pass
  vector_origin passes = elim (high_water_sequence_in t context.document_id) [
    | none ↦ (ok (authorized (authorized_page empty_page none)), passes)
    | some terminal ↦
        elim (vector_backfill_in t context.document_id origin terminal version limit) [
          | err e ↦ (err e, passes)
          | ok page ↦
              if not page.has_more
              then (ok (authorized (authorized_page page none)), passes)
              else elim page.last_examined_sequence [
                | none ↦ (err corrupt, passes)
                | some position ↦
                    start_pass terminal page position
                      (keep_if (λ pass. not (superseded pass)) passes)
              ]
        ]
  ]

  abbrev zip_position : Option AcceptanceSequence → Option Token → Option VectorPassPosition
  zip_position (some position) (some token) = some (record { position = position; token = token })
  zip_position _ _ = none

  -- The pass after a page, and the answer to its token.
  unfoldable pub advanced :
      List VectorBackfillPass
      → VectorBackfillPass
      → Token
      → StoredVectorBackfillPage
      → Option AcceptanceSequence
      → Option Token
      → Answer
  advanced passes pass token page next_position next_token = (
    ok (authorized (authorized_page page next_token)),
    replace_first (λ p. vector_pass_contains_token p token)
        (record pass {
          current = zip_position next_position next_token;
          expires_at = later + pass_idle_ttl;
          retry = some (record { response = authorized_page page next_token; token = token });
        })
        passes,
  )

  unfoldable pub advance_pass :
      List VectorBackfillPass → VectorBackfillPass → Token → VectorPassPosition → Answer
  unfolding advanced
  advance_pass passes pass token current =
      elim (vector_backfill_in t context.document_id current.position pass.terminal_sequence version
        limit) [
          | err invalid_cursor ↦ (
            ok invalid_continuation,
            swap_remove (λ p. vector_pass_contains_token p token) passes,
          )
          | err e ↦ (err e, passes)
          | ok page ↦
              if not page.has_more
              then advanced passes pass token page none none
              else elim page.last_examined_sequence [
                | none ↦ (err corrupt, passes)
                | some position ↦ elim (mint_vector_token passes draw) [
                  | err e ↦ (err e, passes)
                  | ok none ↦ (ok backpressure, passes)
                  | ok (some next) ↦ advanced passes pass token page (some position) (some next)
                ]
              ]
        ]

  abbrev retried : VectorBackfillPass → Token → Option AuthorizedVectorBackfillPage
  retried pass token = elim pass.retry [
    | none ↦ none
    | some retry ↦ if bytes_eq retry.token token then some retry.response else none
  ]

  unfoldable pub vector_token : List VectorBackfillPass → Bytes → Answer
  unfolding advance_pass
  vector_token passes encoded =
      if not (length encoded == continuation_length)
      then (ok invalid_continuation, passes)
      else elim (find (λ pass. vector_pass_contains_token pass encoded) passes) [
        | none ↦ (ok invalid_continuation, passes)
        | some pass ↦
            if not (same_context (vector_context pass) context)
              || (not (version_eq pass.oplog_version version) || leb pass.expires_at now)
            then (ok invalid_continuation, passes)
            else elim (retried pass encoded) [
              | some response ↦ (ok (authorized response), passes)
              | none ↦ elim pass.current [
                | none ↦ (ok invalid_continuation, passes)
                | some current ↦
                    if not (bytes_eq current.token encoded)
                    then (ok invalid_continuation, passes)
                    else advance_pass passes pass encoded current
              ]
            ]
      ]

  -- `vector_backfill_authorized`, from the first instant on.
  unfoldable pub vector_backfill : List VectorBackfillPass → StoreVectorBackfillStart → Answer
  unfolding vector_origin vector_token
  vector_backfill passes start =
      let live = keep_if (λ pass. ltb now pass.expires_at) passes in
      elim start [
        | origin_start ↦ vector_origin live
        | continue_start encoded ↦ vector_token live encoded
      ]
