-- ===== src/Stored/Passes/Enumeration.antt =====
-- crates/renee-stored/src/store.rs: `enumerate_authorized`, once the read is authorized. `now` and
-- `later` are the two instants that a call takes.
pub mod Bounds
use renee.Prelude.{
  ℕ, ◌+◌, Bool, true, false, not, ◌&&◌, ◌||◌, ltb, leb, ◌==◌, if◌then◌else◌, length, Option, none,
  some, List, [], ◌∷◌, ◌++◌, Result, ok, err,
}
use renee.Bytes.{Bytes, bytes_eq}
use renee.Types.{DocumentId}
use renee.Types.AcceptanceSequence.{AcceptanceSequence, origin}
use renee.Stored.Tables.{StoreError, invalid_cursor, corrupt, Tables}
use renee.Stored.Updates.Pages.{
  StoredUpdatePage, empty_stored_update_page, high_water_sequence_in, enumerate_in,
}
use renee.Stored.Passes.{
  StorePassOutcome, authorized, invalid_continuation, backpressure, EnumerationTokenMode,
  continue_mode, after_tail_mode, AuthorizedStoredUpdatePage, EnumerationPassPosition,
  EnumerationPassRetry, EnumerationPass, Context, enumeration_context, same_context, Token,
  pass_idle_ttl, continuation_length, keep_if, find, replace_first, swap_remove, can_admit, mode_eq,
  enumeration_pass_contains_token, mint_enumeration_token,
}

pub data StoreEnumerateStart : Type 0 where
  origin_start : StoreEnumerateStart
  continue_start after_tail : Bytes → StoreEnumerateStart

abbrev pub Answer : Type 0
Answer = Result StoreError (StorePassOutcome AuthorizedStoredUpdatePage) × List EnumerationPass

abbrev pub next_mode : StoredUpdatePage → EnumerationTokenMode
next_mode page = if page.has_more then continue_mode else after_tail_mode

abbrev authorized_page : StoredUpdatePage → Option Token → AuthorizedStoredUpdatePage
authorized_page page cursor = record { page = page; next_cursor = cursor }

abbrev is_empty_page : StoredUpdatePage → Bool
is_empty_page page = length page.updates == 0

module _ (t : Tables) (generation : Bytes) (context : Context) (limit now later : ℕ)
    (draw : ℕ → Option Token) where
  -- The end of a start at the origin: a new pass over the window up to `terminal`.
  unfoldable pub start_pass : AcceptanceSequence → StoredUpdatePage → List EnumerationPass → Answer
  start_pass terminal page passes =
      if not (can_admit enumeration_context passes context)
      then (ok backpressure, passes)
      else elim (mint_enumeration_token passes draw) [
        | err e ↦ (err e, passes)
        | ok none ↦ (ok backpressure, passes)
        | ok (some token) ↦ (
          ok (authorized (authorized_page page (some token))),
          passes
              ++ (record {
                capability_id = context.capability_id;
                channel_id = context.channel_id;
                current = record {
                  mode = next_mode page;
                  next_ordinal = page.next_ordinal;
                  token = token;
                };
                document_id = context.document_id;
                expires_at = now + pass_idle_ttl;
                generation = generation;
                lower_sequence_exclusive = origin;
                retry = none;
                terminal_sequence = terminal;
              }
                  ∷ []),
        )
      ]

  unfoldable pub enumerate_origin : List EnumerationPass → Answer
  enumerate_origin expired_removed =
      let passes =
        keep_if (λ pass. not (same_context (enumeration_context pass) context)) expired_removed in
      elim (high_water_sequence_in t context.document_id) [
        | none ↦ (ok (authorized (authorized_page empty_stored_update_page none)), passes)
        | some terminal ↦ elim (enumerate_in t context.document_id origin terminal 0 limit) [
          | err e ↦ (err e, passes)
          | ok page ↦
              if is_empty_page page then (err corrupt, passes) else start_pass terminal page passes
        ]
      ]

  -- The pass after a page: the token in use, its successor and what a retry is answered.
  unfoldable pub advanced :
      EnumerationPass
      → EnumerationTokenMode
      → Token
      → AcceptanceSequence
      → AcceptanceSequence
      → StoredUpdatePage
      → Token
      → EnumerationPass
  advanced pass requested token lower terminal page next_token = record pass {
    current = record {
      mode = next_mode page;
      next_ordinal = page.next_ordinal;
      token = next_token;
    };
    expires_at = later + pass_idle_ttl;
    lower_sequence_exclusive = lower;
    retry = some (record {
      mode = requested;
      response = authorized_page page (some next_token);
      token = token;
    });
    terminal_sequence = terminal;
  }

  -- The next page of a pass, over the window from `lower` to `terminal`.
  unfoldable pub advance_pass :
      List EnumerationPass
      → EnumerationPass
      → EnumerationTokenMode
      → Token
      → AcceptanceSequence
      → AcceptanceSequence
      → ℕ
      → Answer
  advance_pass passes pass requested token lower terminal next_ordinal =
      let here = λ (p : EnumerationPass). enumeration_pass_contains_token p token requested in
      elim (enumerate_in t context.document_id lower terminal next_ordinal limit) [
        | err invalid_cursor ↦ (ok invalid_continuation, swap_remove here passes)
        | err e ↦ (err e, passes)
        | ok page ↦
            if is_empty_page page
            then (err corrupt, passes)
            else elim (mint_enumeration_token passes draw) [
              | err e ↦ (err e, passes)
              | ok none ↦ (ok backpressure, passes)
              | ok (some next_token) ↦ (
                ok (authorized (authorized_page page (some next_token))),
                replace_first here (advanced pass requested token lower terminal page next_token)
                    passes,
              )
            ]
      ]

  -- A token that is the current one of its pass.
  unfoldable pub continue_current :
      List EnumerationPass → EnumerationPass → EnumerationTokenMode → Token → Answer
  continue_current passes pass continue_mode token =
      advance_pass passes pass continue_mode token pass.lower_sequence_exclusive
        pass.terminal_sequence pass.current.next_ordinal
  continue_current passes pass after_tail_mode token =
      elim (high_water_sequence_in t context.document_id) [
        | none ↦ (ok invalid_continuation, passes)
        | some high_water ↦
            if ltb high_water pass.terminal_sequence
            then (ok invalid_continuation, passes)
            else if high_water == pass.terminal_sequence
            then (ok (authorized (authorized_page empty_stored_update_page none)), passes)
            else advance_pass passes pass after_tail_mode token pass.terminal_sequence high_water 0
      ]

  abbrev pub retried :
      EnumerationPass → EnumerationTokenMode → Token → Option AuthorizedStoredUpdatePage
  retried pass requested token = elim pass.retry [
    | none ↦ none
    | some retry ↦
        if bytes_eq retry.token token && mode_eq retry.mode requested
        then some retry.response
        else none
  ]

  unfoldable pub enumerate_token : List EnumerationPass → EnumerationTokenMode → Bytes → Answer
  enumerate_token passes requested encoded =
      if not (length encoded == continuation_length)
      then (ok invalid_continuation, passes)
      else elim (find (λ pass. enumeration_pass_contains_token pass encoded requested) passes) [
        | none ↦ (ok invalid_continuation, passes)
        | some pass ↦
            if not (same_context (enumeration_context pass) context)
              || (not (bytes_eq pass.generation generation) || leb pass.expires_at now)
            then (ok invalid_continuation, passes)
            else elim (retried pass requested encoded) [
              | some response ↦ (ok (authorized response), passes)
              | none ↦
                  if not (bytes_eq pass.current.token encoded)
                    || not (mode_eq pass.current.mode requested)
                  then (ok invalid_continuation, passes)
                  else continue_current passes pass requested encoded
            ]
      ]

  -- `enumerate_authorized`, from the first instant on.
  unfoldable pub enumerate : List EnumerationPass → StoreEnumerateStart → Answer
  enumerate passes start =
      let live = keep_if (λ pass. ltb now pass.expires_at) passes in
      elim start [
        | origin_start ↦ enumerate_origin live
        | continue_start encoded ↦ enumerate_token live continue_mode encoded
        | after_tail encoded ↦ enumerate_token live after_tail_mode encoded
      ]
