-- ===== src/Stored/Passes.antt =====
-- crates/renee-stored/src/store.rs: the passes over a captured window of updates, their admission and
-- their tokens. An instant is its seconds. The system's random bytes are an argument of what draws
-- them: `draw i` is the answer to the draw number `i` of a call, `none` where it fails.
pub mod Enumeration
pub mod Vector
pub mod Admission
use renee.Prelude.{
  ℕ, zero, suc, ◌+◌, Bool, true, false, not, ◌&&◌, ◌||◌, ltb, ◌==◌, if◌then◌else◌, length, Option,
  none, some, List, [], ◌∷◌, Result, ok, err,
}
use renee.Bytes.{Bytes, bytes_eq}
use renee.Types.{DocumentId, CapabilityId}
use renee.Types.AcceptanceSequence.{AcceptanceSequence}
use renee.Types.LoroOplogVersion.{LoroOplogVersion}
use renee.Stored.Tables.{StoreError, entropy_unavailable}
use renee.Stored.Updates.Pages.{StoredUpdatePage, StoredVectorBackfillPage}

abbrev pub max_passes : ℕ
max_passes = 1024

abbrev pub max_passes_per_authority : ℕ
max_passes_per_authority = 8

abbrev pub max_passes_per_channel : ℕ
max_passes_per_channel = 32

abbrev pub max_passes_per_document : ℕ
max_passes_per_document = 32

abbrev pub continuation_length : ℕ
continuation_length = 32

abbrev pub pass_idle_ttl : ℕ
pass_idle_ttl = 300

abbrev pub Token : Type 0
Token = Bytes

-- The authorization-preserving results of both kinds of pass.
pub data StorePassOutcome (A : Type 0) : Type 0 where
  authorized : A → StorePassOutcome A
  authorization_denied retired_document invalid_continuation backpressure : StorePassOutcome A

pub data EnumerationTokenMode : Type 0 where
  continue_mode after_tail_mode : EnumerationTokenMode

pub record AuthorizedStoredUpdatePage : Type 0 where
  pub page : StoredUpdatePage
  pub next_cursor : Option Bytes

pub record AuthorizedVectorBackfillPage : Type 0 where
  pub page : StoredVectorBackfillPage
  pub next_cursor : Option Bytes

pub record EnumerationPassPosition : Type 0 where
  pub mode : EnumerationTokenMode
  pub next_ordinal : ℕ
  pub token : Token

pub record EnumerationPassRetry : Type 0 where
  pub mode : EnumerationTokenMode
  pub response : AuthorizedStoredUpdatePage
  pub token : Token

pub record EnumerationPass : Type 0 where
  pub capability_id : CapabilityId
  pub channel_id : ℕ
  pub current : EnumerationPassPosition
  pub document_id : DocumentId
  pub expires_at : ℕ
  pub generation : Bytes
  pub lower_sequence_exclusive : AcceptanceSequence
  pub retry : Option EnumerationPassRetry
  pub terminal_sequence : AcceptanceSequence

pub record VectorPassPosition : Type 0 where
  pub position : AcceptanceSequence
  pub token : Token

pub record VectorPassRetry : Type 0 where
  pub response : AuthorizedVectorBackfillPage
  pub token : Token

pub record VectorBackfillPass : Type 0 where
  pub capability_id : CapabilityId
  pub channel_id : ℕ
  pub current : Option VectorPassPosition
  pub document_id : DocumentId
  pub expires_at : ℕ
  pub oplog_version : LoroOplogVersion
  pub retry : Option VectorPassRetry
  pub terminal_sequence : AcceptanceSequence

-- The part of a pass that its admission and its end read.
pub record Context : Type 0 where
  pub channel_id : ℕ
  pub document_id : DocumentId
  pub capability_id : CapabilityId

abbrev pub enumeration_context : EnumerationPass → Context
enumeration_context p = record {
  channel_id = p.channel_id;
  document_id = p.document_id;
  capability_id = p.capability_id;
}

abbrev pub vector_context : VectorBackfillPass → Context
vector_context p = record {
  channel_id = p.channel_id;
  document_id = p.document_id;
  capability_id = p.capability_id;
}

abbrev pub same_context : Context → Context → Bool
same_context a b =
    a.channel_id == b.channel_id
    && (bytes_eq a.document_id b.document_id && bytes_eq a.capability_id b.capability_id)

module _ {A : Type 0} where
  -- `filter(…).count()`.
  unfoldable pub count_if : (A → Bool) → List A → ℕ
  count_if p [] = 0
  count_if p (a ∷ items) = if p a then suc (count_if p items) else count_if p items

  -- `Vec::retain`.
  unfoldable pub keep_if : (A → Bool) → List A → List A
  keep_if p [] = []
  keep_if p (a ∷ items) = let rest = keep_if p items in if p a then a ∷ rest else rest

  -- `iter().any(…)`.
  unfoldable pub any_of : (A → Bool) → List A → Bool
  any_of p [] = false
  any_of p (a ∷ items) = p a || any_of p items

  -- The first item that a test selects.
  unfoldable pub find : (A → Bool) → List A → Option A
  find p [] = none
  find p (a ∷ items) = if p a then some a else find p items

  -- The list with the first item that a test selects replaced.
  unfoldable pub replace_first : (A → Bool) → A → List A → List A
  replace_first p b [] = []
  replace_first p b (a ∷ items) = if p a then b ∷ items else a ∷ replace_first p b items

  unfoldable pub last_of : List A → Option A
  last_of [] = none
  last_of (a ∷ []) = some a
  last_of (a ∷ (b ∷ items)) = last_of (b ∷ items)

  unfoldable pub without_last : List A → List A
  without_last [] = []
  without_last (a ∷ []) = []
  without_last (a ∷ (b ∷ items)) = a ∷ without_last (b ∷ items)

  -- `swap_remove` at the first item that a test selects: the last item takes its place.
  unfoldable pub swap_remove : (A → Bool) → List A → List A
  unfolding last_of without_last
  swap_remove p [] = []
  swap_remove p (a ∷ items) =
      let rest = swap_remove p items in
      if p a then elim (last_of items) [ none ↦ [] | some b ↦ b ∷ without_last items ] else a ∷ rest

  -- `can_admit_enumeration_pass` and `can_admit_vector_pass`, by the context of a pass.
  unfoldable pub can_admit : (A → Context) → List A → Context → Bool
  unfolding count_if
  can_admit context passes c =
      ltb (length passes) max_passes
      && (ltb (count_if (λ p. (context p).channel_id == c.channel_id) passes) max_passes_per_channel
          && (ltb (count_if (λ p. bytes_eq (context p).document_id c.document_id) passes)
                max_passes_per_document
              && ltb
                  (count_if
                    (λ p.
                      bytes_eq (context p).document_id c.document_id
                      && bytes_eq (context p).capability_id c.capability_id)
                    passes)
                  max_passes_per_authority))

-- The loop of `mint_enumeration_token` and `mint_vector_token`: `taken` tells the tokens in use.
unfoldable pub mint_from :
    ℕ → (Token → Bool) → (ℕ → Option Token) → ℕ → Result StoreError (Option Token)
mint_from zero taken draw i = ok none
mint_from (suc attempts) taken draw i = elim (draw i) [
  | none ↦ err entropy_unavailable
  | some token ↦ elim (taken token) [
    | true ↦ mint_from attempts taken draw (i + 1)
    | false ↦ ok (some token)
  ]
]

abbrev pub mode_eq : EnumerationTokenMode → EnumerationTokenMode → Bool
mode_eq continue_mode continue_mode = true
mode_eq after_tail_mode after_tail_mode = true
mode_eq _ _ = false

unfoldable pub enumeration_pass_contains_token :
    EnumerationPass → Token → EnumerationTokenMode → Bool
enumeration_pass_contains_token pass token mode =
    (bytes_eq pass.current.token token && mode_eq pass.current.mode mode) || elim pass.retry [
      | none ↦ false
      | some retry ↦ bytes_eq retry.token token && mode_eq retry.mode mode
    ]

-- The test of `mint_enumeration_token`, in any mode.
unfoldable pub enumeration_pass_uses : Token → EnumerationPass → Bool
enumeration_pass_uses token pass =
    bytes_eq pass.current.token token
    || elim pass.retry [ none ↦ false | some retry ↦ bytes_eq retry.token token ]

unfoldable pub mint_enumeration_token :
    List EnumerationPass → (ℕ → Option Token) → Result StoreError (Option Token)
unfolding mint_from any_of enumeration_pass_uses
mint_enumeration_token passes draw =
    mint_from 4 (λ token. any_of (enumeration_pass_uses token) passes) draw 0

unfoldable pub vector_pass_contains_token : VectorBackfillPass → Token → Bool
vector_pass_contains_token pass token =
    elim pass.current [ none ↦ false | some current ↦ bytes_eq current.token token ]
    || elim pass.retry [ none ↦ false | some retry ↦ bytes_eq retry.token token ]

unfoldable pub mint_vector_token :
    List VectorBackfillPass → (ℕ → Option Token) → Result StoreError (Option Token)
unfolding mint_from any_of vector_pass_contains_token
mint_vector_token passes draw =
    mint_from 4 (λ token. any_of (λ pass. vector_pass_contains_token pass token) passes) draw 0
