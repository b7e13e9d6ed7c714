-- ===== src/Stored/Passes/Enumeration/Bounds.antt =====
-- crates/renee-stored/src/store.rs: how many passes an enumeration leaves.
use renee.Prelude.{
  ℕ, ◌≤◌, ◌<◌, inl, inr, Bool, true, false, not, ◌||◌, ltb, leb, ◌==◌, Bool-cases, Option-cases,
  Result-cases, if◌then◌else◌, length, length-append, Option, none, some, List, arith,
}
use renee.Bytes.{Bytes, bytes_eq}
use renee.Types.AcceptanceSequence.{AcceptanceSequence, origin}
use renee.Stored.Tables.{sqlite, invalid_cursor, entropy_unavailable, corrupt, Tables}
use renee.Stored.Updates.Pages.{StoredUpdatePage, high_water_sequence_in, enumerate_in}
use renee.Stored.Passes.{
  EnumerationPass, EnumerationTokenMode, continue_mode, after_tail_mode, Context,
  enumeration_context, same_context, Token, keep_if, find, can_admit, mode_eq,
  enumeration_pass_contains_token, mint_enumeration_token,
}
use renee.Stored.Passes.Admission.{length-keep_if, length-replace_first, length-swap_remove}
use renee.Stored.Passes.Enumeration.{
  StoreEnumerateStart, origin_start, continue_start, after_tail, Answer, start_pass,
  enumerate_origin, advance_pass, continue_current, retried, enumerate_token, enumerate,
}

abbrev Within : Answer → Type 0
Within answer = length answer.1 ≤ 1024

Within-if : (b : Bool) (x y : Answer) → Within x → Within y → Within (if b then x else y)
Within-if true x y h k = h
Within-if false x y h k = k

module _ (t : Tables) (generation : Bytes) (context : Context) (limit now later : ℕ)
    (draw : ℕ → Option Token) where
  start_pass-Within :
      (terminal : AcceptanceSequence) (page : StoredUpdatePage) (passes : List EnumerationPass)
      → length passes ≤ 1024
      → Within (start_pass t generation context limit now later draw terminal page passes)
  unfolding start_pass
  start_pass-Within terminal page passes h =
      elim (Bool-cases (can_admit enumeration_context passes context)) [
        | inr full ↦ rw (start_pass, full) h
        | inl room ↦
            let short : length passes < 1024 = unfold can_admit in ground (arith, room) in
            elim (Result-cases (mint_enumeration_token passes draw)) [
              | inr (e, bad) ↦ rw (start_pass, room, bad) h
              | inl (none, good) ↦ rw (start_pass, room, good) h
              | inl (some token, good) ↦
                  rw (start_pass, room, good) (omega (arith, length-append passes _, short))
            ]
      ]

  origin-Within :
      (passes : List EnumerationPass)
      → length passes ≤ 1024
      → Within (enumerate_origin t generation context limit now later draw passes)
  unfolding enumerate_origin
  origin-Within passes h =
      let others =
        λ (pass : EnumerationPass). not (same_context (enumeration_context pass) context) in
      let kept : length (keep_if others passes) ≤ 1024 =
        omega (arith, length-keep_if others passes) in
      elim (Option-cases (high_water_sequence_in t context.document_id)) [
        | inl empty ↦ rw (enumerate_origin, empty) kept
        | inr (terminal, found) ↦
            elim (Result-cases (enumerate_in t context.document_id origin terminal 0 limit)) [
              | inr (e, bad) ↦ rw (enumerate_origin, found, bad) kept
              | inl (page, good) ↦
                  rw (enumerate_origin, found, good)
                    (Within-if _ _ _ kept
                      (start_pass-Within terminal page (keep_if others passes) kept))
            ]
      ]

  advance-Within :
      (passes : List EnumerationPass) (pass : EnumerationPass) (requested : EnumerationTokenMode)
      (token : Token) (lower terminal : AcceptanceSequence) (next_ordinal : ℕ)
      → length passes ≤ 1024
      → Within (
          advance_pass t generation context limit now later draw passes pass requested token lower
            terminal next_ordinal)
  unfolding advance_pass
  advance-Within passes pass requested token lower terminal next_ordinal h =
      elim (Result-cases (enumerate_in t context.document_id lower terminal next_ordinal limit)) [
        | inr (invalid_cursor, bad) ↦
            rw (advance_pass, bad) (omega (arith, length-swap_remove here passes))
        | inr (sqlite, bad) ↦ rw (advance_pass, bad) h
        | inr (entropy_unavailable, bad) ↦ rw (advance_pass, bad) h
        | inr (corrupt, bad) ↦ rw (advance_pass, bad) h
        | inl (page, good) ↦ elim (Bool-cases (length page.updates == 0)) [
          | inl empty ↦ rw (advance_pass, good, empty) h
          | inr full ↦ elim (Result-cases (mint_enumeration_token passes draw)) [
            | inr (e, bad) ↦ rw (advance_pass, good, full, bad) h
            | inl (none, fine) ↦ rw (advance_pass, good, full, fine) h
            | inl (some next, fine) ↦
                rw (advance_pass, good, full, fine)
                  (omega (arith, length-replace_first here _ passes))
          ]
        ]
      ]
    where
      here : EnumerationPass → Bool
      here p = enumeration_pass_contains_token p token requested

  current-Within :
      (passes : List EnumerationPass) (pass : EnumerationPass) (requested : EnumerationTokenMode)
      (token : Token)
      → length passes ≤ 1024
      → Within
          (continue_current t generation context limit now later draw passes pass requested token)
  unfolding continue_current
  current-Within passes pass continue_mode token h =
      advance-Within passes pass continue_mode token pass.lower_sequence_exclusive
        pass.terminal_sequence pass.current.next_ordinal h
  current-Within passes pass after_tail_mode token h =
      elim (Option-cases (high_water_sequence_in t context.document_id)) [
        | inl empty ↦ rw (continue_current, empty) h
        | inr (high_water, found) ↦ elim (Bool-cases (ltb high_water pass.terminal_sequence)) [
          | inl lower ↦ rw (continue_current, found, lower) h
          | inr reached ↦ elim (Bool-cases (high_water == pass.terminal_sequence)) [
            | inl same ↦ rw (continue_current, found, reached, same) h
            | inr more ↦
                rw (continue_current, found, reached, more)
                  (advance-Within passes pass after_tail_mode token pass.terminal_sequence
                    high_water 0 h)
          ]
        ]
      ]

  token-Within :
      (passes : List EnumerationPass) (requested : EnumerationTokenMode) (encoded : Bytes)
      → length passes ≤ 1024
      → Within (enumerate_token t generation context limit now later draw passes requested encoded)
  unfolding enumerate_token
  token-Within passes requested encoded h = elim (Bool-cases (length encoded == 32)) [
    | inr wrong ↦ rw (enumerate_token, wrong) h
    | inl right ↦
        elim (Option-cases
          (find (λ pass. enumeration_pass_contains_token pass encoded requested) passes)) [
            | inl gone ↦ rw (enumerate_token, right, gone) h
            | inr (pass, found) ↦ elim (Bool-cases (mismatched pass)) [
              | inl other ↦ rw (enumerate_token, right, found, other) h
              | inr own ↦
                  elim (Option-cases
                    (retried t generation context limit now later draw pass requested encoded)) [
                      | inr (response, known) ↦ rw (enumerate_token, right, found, own, known) h
                      | inl new ↦ elim (Bool-cases (spent pass)) [
                        | inl past ↦ rw (enumerate_token, right, found, own, new, past) h
                        | inr live ↦
                            rw (enumerate_token, right, found, own, new, live)
                              (current-Within passes pass requested encoded h)
                      ]
                    ]
            ]
          ]
  ]
    where
      mismatched : EnumerationPass → Bool
      mismatched pass =
          not (same_context (enumeration_context pass) context)
          || (not (bytes_eq pass.generation generation) || leb pass.expires_at now)

      spent : EnumerationPass → Bool
      spent pass =
          not (bytes_eq pass.current.token encoded) || not (mode_eq pass.current.mode requested)

  -- An enumeration that finds at most 1024 passes leaves at most 1024, whatever it is asked.
  pub enumerate-Within :
      (passes : List EnumerationPass) (start : StoreEnumerateStart)
      → length passes ≤ 1024
      → length (enumerate t generation context limit now later draw passes start).1 ≤ 1024
  unfolding enumerate
  enumerate-Within passes start h = go start
    where
      kept : length (keep_if (λ pass. ltb now pass.expires_at) passes) ≤ 1024
      kept =
          omega (arith, length-keep_if (λ (pass : EnumerationPass). ltb now pass.expires_at) passes)

      go :
          (s : StoreEnumerateStart)
          → Within (enumerate t generation context limit now later draw passes s)
      go origin_start = unfold enumerate in origin-Within _ kept
      go (continue_start encoded) = unfold enumerate in token-Within _ continue_mode encoded kept
      go (after_tail encoded) = unfold enumerate in token-Within _ after_tail_mode encoded kept
