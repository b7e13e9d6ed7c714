-- ===== src/Stored/Passes/Admission.antt =====
-- crates/renee-stored/src/store.rs: the number of enumeration passes, and the tokens that are minted.
use renee.Prelude.{
  ℕ, zero, suc, ◌+◌, ◌≤◌, ◌<◌, ◌==◌, ◌≡◌, ◌↔◌, ◌⊎◌, refl, inl, inr, Bool, true, false, Bool-cases,
  Option-cases, length, Option, some, List, [], ◌∷◌, ok, arith,
}
use renee.Bytes.{bytes_eq}
use renee.Bytes.Words.{bytes_eq_iff}
use renee.Stored.Passes.{
  EnumerationPass, EnumerationPassRetry, Token, keep_if, any_of, replace_first, swap_remove,
  last_of, without_last, mint_from, mint_enumeration_token, enumeration_pass_uses,
}

-- A draw that the loop settles on from draw `i` on: it is the first whose token is not taken.
record Settles (taken : Token → Bool) (draw : ℕ → Option Token) (i attempts : ℕ) (token : Token)
    (k : ℕ) : Type 0 where
  from : i ≤ k
  within : k < i + attempts
  drawn : draw k ≡ some token
  free : taken token ≡ false
  before : (j : ℕ) → i ≤ j → j < k → (other : Token) × (draw j ≡ some other) × (taken other ≡ true)

module _ (taken : Token → Bool) (draw : ℕ → Option Token) (token : Token) where
  mint_from_sound :
      (attempts i : ℕ)
      → mint_from attempts taken draw i ≡ ok (some token)
      → (k : ℕ) × Settles taken draw i attempts token k
  unfolding mint_from
  mint_from_sound zero i h = absurd (ground arith)
  mint_from_sound (suc attempts) i h = elim (Option-cases (draw i)) [
    | inl failed ↦ absurd (ground (arith, h, failed))
    | inr (drawn, got) ↦ elim (Bool-cases (taken drawn)) [
      | inr fresh ↦
          let same : drawn ≡ token = ground (arith, h, got, fresh) in
          (
            i,
            record {
              from = omega arith;
              within = omega arith;
              drawn = ground arith;
              free = ground arith;
              before = λ j low high. absurd (omega arith);
            },
          )
      | inl used ↦
          let (k, s) = mint_from_sound attempts (i + 1) (ground (arith, h, got, used)) in
          (
            k,
            record {
              from = omega (arith, s.from);
              within = omega (arith, s.within);
              drawn = s.drawn;
              free = s.free;
              before = λ j low high. elim (Bool-cases (j == i)) [
                | inl first ↦ (drawn, ground (arith, got, first), used)
                | inr later ↦ s.before j (ground arith) high
              ];
            },
          )
    ]
  ]

  mint_from_complete :
      (attempts i k : ℕ)
      → Settles taken draw i attempts token k
      → mint_from attempts taken draw i ≡ ok (some token)
  unfolding mint_from
  mint_from_complete zero i k s = absurd (omega (arith, s.from, s.within))
  mint_from_complete (suc attempts) i k s = elim (Bool-cases (k == i)) [
    | inl here ↦
        let at : k ≡ i = ground arith in
        let got : draw i ≡ some token = rw (← at) s.drawn in rw (got, mint_from, s.free) refl
    | inr later ↦
        let behind : i < k = ground (arith, s.from) in
        let (other, got, used) = s.before i (omega arith) behind in
        rw (got, mint_from, used)
          (mint_from_complete attempts (i + 1) k (record {
            from = omega (arith, behind);
            within = omega (arith, s.within);
            drawn = s.drawn;
            free = s.free;
            before = λ j low high. s.before j (omega arith) high;
          }))
  ]

-- A pass answers to the token: it is that of its position, or that of the page it can repeat.
abbrev pub Answers : Token → EnumerationPass → Type 0
Answers token pass =
    (pass.current.token ≡ token)
    ⊎ ((retry : EnumerationPassRetry) × (pass.retry ≡ some retry) × (retry.token ≡ token))

abbrev pub IsInUse : Token → List EnumerationPass → Type 0
IsInUse token [] = ⊥
IsInUse token (pass ∷ passes) = Answers token pass ⊎ IsInUse token passes

enumeration_pass_uses_iff :
    (token : Token) (pass : EnumerationPass)
    → (enumeration_pass_uses token pass ≡ true) ↔ Answers token pass
unfolding enumeration_pass_uses
enumeration_pass_uses_iff token pass = elim (Option-cases pass.retry) [
  | inl alone ↦ (
    λ h. inl ((bytes_eq_iff pass.current.token token).0 (ground (arith, h, alone))),
    λ a. elim a [
      | inl same ↦ let here = (bytes_eq_iff pass.current.token token).1 same in ground arith
      | inr (retry, held, same) ↦ absurd (ground (arith, alone, held))
    ],
  )
  | inr (retry, held) ↦ (
    λ h. elim (Bool-cases (bytes_eq pass.current.token token)) [
      | inl here ↦ inl ((bytes_eq_iff pass.current.token token).0 here)
      | inr other ↦
          inr (retry, held, (bytes_eq_iff retry.token token).0 (ground (arith, h, held, other)))
    ],
    λ a. elim a [
      | inl same ↦ let here = (bytes_eq_iff pass.current.token token).1 same in ground arith
      | inr (one, there, same) ↦
          let equal : one ≡ retry = ground (arith, held, there) in
          let here = (bytes_eq_iff one.token token).1 same in
          let moved : bytes_eq retry.token token ≡ true = rw (← equal) here in
          ground (arith, held, moved)
    ],
  )
]

any_of_iff :
    (token : Token) (passes : List EnumerationPass)
    → (any_of (enumeration_pass_uses token) passes ≡ true) ↔ IsInUse token passes
unfolding any_of
any_of_iff token [] = (λ h. absurd (ground arith), λ h. absurd h)
any_of_iff token (pass ∷ passes) =
    let here = enumeration_pass_uses_iff token pass in
    let later = any_of_iff token passes in
    (
      λ h. elim (Bool-cases (enumeration_pass_uses token pass)) [
        | inl used ↦ inl (here.0 used)
        | inr other ↦ inr (later.0 (ground (arith, h, other)))
      ],
      λ h. elim h [
        | inl a ↦ let used = here.1 a in ground arith
        | inr b ↦ let used = later.1 b in ground arith
      ],
    )

-- A token is minted exactly when one of the first four random draws is the first whose token no pass
-- answers to, neither at its position nor for the page that it can repeat, and it is that token.
pub mint_enumeration_token_iff :
    (passes : List EnumerationPass) (draw : ℕ → Option Token) (token : Token)
    → (mint_enumeration_token passes draw ≡ ok (some token)) ↔ (
        (k : ℕ) × (k < 4)
        × (draw k ≡ some token)
        × (¬ (IsInUse token passes))
        × ((j : ℕ) → j < k → (other : Token) × (draw j ≡ some other) × IsInUse other passes))
unfolding mint_enumeration_token
mint_enumeration_token_iff passes draw token = (
  λ h.
      let (k, s) = mint_from_sound taken draw token 4 0 h in
      (
        k,
        omega (arith, s.within),
        s.drawn,
        λ used.
            let found = (any_of_iff token passes).1 used in absurd (ground (arith, s.free, found)),
        λ j low.
            let (other, got, used) = s.before j (omega arith) low in
            (other, got, (any_of_iff other passes).0 used),
      ),
  λ (k, within, drawn, unused, before). mint_from_complete taken draw token 4 0 k (record {
    from = omega arith;
    within = omega arith;
    drawn = drawn;
    free = elim (Bool-cases (taken token)) [
      | inl used ↦ absurd (unused ((any_of_iff token passes).0 used))
      | inr free ↦ free
    ];
    before = λ j low high.
        let (other, got, used) = before j high in (other, got, (any_of_iff other passes).1 used);
  }),
)
  where
    taken : Token → Bool
    taken x = any_of (enumeration_pass_uses x) passes

module _ {A : Type 0} where
  pub length-keep_if : (p : A → Bool) (items : List A) → length (keep_if p items) ≤ length items
  unfolding keep_if
  length-keep_if p [] = omega arith
  length-keep_if p (a ∷ items) = ground (arith, length-keep_if p items)

  pub length-replace_first :
      (p : A → Bool) (b : A) (items : List A) → length (replace_first p b items) ≡ length items
  unfolding replace_first
  length-replace_first p b [] = refl
  length-replace_first p b (a ∷ items) = ground (arith, length-replace_first p b items)

  length-without_last :
      (a : A) (items : List A) → suc (length (without_last (a ∷ items))) ≡ length (a ∷ items)
  unfolding without_last
  length-without_last a [] = refl
  length-without_last a (b ∷ items) = omega (arith, length-without_last b items)

  pub length-swap_remove :
      (p : A → Bool) (items : List A) → length (swap_remove p items) ≤ length items
  unfolding swap_remove last_of
  length-swap_remove p [] = omega arith
  length-swap_remove p (a ∷ []) = ground (arith, length-swap_remove p [])
  length-swap_remove p (a ∷ (b ∷ items)) = elim (Bool-cases (p a)) [
    | inl here ↦ elim (Option-cases (last_of (b ∷ items))) [
      | inl gone ↦ ground (arith, here, gone)
      | inr (c, found) ↦ ground (arith, here, found, length-without_last b items)
    ]
    | inr other ↦ ground (arith, other, length-swap_remove p (b ∷ items))
  ]
