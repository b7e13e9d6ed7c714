-- ===== src/Types/PublicLoroRanges/Canonical.antt =====
-- `PublicLoroRanges::new` of crates/renee-types/src/lib.rs, and its canonical lists.
use renee.Prelude.{
  ℕ, ◌+◌, ◌≤◌, ◌<◌, ◌≡◌, ◌≢◌, ◌↔◌, refl, length, Option, none, some, List, [], ◌∷◌, ok, arith,
}
use renee.Types.LoroRange.{LoroRange, operation_count, max_loro_peers, max_update_operations}
use renee.Types.PublicLoroRanges.{PublicLoroRanges, check_ranges, new}

abbrev pub Above : Option ℕ → ℕ → Type 0
Above none p = Unit
Above (some q) p = q < p

-- Each peer is above the one before it, so no peer occurs twice.
abbrev pub Ascending : Option ℕ → List LoroRange → Type 0
Ascending q [] = Unit
Ascending q (r ∷ rs) = Above q r.peer_id × Ascending (some r.peer_id) rs

abbrev pub total_operations : List LoroRange → ℕ
total_operations [] = 0
total_operations (r ∷ rs) = operation_count r + total_operations rs

pub record IsCanonical (rs : List LoroRange) : Type 0 where
  pub nonempty : rs ≢ []
  pub few : length rs ≤ max_loro_peers
  pub ascending : Ascending none rs
  pub bounded : total_operations rs ≤ max_update_operations

check_ranges_sound :
    (q : Option ℕ) (n : ℕ) (rs : List LoroRange)
    → n ≤ max_update_operations
    → check_ranges q n rs ≡ ok tt
    → Ascending q rs × (n + total_operations rs ≤ max_update_operations)
unfolding check_ranges
check_ranges_sound q n [] h e = (tt, omega arith)
check_ranges_sound none n (r ∷ rs) h e =
    ground (arith, check_ranges_sound (some r.peer_id) (n + operation_count r) rs)
check_ranges_sound (some q) n (r ∷ rs) h e =
    ground (arith, check_ranges_sound (some r.peer_id) (n + operation_count r) rs)

check_ranges_complete :
    (q : Option ℕ) (n : ℕ) (rs : List LoroRange)
    → Ascending q rs
    → n + total_operations rs ≤ max_update_operations
    → check_ranges q n rs ≡ ok tt
unfolding check_ranges
check_ranges_complete q n [] a b = refl
check_ranges_complete none n (r ∷ rs) a b =
    ground (arith, check_ranges_complete (some r.peer_id) (n + operation_count r) rs a.1)
check_ranges_complete (some q) n (r ∷ rs) a b =
    ground (arith, check_ranges_complete (some r.peer_id) (n + operation_count r) rs a.1)

-- `new` accepts exactly the canonical lists, and keeps them as they are: not empty, at most 256
-- ranges, peers strictly ascending, at most 2^20 operations together.
pub new-IsCanonical_iff :
    (rs : List LoroRange) (p : PublicLoroRanges)
    → (new rs ≡ ok p) ↔ ((p.ranges ≡ rs) × IsCanonical rs)
unfolding new
new-IsCanonical_iff [] p = (λ h. cc, λ h. absurd (h.1.nonempty refl))
new-IsCanonical_iff (r ∷ rs) p = (
  λ h. ground (arith, check_ranges_sound none 0 (r ∷ rs)),
  λ h. let c = h.1 in ground (arith, check_ranges_complete none 0 (r ∷ rs) c.ascending),
)
