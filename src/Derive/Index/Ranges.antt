-- ===== src/Derive/Index/Ranges.antt =====
-- Which words the index types of derive/src/index.rs accept, and what they make of them.
use bp_std.Prelude.{ℕ, ◌+◌, ◌%◌, ◌^◌, ◌≤◌, ◌<◌, ◌≡◌, ◌↔◌, ◌⊎◌, arith}
use bp_std.Prelude.Results.{ok}
use bp_std.Derive.Index.{saturating_add}
use bp_std.Derive.Index.Normal.{normal_idx}
use bp_std.Derive.Index.Hardened
use bp_std.Derive.Index.Hardened.{HardenedIndex, IsReduced, hardened_idx, hardened_add_assign}
use bp_std.Derive.Index.Derivation
use bp_std.Derive.Index.Derivation.{DerivationIndex, normal, hardened, IsInRange}

-- `HardenedIndex::try_from_index` refuses no word: it keeps the lower 31 bits, so that an
-- unhardened index is taken for the hardened one with the same child number.
pub hardened-try_from_index :
    (v : ℕ) → v < 2 ^ 32 → Hardened.try_from_index v ≡ ok (record { value = v % 2 ^ 31 })
unfolding Hardened.try_from_index
hardened-try_from_index v h = ground arith

-- A hardened index is read back from the word that it stands for.
hardened-try_from_index-index :
    (i : HardenedIndex) → IsReduced i → Hardened.try_from_index (Hardened.index i) ≡ ok i
unfolding Hardened.try_from_index Hardened.index
hardened-try_from_index-index i h = ground arith

-- A saturating addition to a hardened index that fails leaves an index out of range, whose word is
-- not that of a hardened index.
hardened-saturating_add_failed :
    (i : HardenedIndex) (n : ℕ)
    → IsReduced i
    → 2 ^ 31 ≤ i.value + n
    → n < 2 ^ 32
    → ¬ (IsReduced (saturating_add i n)) × (Hardened.index (saturating_add i n) < 2 ^ 31)
unfolding saturating_add hardened_add_assign Hardened.index
hardened-saturating_add_failed i n valid over h = (λ r. ground arith, ground arith)

-- `DerivationIndex::from_index` keeps every word, and makes an index in its range of exactly the
-- words below 2^28 and those from 2^31 on.
pub derivation-from_index :
    (v : ℕ)
    → v < 2 ^ 32
    → (Derivation.index (Derivation.from_index v) ≡ v)
      × (IsInRange (Derivation.from_index v) ↔ ((v < 2 ^ 28) ⊎ (2 ^ 31 ≤ v)))
unfolding Derivation.index Derivation.from_index
derivation-from_index v h = (ground arith, (λ r. ground arith, λ r. ground arith))

-- An index in its range has a word of 32 bits.
pub index-fits : (c : DerivationIndex) → IsInRange c → Derivation.index c < 2 ^ 32
unfolding Derivation.index Hardened.index
index-fits (normal i) h = ground arith
index-fits (hardened i) h = ground arith

-- The words that `from_index` takes back.
pub from_index-index_iff :
    (c : DerivationIndex)
    → IsInRange c
    → (Derivation.from_index (Derivation.index c) ≡ c)
      ↔ ((Derivation.index c < 2 ^ 28) ⊎ (2 ^ 31 ≤ Derivation.index c))
unfolding Derivation.index Hardened.index Derivation.from_index
from_index-index_iff (normal i) h = (λ e. ground arith, λ e. ground arith)
from_index-index_iff (hardened i) h = (λ e. ground arith, λ e. ground arith)
