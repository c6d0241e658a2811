-- ===== src/Queue/Bbolt.antt =====
-- What the queue relies on of go.etcd.io/bbolt: one bucket, whose keys are the 8-byte big-endian
-- sequence numbers, so that the cursor's byte order is the order of the numbers.
pub mod Keys
use dcim_data_reader.Prelude.{
  ℕ, suc, ◌<◌, ◌≡◌, Option, some, List, [], ◌∷◌, ◌++◌, ◌==◌, if◌then◌else◌,
}

abbrev pub AllBelow : ℕ → List (ℕ × List ℕ) → Type 0
AllBelow n [] = Unit
AllBelow n ((key, value) ∷ rest) = (key < n) × AllBelow n rest

abbrev pub without : ℕ → List (ℕ × List ℕ) → List (ℕ × List ℕ)
without n [] = []
without n ((key, value) ∷ rest) =
    let later = without n rest in if key == n then later else (key, value) ∷ later

-- A bucket as its cursor walks it, and its sequence. An operation that fails gives `none`.
pub record Bolt : Type 1 where
  pub Bucket : Type 0
  pub entries : Bucket → List (ℕ × List ℕ)
  pub sequence : Bucket → ℕ
  pub put : ℕ → List ℕ → Bucket → Option Bucket
  pub delete : ℕ → Bucket → Option Bucket
  pub next_sequence : Bucket → Option (ℕ × Bucket)
  -- NextSequence gives the successor of the bucket's sequence, and changes no entry.
  pub next_sequence_gives :
      (b b' : Bucket) (n : ℕ)
      → next_sequence b ≡ some (n, b')
      → (n ≡ suc (sequence b)) × (sequence b' ≡ n) × (entries b' ≡ entries b)
  -- A key above all the others is put behind them.
  pub put_appends :
      (b b' : Bucket) (n : ℕ) (v : List ℕ)
      → put n v b ≡ some b'
      → AllBelow n (entries b)
      → (sequence b' ≡ sequence b) × (entries b' ≡ entries b ++ (n, v) ∷ [])
  -- Delete takes the key's entry out.
  pub delete_removes :
      (b b' : Bucket) (n : ℕ)
      → delete n b ≡ some b'
      → (sequence b' ≡ sequence b) × (entries b' ≡ without n (entries b))
