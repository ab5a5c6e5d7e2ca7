-- ===== src/Consensus/Partition/Groups.antt =====
-- How a partition splits the validators: crates/sccgub-consensus/src/partition.rs.
use scc_blockchain.Prelude.{
  true, ltb, ◌/◌, All, ◌⊎◌, leb→le, ℕ, ◌+◌, ◌-◌, ◌*◌, ◌%◌, ◌≤◌, ◌<◌, ◌≡◌, refl, [], ◌∷◌, leb, arith,
  length, Bool-cases, inl, inr,
}
use scc_blockchain.Prelude.Words.{u64_max}
use scc_blockchain.Consensus.Quorum.{mem, Hash}
use scc_blockchain.Consensus.Partition.{
  PartitionConfig, PartitionDetector, ValidatorGroup, partitioned, least, greatest, low_group,
  high_group, midpoint_of, canonical_index, detect,
}
use scc_blockchain.Consensus.Partition.Heights.{
  reporters, heights, low-reporters, high-reporters, high-above, low-below, low-reached,
  high-reached, low-bound, high-bound, least-le, greatest-ge, low-member, high-member, IsFar,
  greatest-bound, midpoint-lem, least-bound, greatest-above, least-reached, greatest-reached,
  bound_of_mem,
}

-- What the two groups of a partition are: `lowest` is the least reported height, the higher group's
-- height is the greatest one, and the groups are who is at most halfway between them and who is
-- above. The two heights are more than the threshold apart. A group's height is the greatest of its members'.
pub record IsSplit (threshold : ℕ) (d : PartitionDetector) (low high : ValidatorGroup)
    (canonical_group_index : ℕ) : Type 0 where
  pub lowest : ℕ
  pub lowest_reached : mem lowest (heights d) ≡ true
  pub lowest_bound : All (λ e. lowest ≤ e.1) d
  pub high_reached : mem high.max_height (heights d) ≡ true
  pub diverged : threshold < high.max_height - lowest
  pub high_bound : All (λ e. e.1 ≤ high.max_height) d
  pub low_is : low.validators ≡ reporters (λ h. leb (2 * h) (lowest + high.max_height)) d
  pub high_is : high.validators ≡ reporters (λ h. ltb (lowest + high.max_height) (2 * h)) d
  pub low_reached : mem low.max_height (heights d) ≡ true
  pub low_bound : All (λ e. (e.1 ≤ low.max_height) ⊎ (lowest + high.max_height < 2 * e.1)) d
  pub low_half : 2 * low.max_height ≤ lowest + high.max_height
  pub low_members : 0 < length low.validators
  pub high_members : 0 < length high.validators
  pub canonical :
      ((canonical_group_index ≡ 0) × (length high.validators ≤ length low.validators))
      ⊎ ((canonical_group_index ≡ 1) × (length low.validators < length high.validators))

-- The greatest reported height is that of the higher group.
greatest_high :
    (m h : ℕ) (v : Hash) (d : PartitionDetector)
    → m < greatest h d
    → greatest h d ≡ (high_group m ((v, h) ∷ d)).max_height
greatest_high m h v d q =
    let e : PartitionDetector = (v, h) ∷ d in
    let top : ℕ = (high_group m e).max_height in
    let some_high = high-member m h v d q in
    let above = high-above m e some_high in
    let up : greatest h d ≤ top =
      bound_of_mem (greatest h d) top e (high-bound m top e (omega (arith, above)) (omega arith))
        (greatest-reached h d) in
    let down : top ≤ greatest h d =
      bound_of_mem top (greatest h d) e
        (greatest-ge h d, greatest-above (greatest h d) h d (omega arith))
        (high-reached m e some_high) in
    omega (arith, up, down)

-- The midpoint of the code is half the sum, where that fits.
midpoint-half :
    (low high : ℕ) → low ≤ high → 2 * high ≤ u64_max → midpoint_of low high ≡ (low + high) / 2
midpoint-half low high l p =
    let fits : (low + high) % (u64_max + 1) ≡ low + high = omega arith in rw fits refl

canonical_index-lem :
    (low high : ValidatorGroup)
    → ((canonical_index low high ≡ 0) × (length high.validators ≤ length low.validators))
      ⊎ ((canonical_index low high ≡ 1) × (length low.validators < length high.validators))
canonical_index-lem low high =
    elim (Bool-cases (leb (length high.validators) (length low.validators))) [
      | inl c ↦ rw c (inl (refl, leb→le _ _ c))
      | inr c ↦ rw c (inr (refl, ground (arith, c)))
    ]

groups-IsSplit :
    (t m h : ℕ) (v : Hash) (d : PartitionDetector)
    → t < greatest h d - least h d
    → least h d ≤ m
    → m < greatest h d
    → m ≡ (least h d + greatest h d) / 2
    → let e = (v, h) ∷ d in
      IsSplit t e
        (low_group m e)
        (high_group m e)
        (canonical_index (low_group m e) (high_group m e))
groups-IsSplit t m h v d far p q half =
    let e : PartitionDetector = (v, h) ∷ d in
    let low : ValidatorGroup = low_group m e in
    let high : ValidatorGroup = high_group m e in
    let top = greatest_high m h v d q in
    let s : ℕ = least h d + high.max_height in
    let half' : m ≡ s / 2 = rw (← top) half in
    let some_low = low-member m h v d p in
    let some_high = high-member m h v d q in
    let below = low-below m e in
    let above = high-above m e some_high in
    record {
      lowest = least h d;
      lowest_reached = least-reached h d;
      lowest_bound = (least-le h d, least-bound (least h d) h d (omega arith));
      high_reached = high-reached m e some_high;
      diverged = rw top at far;
      high_bound = high-bound m high.max_height e (omega (arith, above)) (omega arith);
      low_is = low-reporters m s e half';
      high_is = high-reporters m s e half';
      low_reached = low-reached m e some_low;
      low_bound = low-bound m s low.max_height e half' (omega arith);
      low_half = omega (arith, below, half');
      low_members = some_low;
      high_members = some_high;
      canonical = canonical_index-lem low high;
    }

split_inj :
    (a b c d : ValidatorGroup) (i j : ℕ)
    → partitioned a b i ≡ partitioned c d j
    → (a ≡ c) × (b ≡ d) × (i ≡ j)
split_inj a b c d i j e = (cc, cc, cc)

-- Where twice any reported height fits a u64, a partition that `detect` reports splits the validators
-- by their heights: the lower group is those who reported at most half the sum of the least and the
-- greatest height, the higher group the others, each in the order of the detector. Both have members,
-- the height of each group is the greatest that its members reported, and the greatest height is more
-- than the threshold above the least. The canonical group is the
-- lower one unless the higher one has more validators.
pub detect-IsSplit :
    (config : PartitionConfig) (d : PartitionDetector) (low high : ValidatorGroup) (i : ℕ)
    → IsFar d
    → detect config d ≡ partitioned low high i
    → IsSplit config.divergence_threshold d low high i
unfolding detect
detect-IsSplit config [] low high i b e = absurd (cc e)
detect-IsSplit config ((v, h) ∷ d) low high i b e =
    elim (Bool-cases (leb (greatest h d - least h d) config.divergence_threshold)) [
      | inl n ↦ absurd (cc (rw n at e))
      | inr n ↦
          let m : ℕ = midpoint_of (least h d) (greatest h d) in
          let far : config.divergence_threshold < greatest h d - least h d = ground (arith, n) in
          let order : least h d ≤ greatest h d = omega (arith, least-le h d, greatest-ge h d) in
          let room = greatest-bound h d b.0 b.1 in
          let mid =
            midpoint-lem (least h d) (greatest h d) config.divergence_threshold order far room in
          let made =
            groups-IsSplit config.divergence_threshold m h v d far mid.0 mid.1
              (midpoint-half (least h d) (greatest h d) order room) in
          let whole : PartitionDetector = (v, h) ∷ d in
          let same =
            split_inj (low_group m whole) (high_group m whole) low high
              (canonical_index (low_group m whole) (high_group m whole)) i (rw n at e) in
          rw (← same.0, ← same.1, ← same.2) made
    ]
