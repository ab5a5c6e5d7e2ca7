-- ===== src/Consensus/Partition/Heights.antt =====
-- The heights and the members of the groups: crates/sccgub-consensus/src/partition.rs.
use scc_blockchain.Prelude.{
  false, true, Bool, List, subst, ◌∙◌, ltb, sym, if◌then◌else◌, ◌/◌, All, ◌⊎◌, leb→le, ℕ, ◌+◌, ◌-◌,
  ◌*◌, ◌%◌, ◌≤◌, ◌<◌, ◌≡◌, refl, [], ◌∷◌, leb, arith, length, min, max, Bool-cases, inl, inr,
}
use scc_blockchain.Prelude.Words.{u64_max}
use scc_blockchain.Consensus.Quorum.{mem, Hash}
use scc_blockchain.Consensus.Partition.{
  PartitionDetector, least, greatest, low_group, high_group, midpoint_of,
}

-- The validators whose reported height passes a test, in the order of the detector.
abbrev pub reporters : (ℕ → Bool) → PartitionDetector → List Hash
reporters p [] = []
reporters p ((v, h) ∷ d) = let rest = reporters p d in if p h then v ∷ rest else rest

abbrev pub heights : PartitionDetector → List ℕ
heights [] = []
heights ((v, h) ∷ d) = h ∷ heights d

-- The test of the code, against one of twice the height.
pub low-reporters :
    (m s : ℕ) (d : PartitionDetector)
    → m ≡ s / 2
    → (low_group m d).validators ≡ reporters (λ h. leb (2 * h) s) d
low-reporters m s [] e = refl
low-reporters m s ((v, h) ∷ d) e =
    let same : leb h m ≡ leb (2 * h) s = ground (arith, e) in
    elim (Bool-cases (leb h m)) [
      | inl y ↦ rw (y, sym same ∙ y, low-reporters m s d e) refl
      | inr n ↦ rw (n, sym same ∙ n) (low-reporters m s d e)
    ]

pub high-reporters :
    (m s : ℕ) (d : PartitionDetector)
    → m ≡ s / 2
    → (high_group m d).validators ≡ reporters (λ h. ltb s (2 * h)) d
high-reporters m s [] e = refl
high-reporters m s ((v, h) ∷ d) e = elim (Bool-cases (leb h m)) [
  | inl y ↦
      let below : ltb s (2 * h) ≡ false = ground (arith, e, y) in
      rw (y, below) (high-reporters m s d e)
  | inr n ↦
      let above : ltb s (2 * h) ≡ true = ground (arith, e, n) in
      rw (n, above, high-reporters m s d e) refl
]

pub high-above :
    (m : ℕ) (d : PartitionDetector)
    → 0 < length (high_group m d).validators
    → m < (high_group m d).max_height
high-above m [] p = omega arith
high-above m ((v, h) ∷ d) p = ground (arith, high-above m d)

pub low-below : (m : ℕ) (d : PartitionDetector) → (low_group m d).max_height ≤ m
low-below m [] = omega arith
low-below m ((v, h) ∷ d) = ground (arith, low-below m d)

low-empty :
    (m : ℕ) (d : PartitionDetector)
    → length (low_group m d).validators ≡ 0
    → (low_group m d).max_height ≡ 0
low-empty m [] p = refl
low-empty m ((v, h) ∷ d) p = ground (arith, low-empty m d)

pub low-reached :
    (m : ℕ) (d : PartitionDetector)
    → 0 < length (low_group m d).validators
    → mem (low_group m d).max_height (heights d) ≡ true
low-reached m [] p = absurd (omega (arith, p))
low-reached m ((v, h) ∷ d) p = ground (arith, low-reached m d, low-empty m d)

high-empty :
    (m : ℕ) (d : PartitionDetector)
    → length (high_group m d).validators ≡ 0
    → (high_group m d).max_height ≡ 0
high-empty m [] p = refl
high-empty m ((v, h) ∷ d) p = ground (arith, high-empty m d)

pub high-reached :
    (m : ℕ) (d : PartitionDetector)
    → 0 < length (high_group m d).validators
    → mem (high_group m d).max_height (heights d) ≡ true
high-reached m [] p = absurd (omega (arith, p))
high-reached m ((v, h) ∷ d) p = ground (arith, high-reached m d, high-empty m d)

-- No validator of the low group is above its height.
pub low-bound :
    (m s c : ℕ) (d : PartitionDetector)
    → m ≡ s / 2
    → (low_group m d).max_height ≤ c
    → All (λ e. (e.1 ≤ c) ⊎ (s < 2 * e.1)) d
low-bound m s c [] t p = tt
low-bound m s c ((v, h) ∷ d) t p = elim (Bool-cases (leb h m)) [
  | inl y ↦
      let both : (h ≤ c) × ((low_group m d).max_height ≤ c) = ground (arith, y, p) in
      (inl both.0, low-bound m s c d t both.1)
  | inr n ↦
      let rest : (low_group m d).max_height ≤ c = ground (arith, n, p) in
      (inr (ground (arith, n, t)), low-bound m s c d t rest)
]

pub high-bound :
    (m c : ℕ) (d : PartitionDetector)
    → m ≤ c
    → (high_group m d).max_height ≤ c
    → All (λ e. e.1 ≤ c) d
high-bound m c [] q p = tt
high-bound m c ((v, h) ∷ d) q p =
    let both : (h ≤ c) × ((high_group m d).max_height ≤ c) = ground (arith, p, q) in
    (both.0, high-bound m c d q both.1)

pub least-le : (h : ℕ) (d : PartitionDetector) → least h d ≤ h
least-le h [] = omega arith
least-le h ((v, g) ∷ d) = omega (arith, least-le (min h g) d)

pub greatest-ge : (h : ℕ) (d : PartitionDetector) → h ≤ greatest h d
greatest-ge h [] = omega arith
greatest-ge h ((v, g) ∷ d) = omega (arith, greatest-ge (max h g) d)

-- Someone is at the least height and someone at the greatest.
pub low-member :
    (m h : ℕ) (v : Hash) (d : PartitionDetector)
    → least h d ≤ m
    → 0 < length (low_group m ((v, h) ∷ d)).validators
low-member m h v [] p = ground arith
low-member m h v ((u, g) ∷ d) p = elim (Bool-cases (leb h g)) [
  | inl e ↦
      let same : min h g ≡ h = omega (arith, leb→le h g e) in
      ground (arith, low-member m h v d (rw same at p))
  | inr e ↦
      let same : min h g ≡ g = ground arith in ground (arith, low-member m g u d (rw same at p))
]

pub high-member :
    (m h : ℕ) (v : Hash) (d : PartitionDetector)
    → m < greatest h d
    → 0 < length (high_group m ((v, h) ∷ d)).validators
high-member m h v [] p = ground arith
high-member m h v ((u, g) ∷ d) p = elim (Bool-cases (leb g h)) [
  | inl e ↦
      let same : max h g ≡ h = omega (arith, leb→le g h e) in
      ground (arith, high-member m h v d (rw same at p))
  | inr e ↦
      let same : max h g ≡ g = ground arith in ground (arith, high-member m g u d (rw same at p))
]

-- Heights whose sums fit a u64.
abbrev pub IsFar : PartitionDetector → Type 0
IsFar d = All (λ e. 2 * e.1 ≤ u64_max) d

pub greatest-bound :
    (h : ℕ) (d : PartitionDetector) → 2 * h ≤ u64_max → IsFar d → 2 * greatest h d ≤ u64_max
greatest-bound h [] p b = p
greatest-bound h ((v, g) ∷ d) p b =
    let top : 2 * max h g ≤ u64_max = omega (arith, b.0) in greatest-bound (max h g) d top b.1

pub midpoint-lem :
    (low high t : ℕ)
    → low ≤ high
    → t < high - low
    → 2 * high ≤ u64_max
    → (low ≤ midpoint_of low high) × (midpoint_of low high < high)
midpoint-lem low high t l p b =
    let fits : (low + high) % (u64_max + 1) ≡ low + high = omega arith in
    rw fits (omega arith, omega arith)

-- The least height is at or below each, and the greatest at or above.
pub least-bound : (c h : ℕ) (d : PartitionDetector) → c ≤ least h d → All (λ e. c ≤ e.1) d
least-bound c h [] p = tt
least-bound c h ((v, g) ∷ d) p =
    (omega (arith, least-le (min h g) d, p), least-bound c (min h g) d p)

pub greatest-above : (c h : ℕ) (d : PartitionDetector) → greatest h d ≤ c → All (λ e. e.1 ≤ c) d
greatest-above c h [] p = tt
greatest-above c h ((v, g) ∷ d) p =
    (omega (arith, greatest-ge (max h g) d, p), greatest-above c (max h g) d p)

mem-skip : (x h g : ℕ) (hs : List ℕ) → mem x (h ∷ hs) ≡ true → mem x (h ∷ g ∷ hs) ≡ true
mem-skip x h g hs m = ground (arith, m)

mem-next : (x h g : ℕ) (hs : List ℕ) → mem x (g ∷ hs) ≡ true → mem x (h ∷ g ∷ hs) ≡ true
mem-next x h g hs m = ground (arith, m)

pub least-reached : (h : ℕ) (d : PartitionDetector) → mem (least h d) (h ∷ heights d) ≡ true
least-reached h [] = ground arith
least-reached h ((v, g) ∷ d) =
    let found = λ (i : ℕ). mem (least i d) (h ∷ g ∷ heights d) ≡ true in
    elim (Bool-cases (leb h g)) [
      | inl e ↦
          let same : min h g ≡ h = omega (arith, leb→le h g e) in
          subst found (sym same) (mem-skip (least h d) h g (heights d) (least-reached h d))
      | inr e ↦
          let same : min h g ≡ g = ground (arith, e) in
          subst found (sym same) (mem-next (least g d) h g (heights d) (least-reached g d))
    ]

pub greatest-reached : (h : ℕ) (d : PartitionDetector) → mem (greatest h d) (h ∷ heights d) ≡ true
greatest-reached h [] = ground arith
greatest-reached h ((v, g) ∷ d) =
    let found = λ (i : ℕ). mem (greatest i d) (h ∷ g ∷ heights d) ≡ true in
    elim (Bool-cases (leb g h)) [
      | inl e ↦
          let same : max h g ≡ h = omega (arith, leb→le g h e) in
          subst found (sym same) (mem-skip (greatest h d) h g (heights d) (greatest-reached h d))
      | inr e ↦
          let same : max h g ≡ g = ground (arith, e) in
          subst found (sym same) (mem-next (greatest g d) h g (heights d) (greatest-reached g d))
    ]

-- A reported height obeys a bound of the reports.
pub bound_of_mem :
    (x c : ℕ) (d : PartitionDetector) → All (λ e. e.1 ≤ c) d → mem x (heights d) ≡ true → x ≤ c
bound_of_mem x c [] b m = absurd (cc m)
bound_of_mem x c ((v, h) ∷ d) b m = ground (arith, b.0, bound_of_mem x c d b.1, m)
