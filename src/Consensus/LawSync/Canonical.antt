-- ===== src/Consensus/LawSync/Canonical.antt =====
-- Which law set becomes canonical: crates/sccgub-consensus/src/law_sync.rs.
use scc_blockchain.Prelude.{
  subst, ℕ, suc, ◌+◌, ◌%◌, ◌≤◌, ◌<◌, ◌≡◌, ◌↔◌, refl, sym, ◌∙◌, ap, false, none, some, List, [], ◌∷◌,
  ◌==◌, ==_iff, leb, if◌then◌else◌, length, arith, Bool-cases, Option-cases, inl, inr,
}
use scc_blockchain.Prelude.Words.{u32_max}
use scc_blockchain.Prelude.Map.{Map, lookup, nat_eq}
use scc_blockchain.Consensus.Quorum.{Hash, quorum_of}
use scc_blockchain.Consensus.LawSync.{
  LawSyncRound, LawSyncResult, consensus, put, or_none, count_votes, divergent, first_quorum,
  evaluate,
}

-- How many validators proposed the law set.
abbrev pub votes_for : Hash → Map Hash Hash → ℕ
votes_for law [] = 0
votes_for law ((v, h) ∷ ps) = let rest = votes_for law ps in if h == law then suc rest else rest

-- Keys in ascending order.
abbrev Above : {V : Type 0} → Hash → Map Hash V → Type 0
Above k [] = Unit
Above k ((j, w) ∷ m) = (k < j) × Above k m

abbrev IsOrdered : {V : Type 0} → Map Hash V → Type 0
IsOrdered [] = Unit
IsOrdered ((k, v) ∷ m) = Above k m × IsOrdered m

module _ {V : Type 0} where
  Above-lookup : (k : Hash) (m : Map Hash V) → Above k m → lookup k m ≡ none
  Above-lookup k [] a = refl
  Above-lookup k ((j, w) ∷ m) a = ground (arith, Above-lookup k m)

  Above-trans : (i k : Hash) (m : Map Hash V) → i < k → Above k m → Above i m
  Above-trans i k [] h a = tt
  Above-trans i k ((j, w) ∷ m) h a = (omega (arith, a.0), Above-trans i k m h a.1)

  put-Above : (i k : Hash) (v : V) (m : Map Hash V) → i < k → Above i m → Above i (put k v m)
  put-Above i k v [] h a = (h, tt)
  put-Above i k v ((j, w) ∷ m) h a = ground (arith, put-Above i k v m)

  put-IsOrdered : (k : Hash) (v : V) (m : Map Hash V) → IsOrdered m → IsOrdered (put k v m)
  put-IsOrdered k v [] o = (tt, tt)
  put-IsOrdered k v ((j, w) ∷ m) o =
      ground (arith, put-IsOrdered k v m, put-Above j k v m, Above-trans k j m)

  lookup-put_self : (k : Hash) (v : V) (m : Map Hash V) → lookup k (put k v m) ≡ some v
  lookup-put_self k v [] = ground arith
  lookup-put_self k v ((j, w) ∷ m) = ground (arith, lookup-put_self k v m)

  lookup-put_ne :
      (i k : Hash) (v : V) (m : Map Hash V) → (i == k) ≡ false → lookup i (put k v m) ≡ lookup i m
  lookup-put_ne i k v [] h = ground arith
  lookup-put_ne i k v ((j, w) ∷ m) h = ground (arith, lookup-put_ne i k v m)

-- One vote more for one law set.
put-count :
    (law j : Hash) (votes : Map Hash ℕ)
    → or_none (lookup law votes) < u32_max
    → or_none (lookup j (put law ((or_none (lookup law votes) + 1) % (u32_max + 1)) votes))
      ≡ or_none (lookup j votes) + (if law == j then 1 else 0)
put-count law j votes h =
    let up : ℕ = (or_none (lookup law votes) + 1) % (u32_max + 1) in
    let exact : up ≡ or_none (lookup law votes) + 1 = omega (arith, h) in
    elim (Bool-cases (j == law)) [
      | inl e ↦ rw ((==_iff j law).0 e, lookup-put_self law up votes) (ground (arith, exact))
      | inr e ↦ rw (lookup-put_ne j law up votes e) (ground (arith, e))
    ]

-- With few enough proposals, the loop counts the votes of each law set.
count_votes_lem :
    (ps : Map Hash Hash) (votes : Map Hash ℕ) (n : ℕ) (k : Hash)
    → IsOrdered votes
    → ((j : Hash) → or_none (lookup j votes) ≤ n)
    → n + length ps ≤ u32_max
    → IsOrdered (count_votes ps votes)
      × (or_none (lookup k (count_votes ps votes)) ≡ or_none (lookup k votes) + votes_for k ps)
count_votes_lem [] votes n k o b f = (o, omega arith)
count_votes_lem ((v, law) ∷ ps) votes n k o b f =
    let up : ℕ = (or_none (lookup law votes) + 1) % (u32_max + 1) in
    let room : or_none (lookup law votes) < u32_max = omega (arith, b law) in
    let bound : (j : Hash) → or_none (lookup j (put law up votes)) ≤ suc n =
      (λ j. ground (arith, put-count law j votes room, b j)) in
    let ih =
      count_votes_lem ps (put law up votes) (suc n) k (put-IsOrdered law up votes o) bound
        (omega (arith, f)) in
    (ih.0, ground (arith, ih.1, put-count law k votes room))

-- What `first_quorum` finds has that many votes, and reaches the quorum.
first_quorum-some :
    (quorum : ℕ) (votes : Map Hash ℕ) (law : Hash) (count : ℕ)
    → IsOrdered votes
    → first_quorum quorum votes ≡ some (law, count)
    → (lookup law votes ≡ some count) × (quorum ≤ count)
first_quorum-some quorum [] law count o h = cc
first_quorum-some quorum ((k, c) ∷ votes) law count o h = elim (Bool-cases (leb quorum c)) [
  | inl e ↦ let found : some (k, c) ≡ some (law, count) = rw e at h in ground (arith, found, e)
  | inr e ↦
      let ih = first_quorum-some quorum votes law count o.1 (rw e at h) in
      ground (arith, ih, Above-lookup k votes o.0)
]

first_quorum-none :
    (quorum : ℕ) (votes : Map Hash ℕ) (law : Hash)
    → 0 < quorum
    → first_quorum quorum votes ≡ none
    → or_none (lookup law votes) < quorum
first_quorum-none quorum [] law p h = p
first_quorum-none quorum ((k, c) ∷ votes) law p h =
    ground (arith, first_quorum-none quorum votes law)

-- Two law sets share no vote.
votes_for_disjoint :
    (g h : Hash) (ps : Map Hash Hash)
    → (g == h) ≡ false
    → votes_for g ps + votes_for h ps ≤ length ps
votes_for_disjoint g h [] n = omega arith
votes_for_disjoint g h ((v, k) ∷ ps) n = ground (arith, votes_for_disjoint g h ps)

consensus_inj :
    (g h : Hash) (m n : ℕ) (ds es : List Hash)
    → Path LawSyncResult (consensus g m ds) (consensus h n es)
    → g ≡ h
consensus_inj g h m n ds es e = cc

-- When no more validators have submitted than are counted (and these fit a u32), `evaluate` of a
-- round with the quorum of `new` declares a law set canonical exactly if the validators that
-- proposed it reach the quorum, and it gives their number.
pub evaluate-consensus :
    (r : LawSyncRound) (law : Hash)
    → r.quorum ≡ quorum_of r.validator_count
    → length r.proposals ≤ r.validator_count
    → r.validator_count ≤ u32_max
    → (evaluate r ≡ consensus law (votes_for law r.proposals) (divergent law r.proposals))
      ↔ (r.quorum ≤ votes_for law r.proposals)
unfolding evaluate
evaluate-consensus r law q n u =
    let counts : (k : Hash)
        → IsOrdered (count_votes r.proposals [])
          × (or_none (lookup k (count_votes r.proposals [])) ≡ 0 + votes_for k r.proposals) =
      (λ k. count_votes_lem r.proposals [] 0 k tt (λ j. omega arith) (omega arith)) in
    let votes : Map Hash ℕ = count_votes r.proposals [] in
    let positive : 0 < r.quorum = omega (arith, q) in
    elim (Option-cases (first_quorum r.quorum votes)) [
      | inl e ↦
          let few = first_quorum-none r.quorum votes law positive e in
          (λ h. absurd (cc (rw e at h)), λ h. absurd (omega (arith, few, (counts law).1)))
      | inr ((k, c), e) ↦
          let found = first_quorum-some r.quorum votes k c ((counts law).0) e in
          let exact : c ≡ votes_for k r.proposals =
            omega (arith, (counts k).1, ap or_none found.0) in
          let result : evaluate r
              ≡ consensus k (votes_for k r.proposals) (divergent k r.proposals) =
            rw (e, exact) refl in
          (
            λ h.
                let law_found : k ≡ law = consensus_inj k law _ _ _ _ (sym result ∙ h) in
                subst (λ j. r.quorum ≤ votes_for j r.proposals) law_found
                  (omega (arith, exact, found.1)),
            λ h. elim (Bool-cases (k == law)) [
              | inl b ↦
                  subst
                    (λ j.
                      evaluate r ≡ consensus j (votes_for j r.proposals) (divergent j r.proposals))
                    ((==_iff k law).0 b) result
              | inr b ↦
                  absurd
                    (omega (arith, votes_for_disjoint k law r.proposals b, exact, found.1, h, q))
            ],
          )
    ]
