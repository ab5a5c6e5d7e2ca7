-- ===== src/Consensus/ForkChoice/Best.antt =====
-- The winner of the fork choice, and when a reorganization is safe:
-- crates/sccgub-consensus/src/fork_choice.rs.
use mathlib.Core.List.{append-nil, append_assoc}
use mathlib.Core.Bool.{true≢false}
use scc_blockchain.Prelude.{
  All, ◌∙◌, get_elem?-append_last, get_elem?-append_left, length-append, subst, sym, ℕ, suc, zero,
  ◌+◌, ◌<◌, Bool, true, false, some, List, [], ◌∷◌, get_elem?, ◌≡◌, refl, inl, inr, ◌⊎◌, ◌↔◌, arith,
  some_inj, length, ◌++◌,
}
use scc_blockchain.Prelude.Result.{ok}
use scc_blockchain.Consensus.ForkChoice.{
  ChainTip, score_cmp, is_greater, best_from, select_canonical_tip, selected, is_safe_reorg,
}

-- One tip scores more than another: by finalized depth, then voting power, then block id.
abbrev pub Outscores : ChainTip → ChainTip → Type 0
Outscores a b =
    (b.finalized_depth < a.finalized_depth)
    ⊎ ((a.finalized_depth ≡ b.finalized_depth)
        × ((b.cumulative_voting_power < a.cumulative_voting_power)
            ⊎ ((a.cumulative_voting_power ≡ b.cumulative_voting_power)
                × (b.block_id < a.block_id))))

pub score_cmp_iff : (a b : ChainTip) → (is_greater (score_cmp a b) ≡ true) ↔ Outscores a b
unfolding score_cmp
score_cmp_iff a b = ground arith

trans_not : (a b c : ChainTip) → Outscores b c → ¬ Outscores a c → ¬ Outscores a b
trans_not a b c h k m = ground arith

-- The winner is a candidate, and no candidate from the list scores more.
abbrev pub IsBest : List ChainTip → ℕ → Type 0
IsBest ts w = (tip : ChainTip) × (get_elem? ts w ≡ some tip) × All (λ u. ¬ Outscores u tip) ts

All-of_get :
    (P : ChainTip → Type 0) (xs : List ChainTip)
    → ((j : ℕ) (u : ChainTip) → get_elem? xs j ≡ some u → P u)
    → All P xs
All-of_get P [] h = tt
All-of_get P (x ∷ xs) h = (h 0 x refl, All-of_get P xs (λ j u e. h (suc j) u e))

-- An element of a list with one more at its end is in the list or is the last.
get_elem?-append_one :
    {A : Type 0} (xs : List A) (v : A) (j : ℕ) (u : A)
    → get_elem? (xs ++ v ∷ []) j ≡ some u
    → (get_elem? xs j ≡ some u) ⊎ (v ≡ u)
get_elem?-append_one [] v zero u h = inr (some_inj v u h)
get_elem?-append_one [] v (suc j) u h = absurd (cc)
get_elem?-append_one (x ∷ xs) v zero u h = inl h
get_elem?-append_one (x ∷ xs) v (suc j) u h = get_elem?-append_one xs v j u h

Outscores-irrefl : (a : ChainTip) → ¬ Outscores a a
Outscores-irrefl a h = ground arith

-- Nothing in the list scores more than the tip.
abbrev IsTop : List ChainTip → ChainTip → Type 0
IsTop ts tip = (j : ℕ) (u : ChainTip) → get_elem? ts j ≡ some u → ¬ Outscores u tip

IsTop-new :
    (seen : List ChainTip) (t tip : ChainTip)
    → Outscores t tip
    → IsTop seen tip
    → IsTop (seen ++ t ∷ []) t
IsTop-new seen t tip o h j u e = elim (get_elem?-append_one seen t j u e) [
  | inl k ↦ trans_not u t tip o (h j u k)
  | inr k ↦ subst (λ x. ¬ Outscores x t) k (Outscores-irrefl t)
]

IsTop-old :
    (seen : List ChainTip) (t tip : ChainTip)
    → ¬ Outscores t tip
    → IsTop seen tip
    → IsTop (seen ++ t ∷ []) tip
IsTop-old seen t tip o h j u e = elim (get_elem?-append_one seen t j u e) [
  | inl k ↦ h j u k
  | inr k ↦ subst (λ x. ¬ Outscores x tip) k o
]

branch :
    {A : Type 0} (b : Bool) (x y : A)
    → ((b ≡ true) × ((elim b [ true ↦ x | false ↦ y ]) ≡ x))
      ⊎ ((b ≡ false) × ((elim b [ true ↦ x | false ↦ y ]) ≡ y))
branch true x y = inl (refl, refl)
branch false x y = inr (refl, refl)

best_from-step :
    (best : ℕ) (tip : ChainTip) (i : ℕ) (t : ChainTip) (ts : List ChainTip)
    → ((is_greater (score_cmp t tip) ≡ true)
        × (best_from best tip i (t ∷ ts) ≡ best_from i t (i + 1) ts))
      ⊎ ((is_greater (score_cmp t tip) ≡ false)
          × (best_from best tip i (t ∷ ts) ≡ best_from best tip (i + 1) ts))
unfolding best_from score_cmp
best_from-step best tip i t ts =
    branch (is_greater (score_cmp t tip)) (best_from i t (i + 1) ts) (best_from best tip (i + 1) ts)

IsTop-one : (t : ChainTip) → IsTop (t ∷ []) t
IsTop-one t zero u e = subst (λ x. ¬ Outscores x t) (some_inj t u e) (Outscores-irrefl t)
IsTop-one t (suc j) u e = absurd (cc)

-- The loop, with `seen` before the index: what it returns is the best of the whole list.
best_from-IsBest :
    (ts seen : List ChainTip) (best : ℕ) (tip : ChainTip) (i : ℕ)
    → length seen ≡ i
    → get_elem? seen best ≡ some tip
    → IsTop seen tip
    → IsBest (seen ++ ts) (best_from best tip i ts)
unfolding best_from
best_from-IsBest [] seen best tip i l e h =
    rw (append-nil seen) (tip, e, All-of_get (λ u. ¬ Outscores u tip) seen h)
best_from-IsBest (t ∷ ts) seen best tip i l e h =
    let l' : length (seen ++ t ∷ []) ≡ i + 1 = omega (arith, length-append seen (t ∷ [])) in
    elim (best_from-step best tip i t ts) [
      | inl (g, q) ↦ rw q (
          rw (sym (append_assoc seen (t ∷ []) ts)) (
            best_from-IsBest ts (seen ++ t ∷ []) i t (i + 1) l'
              (subst (λ k. get_elem? (seen ++ t ∷ []) k ≡ some t) l (get_elem?-append_last seen t))
              (IsTop-new seen t tip ((score_cmp_iff t tip).0 g) h)))
      | inr (g, q) ↦ rw q (
          rw (sym (append_assoc seen (t ∷ []) ts)) (
            best_from-IsBest ts (seen ++ t ∷ []) best tip (i + 1) l'
              (get_elem?-append_left seen (t ∷ []) best tip e)
              (IsTop-old seen t tip (λ o. absurd (true≢false (sym ((score_cmp_iff t tip).1 o) ∙ g)))
                h)))
    ]

-- On a list of candidates that is not empty, `select_canonical_tip` returns the index of one of
-- them that none outscores.
pub select_canonical_tip-IsBest :
    (t : ChainTip) (ts : List ChainTip)
    → (w : ℕ) × (select_canonical_tip (t ∷ ts) ≡ selected w) × IsBest (t ∷ ts) w
unfolding select_canonical_tip
select_canonical_tip-IsBest t ts =
    (best_from 0 t 1 ts, refl, best_from-IsBest ts (t ∷ []) 0 t 1 refl refl (IsTop-one t))

-- A reorganization is accepted exactly when the alternative outscores the current tip and reverts
-- less than the confirmation depth.
pub is_safe_reorg_iff :
    (c a : ChainTip) (ancestor deepest depth : ℕ)
    → (is_safe_reorg c a ancestor deepest depth ≡ ok tt) ↔ (Outscores a c × (deepest < depth))
unfolding is_safe_reorg
is_safe_reorg_iff c a ancestor deepest depth = ground (arith, score_cmp_iff a c)
