-- ===== src/Types/KeyRotation/Owners.antt =====
-- A key that is in the index has its agent for good: crates/sccgub-types/src/key_rotation.rs.
use scc_blockchain.Prelude.{
  subst, ℕ, ◌≡◌, refl, ◌∙◌, ap, false, none, some, [], ◌∷◌, ◌++◌, ◌==◌, arith, Bool-cases, inl, inr,
  if◌then◌else◌,
}
use scc_blockchain.Prelude.Result.{ok, ok_inj}
use scc_blockchain.Prelude.Sort.{pair_leb, insert_pair, sort_by_pair}
use scc_blockchain.Consensus.Quorum.{mem, IsDistinct}
use scc_blockchain.Types.Sorted.{sort_by_pair-IsDistinct, push-IsDistinct, mem-sort_by_pair}
use scc_blockchain.Types.KeyRotation.{
  KeyIndexEntry, KeyIndex, keys, contains_key, place, fresh, register, marked, mark_superseded,
  owning_agent,
}

owning_agent-absent : (k : ℕ) (es : KeyIndex) → mem k (keys es) ≡ false → owning_agent k es ≡ none
unfolding owning_agent
owning_agent-absent k [] m = refl
owning_agent-absent k (e ∷ es) m = ground (arith, owning_agent-absent k es)

owning_agent-insert_pair :
    (k : ℕ) (x : KeyIndexEntry) (es : KeyIndex)
    → mem x.public_key (keys es) ≡ false
    → owning_agent k (insert_pair place x es)
      ≡ (if k == x.public_key then some x.agent_id else owning_agent k es)
unfolding owning_agent
owning_agent-insert_pair k x [] m = refl
owning_agent-insert_pair k x (e ∷ es) m = elim (Bool-cases (pair_leb (place x) (place e))) [
  | inl p ↦ rw p refl
  | inr p ↦
      let ih = owning_agent-insert_pair k x es (ground (arith, m)) in rw (p, ih) (ground (arith, m))
]

owning_agent-sort_by_pair :
    (k : ℕ) (es : KeyIndex)
    → IsDistinct (keys es)
    → owning_agent k (sort_by_pair place es) ≡ owning_agent k es
unfolding owning_agent
owning_agent-sort_by_pair k [] d = refl
owning_agent-sort_by_pair k (e ∷ es) d =
    let absent =
      mem-sort_by_pair place (λ (x : KeyIndexEntry). x.public_key) e.public_key es ∙ d.0 in
    owning_agent-insert_pair k e (sort_by_pair place es) absent
    ∙ ap (λ o. if k == e.public_key then some e.agent_id else o)
        (owning_agent-sort_by_pair k es d.1)

owning_agent-push :
    (k a : ℕ) (x : KeyIndexEntry) (es : KeyIndex)
    → owning_agent k es ≡ some a
    → owning_agent k (es ++ x ∷ []) ≡ some a
unfolding owning_agent
owning_agent-push k a x [] o = cc
owning_agent-push k a x (e ∷ es) o = ground (arith, owning_agent-push k a x es)

owning_agent-marked :
    (k j h : ℕ) (es : KeyIndex) → owning_agent k (marked j h es) ≡ owning_agent k es
unfolding owning_agent
owning_agent-marked k j h [] = refl
owning_agent-marked k j h (e ∷ es) = ground (arith, owning_agent-marked k j h es)

keys-marked : (j h : ℕ) (es : KeyIndex) → keys (marked j h es) ≡ keys es
keys-marked j h [] = refl
keys-marked j h (e ∷ es) = ground (arith, keys-marked j h es)

-- What a change of the index keeps: no key twice, and the agent of each key.
pub record Keeps (es es' : KeyIndex) : Type 0 where
  pub distinct : IsDistinct (keys es')
  pub owner : (k a : ℕ) → owning_agent k es ≡ some a → owning_agent k es' ≡ some a

pub register-Keeps :
    (k a h : ℕ) (es es' : KeyIndex)
    → IsDistinct (keys es)
    → register k a h es ≡ ok es'
    → Keeps es es'
unfolding register
register-Keeps k a h es es' d e = elim (Bool-cases (contains_key k es)) [
  | inl m ↦ absurd (cc (rw m at e))
  | inr m ↦
      let pushed : KeyIndex = es ++ fresh k a h ∷ [] in
      let made : sort_by_pair place pushed ≡ es' =
        ok_inj (sort_by_pair place pushed) es' (rw m at e) in
      let once = push-IsDistinct (λ (x : KeyIndexEntry). x.public_key) (fresh k a h) es m d in
      subst (Keeps es) made (record {
        distinct = sort_by_pair-IsDistinct place (λ (x : KeyIndexEntry). x.public_key) pushed once;
        owner = λ j b o.
            owning_agent-sort_by_pair j pushed once ∙ owning_agent-push j b (fresh k a h) es o;
      })
]

pub mark_superseded-Keeps :
    (k h : ℕ) (es es' : KeyIndex)
    → IsDistinct (keys es)
    → mark_superseded k h es ≡ ok es'
    → Keeps es es'
unfolding mark_superseded
mark_superseded-Keeps k h es es' d e = elim (Bool-cases (contains_key k es)) [
  | inr m ↦ absurd (cc (rw m at e))
  | inl m ↦ subst (Keeps es) (ok_inj (marked k h es) es' (rw m at e)) (record {
    distinct = rw (keys-marked k h es) d;
    owner = λ j a o. owning_agent-marked j k h es ∙ o;
  })
]
