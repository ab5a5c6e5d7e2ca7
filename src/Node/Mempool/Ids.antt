-- ===== src/Node/Mempool/Ids.antt =====
-- The sets of ids of a mempool: crates/sccgub-node/src/mempool.rs.
use scc_blockchain.Prelude.{
  ◌≤◌, ◌≡◌, refl, sym, false, ◌||◌, List, [], ◌∷◌, ◌++◌, ◌==◌, leb, length, arith, Bool-cases, inl,
  inr,
}
use scc_blockchain.Consensus.Quorum.{Hash, mem, IsDistinct}
use scc_blockchain.Node.Mempool.{
  set_insert, set_remove, confirm_all, prune, remove_all, max_confirmed_ids,
}

mem-append_one : (x y : Hash) (s : List Hash) → mem x (s ++ y ∷ []) ≡ (mem x s || (x == y))
mem-append_one x y [] = ground arith
mem-append_one x y (z ∷ s) = ground (arith, mem-append_one x y s)

append_one-IsDistinct :
    (x : Hash) (s : List Hash) → mem x s ≡ false → IsDistinct s → IsDistinct (s ++ x ∷ [])
append_one-IsDistinct x [] h d = (refl, tt)
append_one-IsDistinct x (y ∷ s) h d =
    ground (arith, append_one-IsDistinct x s, mem-append_one y x s)

pub set_insert-IsDistinct : (x : Hash) (s : List Hash) → IsDistinct s → IsDistinct (set_insert x s)
set_insert-IsDistinct x s d = ground (arith, append_one-IsDistinct x s)

-- Removing what is not there changes nothing.
set_remove-absent : (x : Hash) (s : List Hash) → mem x s ≡ false → set_remove x s ≡ s
set_remove-absent x [] h = refl
set_remove-absent x (y ∷ s) h = ground (arith, set_remove-absent x s)

pub set_remove-head : (x : Hash) (s : List Hash) → mem x s ≡ false → set_remove x (x ∷ s) ≡ s
set_remove-head x s h = ground (arith, set_remove-absent x s h)

pub confirm_all-IsDistinct :
    (xs ids : List Hash)
    → IsDistinct ids
    → ((confirm_all xs ids ids).0 ≡ (confirm_all xs ids ids).1)
      × IsDistinct (confirm_all xs ids ids).0
unfolding confirm_all
confirm_all-IsDistinct [] ids d = (refl, d)
confirm_all-IsDistinct (x ∷ xs) ids d =
    confirm_all-IsDistinct xs (set_insert x ids) (set_insert-IsDistinct x ids d)

pub prune_lem :
    (ids : List Hash)
    → IsDistinct ids
    → ((prune ids ids).0 ≡ (prune ids ids).1)
      × IsDistinct (prune ids ids).0
      × (length (prune ids ids).0 ≤ max_confirmed_ids)
unfolding prune
prune_lem [] d = (refl, tt, omega arith)
prune_lem (x ∷ ids) d = elim (Bool-cases (leb (length (x ∷ ids)) max_confirmed_ids)) [
  | inl e ↦ rw e (refl, d, ground arith)
  | inr e ↦ rw (e, set_remove-head x ids d.0) (prune_lem ids d.1)
]

-- Both loops of `mark_confirmed`, on a queue that holds the set.
pub confirmed_lem :
    (xs ids order : List Hash)
    → ids ≡ order
    → IsDistinct ids
    → ((prune (confirm_all xs ids order).0 (confirm_all xs ids order).1).0
        ≡ (prune (confirm_all xs ids order).0 (confirm_all xs ids order).1).1)
      × IsDistinct (prune (confirm_all xs ids order).0 (confirm_all xs ids order).1).0
      × (length (prune (confirm_all xs ids order).0 (confirm_all xs ids order).1).0
          ≤ max_confirmed_ids)
confirmed_lem xs ids order e d =
    let all = confirm_all-IsDistinct xs ids d in
    rw (sym e, sym all.0) (prune_lem (confirm_all xs ids ids).0 all.1)

pub remove_all_self : (s : List Hash) → IsDistinct s → remove_all s s ≡ []
remove_all_self [] d = refl
remove_all_self (x ∷ s) d = rw (set_remove-head x s d.0) (remove_all_self s d.1)
