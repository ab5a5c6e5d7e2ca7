-- ===== src/State/Treasury/Codec/Writes.antt =====
-- What writes to the trie leave in it: crates/sccgub-state/src/treasury.rs.
use mathlib.Core.Bool.{true≢false}
use scc_blockchain.Prelude.{
  ◌≤◌, length, arith, ℕ, ◌∙◌, ◌≡◌, ◌⊎◌, inl, inr, refl, sym, ap, false, Option, none, some, List,
  [], ◌∷◌, if◌then◌else◌, All, Bool-cases,
}
use scc_blockchain.Prelude.Map.{
  Map, lookup, insert, IsMap, bytes_eq, insert-IsMap, lookup-insert_self, lookup-insert_ne,
}
use scc_blockchain.State.World.{ManagedWorldState, write_all, oversized, store_entry}
use scc_blockchain.State.Treasury.Codec.{
  Bytes, ns_treasury, treasury_counter_key, starts_with, pending_fees_suffix,
  total_fees_collected_suffix, total_rewards_distributed_suffix, total_burned_suffix, epoch_suffix,
  epoch_fees_suffix, epoch_rewards_suffix,
}

-- The writes of a delta, none of them over the limit.
abbrev pub apply_writes : List (Bytes × Bytes) → Map Bytes Bytes → Map Bytes Bytes
apply_writes [] trie = trie
apply_writes ((key, value) ∷ ws) trie = apply_writes ws (insert key value trie)

-- Addresses and values are within a limit.
abbrev pub AllFit : ℕ → List (Bytes × Bytes) → Type 0
AllFit n ws = All (λ e. (length e.0 ≤ n) × (length e.1 ≤ n)) ws

pub trie_write_all :
    (ws : List (Bytes × Bytes)) (w : ManagedWorldState)
    → AllFit w.max_state_entry_size ws
    → (write_all ws w).0.trie ≡ apply_writes ws w.trie
trie_write_all [] w h = refl
trie_write_all ((k, v) ∷ ws) w h =
    let fits : oversized k v w ≡ false = ground (arith, h.0) in
    rw fits (trie_write_all ws (store_entry k v w) h.1)

-- The last value that the writes give a key.
abbrev pub later : Option Bytes → Option Bytes → Option Bytes
later (some w) o = some w
later none o = o

abbrev pub last_write : Bytes → List (Bytes × Bytes) → Option Bytes
last_write k [] = none
last_write k ((j, v) ∷ ws) = later (last_write k ws) (if bytes_eq.beq k j then some v else none)

pub lookup-apply_writes :
    (k : Bytes) (ws : List (Bytes × Bytes)) (m : Map Bytes Bytes)
    → lookup k (apply_writes ws m) ≡ later (last_write k ws) (lookup k m)
lookup-apply_writes k [] m = refl
lookup-apply_writes k ((j, v) ∷ ws) m =
    rw (lookup-apply_writes k ws (insert j v m)) (elim (Bool-cases (bytes_eq.beq k j)) [
      | inl e ↦
          rw (e, (bytes_eq.beq_iff k j).0 e, lookup-insert_self j v m)
            (latest (last_write j ws) (last_write k ws)
              (ap (λ x. last_write x ws) (sym ((bytes_eq.beq_iff k j).0 e))))
      | inr e ↦
          rw (e, lookup-insert_ne k j v m (λ q. true≢false (sym ((bytes_eq.beq_iff k j).1 q) ∙ e)))
            (kept (last_write k ws) (lookup k m))
    ])
  where
    latest :
        (o o' : Option Bytes) → o ≡ o' → later o (some v) ≡ later (later o' (some v)) (lookup j m)
    latest none none q = refl
    latest none (some w) q = cc
    latest (some w) none q = cc
    latest (some w) (some w') q = q

    kept : (o l : Option Bytes) → later o l ≡ later (later o none) l
    kept none l = refl
    kept (some w) l = refl

-- The seven keys.
pub data IsKey : Bytes → Type 0 where
  pending_fees_key : IsKey (treasury_counter_key pending_fees_suffix)
  total_fees_collected_key : IsKey (treasury_counter_key total_fees_collected_suffix)
  total_rewards_distributed_key : IsKey (treasury_counter_key total_rewards_distributed_suffix)
  total_burned_key : IsKey (treasury_counter_key total_burned_suffix)
  epoch_key : IsKey (treasury_counter_key epoch_suffix)
  epoch_fees_key : IsKey (treasury_counter_key epoch_fees_suffix)
  epoch_rewards_key : IsKey (treasury_counter_key epoch_rewards_suffix)

-- A key that is of another part of the state, or one of the seven.
abbrev pub IsKnown : Bytes × Bytes → Type 0
IsKnown (k, v) = (starts_with ns_treasury k ≡ false) ⊎ IsKey k

insert-IsKnown :
    (k v : Bytes) (m : Map Bytes Bytes) → IsKey k → All IsKnown m → All IsKnown (insert k v m)
insert-IsKnown k v [] c h = (inr c, tt)
insert-IsKnown k v ((j, w) ∷ m) c h = elim (Bool-cases (bytes_eq.beq k j)) [
  | inl e ↦ rw e (inr c, h.1)
  | inr e ↦ rw e (h.0, insert-IsKnown k v m c h.1)
]

-- Writes to the seven keys leave a map, with known keys.
pub apply_writes-IsKnown :
    (ws : List (Bytes × Bytes)) (m : Map Bytes Bytes)
    → All (λ e. IsKey (e.0)) ws
    → IsMap m
    → All IsKnown m
    → IsMap (apply_writes ws m) × All IsKnown (apply_writes ws m)
apply_writes-IsKnown [] m c d h = (d, h)
apply_writes-IsKnown ((k, v) ∷ ws) m c d h =
    apply_writes-IsKnown ws (insert k v m) c.1 (insert-IsMap k v m d) (insert-IsKnown k v m c.0 h)

-- In a map, what holds of each key and the value that a look-up finds holds of all entries.
pub All-of_lookup :
    (P Q : Bytes × Bytes → Type 0) (m : Map Bytes Bytes)
    → IsMap m
    → All Q m
    → ((k v : Bytes) → lookup k m ≡ some v → Q (k, v) → P (k, v))
    → All P m
All-of_lookup P Q [] d q h = tt
All-of_lookup P Q ((k, v) ∷ m) d q h = (
  h k v (rw ((bytes_eq.beq_iff k k).1 refl) refl) q.0,
  All-of_lookup P Q m d.1 q.1 (λ j w e r. h j w (under j w e) r),
)
  where
    under : (j w : Bytes) → lookup j m ≡ some w → lookup j ((k, v) ∷ m) ≡ some w
    under j w e = elim (Bool-cases (bytes_eq.beq j k)) [
      | inl b ↦ absurd (cc (rw ((bytes_eq.beq_iff j k).0 b) at e, d.0))
      | inr b ↦ rw b e
    ]
