-- ===== src/State/Treasury/Codec/RoundTrip.antt =====
-- What is committed to the trie is read back: crates/sccgub-state/src/treasury.rs.
use scc_blockchain.Prelude.{
  arith, ap, ℕ, ◌≤◌, ◌∙◌, ◌≡◌, inl, inr, refl, sym, Bool, true, false, Option, some, All,
}
use scc_blockchain.Prelude.Map.{Map, lookup, IsMap, bytes_eq}
use scc_blockchain.Prelude.Result.{ok}
use scc_blockchain.State.Treasury.{Treasury}
use scc_blockchain.State.Treasury
use scc_blockchain.State.World.{ManagedWorldState, apply_delta}
use scc_blockchain.State.Treasury.Codec.Words.{InRange}
use scc_blockchain.State.Treasury.Codec.Writes.{
  AllFit, apply_writes, trie_write_all, IsKey, later, last_write, lookup-apply_writes,
  apply_writes-IsKnown, All-of_lookup, IsKnown, pending_fees_key, total_fees_collected_key,
  total_rewards_distributed_key, total_burned_key, epoch_key, epoch_fees_key, epoch_rewards_key,
}
use scc_blockchain.State.Treasury.Codec.Reading.{IsEntry, mark_all, read_all-masked, mark_all-read}
use scc_blockchain.State.Treasury.Codec.{
  Bytes, le_bytes, treasury_counter_key, encode_tension, treasury_state_writes, read_all,
  commit_treasury_state, treasury_from_trie, pending_fees_suffix, total_fees_collected_suffix,
  total_rewards_distributed_suffix, total_burned_suffix, epoch_suffix, epoch_fees_suffix,
  epoch_rewards_suffix,
}

written :
    (t : Treasury) (k v : Bytes) (l : Option Bytes)
    → IsKey k
    → later (last_write k (treasury_state_writes t)) l ≡ some v
    → last_write k (treasury_state_writes t) ≡ some v
unfolding treasury_state_writes treasury_counter_key
written t _ v l pending_fees_key h = h
written t _ v l total_fees_collected_key h = h
written t _ v l total_rewards_distributed_key h = h
written t _ v l total_burned_key h = h
written t _ v l epoch_key h = h
written t _ v l epoch_fees_key h = h
written t _ v l epoch_rewards_key h = h

-- Each of the seven keys is written.
is_written :
    (t : Treasury) (m : Map Bytes Bytes) (k : Bytes)
    → IsKey k
    → (v : Bytes) × (lookup k (apply_writes (treasury_state_writes t) m) ≡ some v)
unfolding treasury_state_writes treasury_counter_key
is_written t m _ pending_fees_key = (
  encode_tension t.pending_fees,
  lookup-apply_writes (treasury_counter_key pending_fees_suffix) (treasury_state_writes t) m,
)
is_written t m _ total_fees_collected_key = (
  encode_tension t.total_fees_collected,
  lookup-apply_writes (treasury_counter_key total_fees_collected_suffix) (treasury_state_writes t)
      m,
)
is_written t m _ total_rewards_distributed_key = (
  encode_tension t.total_rewards_distributed,
  lookup-apply_writes (treasury_counter_key total_rewards_distributed_suffix)
      (treasury_state_writes t) m,
)
is_written t m _ total_burned_key = (
  encode_tension t.total_burned,
  lookup-apply_writes (treasury_counter_key total_burned_suffix) (treasury_state_writes t) m,
)
is_written t m _ epoch_key = (
  le_bytes 8 t.epoch,
  lookup-apply_writes (treasury_counter_key epoch_suffix) (treasury_state_writes t) m,
)
is_written t m _ epoch_fees_key = (
  encode_tension t.epoch_fees,
  lookup-apply_writes (treasury_counter_key epoch_fees_suffix) (treasury_state_writes t) m,
)
is_written t m _ epoch_rewards_key = (
  encode_tension t.epoch_rewards,
  lookup-apply_writes (treasury_counter_key epoch_rewards_suffix) (treasury_state_writes t) m,
)

writes-IsEntry :
    (t : Treasury) (trie : Map Bytes Bytes)
    → IsMap trie
    → All IsKnown trie
    → All (IsEntry t) (apply_writes (treasury_state_writes t) trie)
unfolding treasury_state_writes
writes-IsEntry t trie d h =
    let keys : All (λ e. IsKey (e.0)) (treasury_state_writes t) = (
      pending_fees_key,
      (
        total_fees_collected_key,
        (
          total_rewards_distributed_key,
          (total_burned_key, (epoch_key, (epoch_fees_key, (epoch_rewards_key, tt)))),
        ),
      ),
    ) in
    let known = apply_writes-IsKnown (treasury_state_writes t) trie keys d h in
    All-of_lookup (IsEntry t) IsKnown (apply_writes (treasury_state_writes t) trie) known.0 known.1
      entry
  where
    entry :
        (k v : Bytes)
        → lookup k (apply_writes (treasury_state_writes t) trie) ≡ some v
        → IsKnown (k, v)
        → IsEntry t (k, v)
    entry k v e (inl o) = inl o
    entry k v e (inr c) = inr (
      c,
      written t k v (lookup k trie) c
          (sym (lookup-apply_writes k (treasury_state_writes t) trie) ∙ e),
    )

-- The limit of the entries has room for the longest key, "treasury/total_rewards_distributed".
abbrev pub HasRoom : ManagedWorldState → Type 0
HasRoom w = 34 ≤ w.max_state_entry_size

writes-AllFit : (n : ℕ) (t : Treasury) → 34 ≤ n → AllFit n (treasury_state_writes t)
unfolding treasury_state_writes treasury_counter_key encode_tension
writes-AllFit n t h = omega arith

trie_commit :
    (t : Treasury) (w : ManagedWorldState)
    → HasRoom w
    → (commit_treasury_state w t).trie ≡ apply_writes (treasury_state_writes t) w.trie
unfolding commit_treasury_state apply_delta
trie_commit t w h =
    trie_write_all (treasury_state_writes t) w (writes-AllFit w.max_state_entry_size t h)

read_writes :
    (t : Treasury) (trie : Map Bytes Bytes)
    → InRange t
    → IsMap trie
    → All IsKnown trie
    → read_all (apply_writes (treasury_state_writes t) trie) (ok Treasury.new) ≡ ok t
read_writes t trie r d h =
    let final : Map Bytes Bytes = apply_writes (treasury_state_writes t) trie in
    let none_read : Bytes → Bool = (λ k. false) in
    let read : (k : Bytes) → IsKey k → mark_all final none_read k ≡ true =
      (λ k c. let w = is_written t trie k c in mark_all-read final none_read k w.0 c w.1) in
    rw
      (
        read_all-masked t final none_read r (writes-IsEntry t trie d h),
        read (treasury_counter_key pending_fees_suffix) pending_fees_key,
        read (treasury_counter_key total_fees_collected_suffix) total_fees_collected_key,
        read (treasury_counter_key total_rewards_distributed_suffix) total_rewards_distributed_key,
        read (treasury_counter_key total_burned_suffix) total_burned_key,
        read (treasury_counter_key epoch_suffix) epoch_key,
        read (treasury_counter_key epoch_fees_suffix) epoch_fees_key,
        read (treasury_counter_key epoch_rewards_suffix) epoch_rewards_key,
      )
      refl

-- Committing a treasury whose fields are in the range of their types to a state whose trie has
-- each key once and no unknown key in the treasury's namespace, and whose entries may have the 34
-- bytes of the longest key, and reading the state back, gives the same treasury, whatever treasury the trie held before.
pub treasury_from_trie-commit_treasury_state :
    (t : Treasury) (w : ManagedWorldState)
    → InRange t
    → IsMap w.trie
    → All IsKnown w.trie
    → HasRoom w
    → treasury_from_trie (commit_treasury_state w t) ≡ ok t
unfolding treasury_from_trie
treasury_from_trie-commit_treasury_state t w r d h room =
    ap (λ m. read_all m (ok Treasury.new)) (trie_commit t w room) ∙ read_writes t w.trie r d h
