-- ===== src/State/Treasury/Codec/Reading.antt =====
-- What the loop over the trie reads: crates/sccgub-state/src/treasury.rs.
use scc_blockchain.Prelude.{
  ◌≡◌, ◌⊎◌, inl, inr, refl, sym, ap, Bool, true, false, ◌||◌, some, some_inj, [], ◌∷◌,
  if◌then◌else◌, arith, All, Bool-cases,
}
use scc_blockchain.Prelude.Map.{Map, lookup, bytes_eq}
use scc_blockchain.Prelude.Result.{ok}
use scc_blockchain.State.Treasury.{Treasury}
use scc_blockchain.State.Treasury
use scc_blockchain.State.Treasury.Codec.Words.{
  InRange, decode_tension-encode_tension, decode_epoch-le_bytes,
}
use scc_blockchain.State.Treasury.Codec.Writes.{
  IsKey, last_write, pending_fees_key, total_fees_collected_key, total_rewards_distributed_key,
  total_burned_key, epoch_key, epoch_fees_key, epoch_rewards_key,
}
use scc_blockchain.State.Treasury.Codec.{
  Bytes, le_bytes, ns_treasury, treasury_counter_key, encode_tension, treasury_state_writes,
  starts_with, read_entry, read_all, store, pending_fees_suffix, total_fees_collected_suffix,
  total_rewards_distributed_suffix, total_burned_suffix, epoch_suffix, epoch_fees_suffix,
  epoch_rewards_suffix,
}

-- A treasury that has the fields of the keys read so far, and the defaults for the others.
abbrev pub masked : (Bytes → Bool) → Treasury → Treasury
masked s t = record {
  pending_fees =
      if s (treasury_counter_key pending_fees_suffix)
      then t.pending_fees
      else Treasury.new.pending_fees;
  total_fees_collected =
      if s (treasury_counter_key total_fees_collected_suffix)
      then t.total_fees_collected
      else Treasury.new.total_fees_collected;
  total_rewards_distributed =
      if s (treasury_counter_key total_rewards_distributed_suffix)
      then t.total_rewards_distributed
      else Treasury.new.total_rewards_distributed;
  total_burned =
      if s (treasury_counter_key total_burned_suffix)
      then t.total_burned
      else Treasury.new.total_burned;
  epoch = if s (treasury_counter_key epoch_suffix) then t.epoch else Treasury.new.epoch;
  epoch_fees =
      if s (treasury_counter_key epoch_fees_suffix) then t.epoch_fees else Treasury.new.epoch_fees;
  epoch_rewards =
      if s (treasury_counter_key epoch_rewards_suffix)
      then t.epoch_rewards
      else Treasury.new.epoch_rewards;
}

abbrev pub mark : Bytes → (Bytes → Bool) → Bytes → Bool
mark k s j = bytes_eq.beq j k || s j

-- Reading one of the entries written.
read_entry-masked :
    (t : Treasury) (s : Bytes → Bool) (k v : Bytes)
    → InRange t
    → IsKey k
    → last_write k (treasury_state_writes t) ≡ some v
    → read_entry k v (masked s t) ≡ ok (masked (mark k s) t)
unfolding read_entry treasury_state_writes treasury_counter_key
read_entry-masked t s k v r pending_fees_key w =
    rw (sym (some_inj (encode_tension t.pending_fees) v w)) (
      ap (store (λ x. record (masked s t) { pending_fees = x })) (
        decode_tension-encode_tension (treasury_counter_key pending_fees_suffix) t.pending_fees
          r.0))
read_entry-masked t s k v r total_fees_collected_key w =
    rw (sym (some_inj (encode_tension t.total_fees_collected) v w)) (
      ap (store (λ x. record (masked s t) { total_fees_collected = x })) (
        decode_tension-encode_tension (treasury_counter_key total_fees_collected_suffix)
          t.total_fees_collected r.1))
read_entry-masked t s k v r total_rewards_distributed_key w =
    rw (sym (some_inj (encode_tension t.total_rewards_distributed) v w)) (
      ap (store (λ x. record (masked s t) { total_rewards_distributed = x })) (
        decode_tension-encode_tension (treasury_counter_key total_rewards_distributed_suffix)
          t.total_rewards_distributed r.2))
read_entry-masked t s k v r total_burned_key w =
    rw (sym (some_inj (encode_tension t.total_burned) v w)) (
      ap (store (λ x. record (masked s t) { total_burned = x })) (
        decode_tension-encode_tension (treasury_counter_key total_burned_suffix) t.total_burned
          r.3))
read_entry-masked t s k v r epoch_key w = rw (sym (some_inj (le_bytes 8 t.epoch) v w)) (
    ap (store (λ x. record (masked s t) { epoch = x }))
      (decode_epoch-le_bytes (treasury_counter_key epoch_suffix) t.epoch r.4))
read_entry-masked t s k v r epoch_fees_key w =
    rw (sym (some_inj (encode_tension t.epoch_fees) v w)) (
      ap (store (λ x. record (masked s t) { epoch_fees = x }))
        (decode_tension-encode_tension (treasury_counter_key epoch_fees_suffix) t.epoch_fees r.5))
read_entry-masked t s k v r epoch_rewards_key w =
    rw (sym (some_inj (encode_tension t.epoch_rewards) v w)) (
      ap (store (λ x. record (masked s t) { epoch_rewards = x })) (
        decode_tension-encode_tension (treasury_counter_key epoch_rewards_suffix) t.epoch_rewards
          r.6))

-- An entry of another part of the state, or one that the writes made.
abbrev pub IsEntry : Treasury → Bytes × Bytes → Type 0
IsEntry t (k, v) =
    (starts_with ns_treasury k ≡ false)
    ⊎ (IsKey k × (last_write k (treasury_state_writes t) ≡ some v))

-- What the loop has read when it ends.
abbrev pub mark_all : Map Bytes Bytes → (Bytes → Bool) → Bytes → Bool
mark_all [] s = s
mark_all ((k, v) ∷ m) s = mark_all m (if starts_with ns_treasury k then mark k s else s)

IsKey-starts_with : (k : Bytes) → IsKey k → starts_with ns_treasury k ≡ true
unfolding treasury_counter_key
IsKey-starts_with k pending_fees_key = refl
IsKey-starts_with k total_fees_collected_key = refl
IsKey-starts_with k total_rewards_distributed_key = refl
IsKey-starts_with k total_burned_key = refl
IsKey-starts_with k epoch_key = refl
IsKey-starts_with k epoch_fees_key = refl
IsKey-starts_with k epoch_rewards_key = refl

pub read_all-masked :
    (t : Treasury) (m : Map Bytes Bytes) (s : Bytes → Bool)
    → InRange t
    → All (IsEntry t) m
    → read_all m (ok (masked s t)) ≡ ok (masked (mark_all m s) t)
read_all-masked t [] s r h = refl
read_all-masked t ((k, v) ∷ m) s r h = elim (h.0) [
  | inl o ↦ rw o (read_all-masked t m s r h.1)
  | inr (c, w) ↦
      rw (IsKey-starts_with k c, read_entry-masked t s k v r c w)
        (read_all-masked t m (mark k s) r h.1)
]

mark_all-kept :
    (m : Map Bytes Bytes) (s : Bytes → Bool) (j : Bytes) → s j ≡ true → mark_all m s j ≡ true
mark_all-kept [] s j h = h
mark_all-kept ((k, v) ∷ m) s j h = elim (Bool-cases (starts_with ns_treasury k)) [
  | inl e ↦ rw e (mark_all-kept m (mark k s) j (ground (arith, h)))
  | inr e ↦ rw e (mark_all-kept m s j h)
]

pub mark_all-read :
    (m : Map Bytes Bytes) (s : Bytes → Bool) (j v : Bytes)
    → IsKey j
    → lookup j m ≡ some v
    → mark_all m s j ≡ true
mark_all-read [] s j v c h = cc
mark_all-read ((k, w) ∷ m) s j v c h = elim (Bool-cases (bytes_eq.beq j k)) [
  | inl e ↦
      let same : j ≡ k = (bytes_eq.beq_iff j k).0 e in
      let own : starts_with ns_treasury k ≡ true = rw same at (IsKey-starts_with j c) in
      rw own (mark_all-kept m (mark k s) j (rw e refl))
  | inr e ↦ mark_all-read m (if starts_with ns_treasury k then mark k s else s) j v c (rw e at h)
]
