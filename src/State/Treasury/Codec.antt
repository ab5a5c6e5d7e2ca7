-- ===== src/State/Treasury/Codec.antt =====
-- The treasury in the state trie: the second half of crates/sccgub-state/src/treasury.rs. The trie is
-- that of State/World; the order of its entries shows in an error only, which is the first one.
pub mod Words
pub mod Writes
pub mod Reading
pub mod RoundTrip
use scc_blockchain.Prelude.{
  ℕ, zero, suc, ◌+◌, ◌-◌, ◌*◌, ◌/◌, ◌%◌, Bool, true, false, ◌&&◌, ◌||◌, not, Option, none, some,
  List, [], ◌∷◌, ◌++◌, ◌==◌, leb, if◌then◌else◌, length,
}
use scc_blockchain.Prelude.Int.{ℤ, pos, negsuc}
use scc_blockchain.Prelude.Words.{u64_max, u128_max, i128_max}
use scc_blockchain.Prelude.Map.{Map, bytes_eq}
use scc_blockchain.Prelude.Result.{Result, ok, err}
use scc_blockchain.Types.Tension.{TensionValue}
use scc_blockchain.State.Treasury.{Treasury}
use scc_blockchain.State.World.{ManagedWorldState, apply_delta}
use scc_blockchain.State.Treasury

abbrev pub Bytes : Type 0
Bytes = List ℕ

-- `to_le_bytes` of a word of so many bytes, and `from_le_bytes`.
abbrev pub le_bytes : ℕ → ℕ → Bytes
le_bytes zero v = []
le_bytes (suc n) v = (v % 256) ∷ le_bytes n (v / 256)

abbrev pub from_le_bytes : Bytes → ℕ
from_le_bytes [] = 0
from_le_bytes (b ∷ bs) = b + 256 * from_le_bytes bs

-- The word of an i128 in two's complement, and back.
abbrev pub to_word : ℤ → ℕ
to_word (pos n) = n
to_word (negsuc n) = u128_max - n

abbrev pub from_word : ℕ → ℤ
from_word w = if leb w i128_max then pos w else negsuc (u128_max - w)

-- b"treasury/"
abbrev pub ns_treasury : Bytes
ns_treasury = 116 ∷ 114 ∷ 101 ∷ 97 ∷ 115 ∷ 117 ∷ 114 ∷ 121 ∷ 47 ∷ []

-- b"pending_fees"
abbrev pub pending_fees_suffix : Bytes
pending_fees_suffix = 112 ∷ 101 ∷ 110 ∷ 100 ∷ 105 ∷ 110 ∷ 103 ∷ 95 ∷ 102 ∷ 101 ∷ 101 ∷ 115 ∷ []

-- b"total_fees_collected"
abbrev pub total_fees_collected_suffix : Bytes
total_fees_collected_suffix =
    116 ∷ 111 ∷ 116 ∷ 97 ∷ 108 ∷ 95 ∷ 102 ∷ 101 ∷ 101 ∷ 115 ∷ 95 ∷ 99 ∷ 111 ∷ 108 ∷ 108 ∷ 101 ∷ 99
    ∷ 116 ∷ 101 ∷ 100 ∷ []

-- b"total_rewards_distributed"
abbrev pub total_rewards_distributed_suffix : Bytes
total_rewards_distributed_suffix =
    116 ∷ 111 ∷ 116 ∷ 97 ∷ 108 ∷ 95 ∷ 114 ∷ 101 ∷ 119 ∷ 97 ∷ 114 ∷ 100 ∷ 115 ∷ 95 ∷ 100 ∷ 105 ∷ 115
    ∷ 116 ∷ 114 ∷ 105 ∷ 98 ∷ 117 ∷ 116 ∷ 101 ∷ 100 ∷ []

-- b"total_burned"
abbrev pub total_burned_suffix : Bytes
total_burned_suffix = 116 ∷ 111 ∷ 116 ∷ 97 ∷ 108 ∷ 95 ∷ 98 ∷ 117 ∷ 114 ∷ 110 ∷ 101 ∷ 100 ∷ []

-- b"epoch"
abbrev pub epoch_suffix : Bytes
epoch_suffix = 101 ∷ 112 ∷ 111 ∷ 99 ∷ 104 ∷ []

-- b"epoch_fees"
abbrev pub epoch_fees_suffix : Bytes
epoch_fees_suffix = 101 ∷ 112 ∷ 111 ∷ 99 ∷ 104 ∷ 95 ∷ 102 ∷ 101 ∷ 101 ∷ 115 ∷ []

-- b"epoch_rewards"
abbrev pub epoch_rewards_suffix : Bytes
epoch_rewards_suffix = 101 ∷ 112 ∷ 111 ∷ 99 ∷ 104 ∷ 95 ∷ 114 ∷ 101 ∷ 119 ∷ 97 ∷ 114 ∷ 100 ∷ 115 ∷ []

unfoldable pub treasury_counter_key : Bytes → Bytes
treasury_counter_key suffix = ns_treasury ++ suffix

unfoldable pub encode_tension : TensionValue → Bytes
encode_tension value = le_bytes 16 (to_word value)

pub data TrieError : Type 0 where
  malformed_entry malformed_epoch : (key : Bytes) (len : ℕ) → TrieError
  unknown_key : (key : Bytes) → TrieError

unfoldable pub decode_tension : Bytes → Bytes → Result TrieError TensionValue
decode_tension key value =
    if not (length value == 16)
    then err (malformed_entry key (length value))
    else ok (from_word (from_le_bytes value))

unfoldable pub decode_epoch : Bytes → Bytes → Result TrieError ℕ
decode_epoch key value =
    if not (length value == 8)
    then err (malformed_epoch key (length value))
    else ok (from_le_bytes value)

unfoldable pub treasury_state_writes : Treasury → List (Bytes × Bytes)
unfolding treasury_counter_key encode_tension
treasury_state_writes t =
    (treasury_counter_key pending_fees_suffix, encode_tension t.pending_fees)
    ∷ (treasury_counter_key total_fees_collected_suffix, encode_tension t.total_fees_collected)
    ∷ (
      treasury_counter_key total_rewards_distributed_suffix,
      encode_tension t.total_rewards_distributed,
    )
    ∷ (treasury_counter_key total_burned_suffix, encode_tension t.total_burned)
    ∷ (treasury_counter_key epoch_suffix, le_bytes 8 t.epoch)
    ∷ (treasury_counter_key epoch_fees_suffix, encode_tension t.epoch_fees)
    ∷ (treasury_counter_key epoch_rewards_suffix, encode_tension t.epoch_rewards)
    ∷ []

abbrev pub starts_with : Bytes → Bytes → Bool
starts_with [] key = true
starts_with (p ∷ ps) [] = false
starts_with (p ∷ ps) (k ∷ ks) = p == k && starts_with ps ks

abbrev pub any_treasury_key : Map Bytes Bytes → Bool
any_treasury_key [] = false
any_treasury_key ((key, value) ∷ trie) = starts_with ns_treasury key || any_treasury_key trie

unfoldable pub state_has_treasury_keys : ManagedWorldState → Bool
state_has_treasury_keys state = any_treasury_key state.trie

-- One delta; what `apply_delta` rejects is dropped.
unfoldable pub commit_treasury_state : ManagedWorldState → Treasury → ManagedWorldState
unfolding treasury_state_writes apply_delta
commit_treasury_state state treasury =
    (apply_delta (record { writes = treasury_state_writes treasury; deletes = [] }) state).0

-- The assignment of a decoded value, unless decoding failed.
abbrev pub store : {A : Type 0} → (A → Treasury) → Result TrieError A → Result TrieError Treasury
store f (ok v) = ok (f v)
store f (err e) = err e

-- The match on the key.
unfoldable pub read_entry : Bytes → Bytes → Treasury → Result TrieError Treasury
unfolding treasury_counter_key decode_tension decode_epoch
read_entry key value t =
    if bytes_eq.beq key (treasury_counter_key pending_fees_suffix)
    then store (λ v. record t { pending_fees = v }) (decode_tension key value)
    else if bytes_eq.beq key (treasury_counter_key total_fees_collected_suffix)
    then store (λ v. record t { total_fees_collected = v }) (decode_tension key value)
    else if bytes_eq.beq key (treasury_counter_key total_rewards_distributed_suffix)
    then store (λ v. record t { total_rewards_distributed = v }) (decode_tension key value)
    else if bytes_eq.beq key (treasury_counter_key total_burned_suffix)
    then store (λ v. record t { total_burned = v }) (decode_tension key value)
    else if bytes_eq.beq key (treasury_counter_key epoch_suffix)
    then store (λ v. record t { epoch = v }) (decode_epoch key value)
    else if bytes_eq.beq key (treasury_counter_key epoch_fees_suffix)
    then store (λ v. record t { epoch_fees = v }) (decode_tension key value)
    else if bytes_eq.beq key (treasury_counter_key epoch_rewards_suffix)
    then store (λ v. record t { epoch_rewards = v }) (decode_tension key value)
    else err (unknown_key key)

-- The loop over the trie: keys of other namespaces are passed over, an error ends it.
abbrev pub read_all : Map Bytes Bytes → Result TrieError Treasury → Result TrieError Treasury
read_all [] r = r
read_all ((key, value) ∷ trie) (err e) = err e
read_all ((key, value) ∷ trie) (ok t) =
    read_all trie (if starts_with ns_treasury key then read_entry key value t else ok t)

unfoldable pub treasury_from_trie : ManagedWorldState → Result TrieError Treasury
treasury_from_trie state = read_all state.trie (ok Treasury.new)
