-- ===== src/State/Treasury/Codec/Words.antt =====
-- Words and their bytes: crates/sccgub-state/src/treasury.rs.
use scc_blockchain.Prelude.{◌∙◌, ℕ, zero, suc, ◌*◌, ◌/◌, ◌≤◌, ◌<◌, ◌≡◌, refl, ap, length, arith}
use scc_blockchain.Prelude.Int.{ℤ, pos, negsuc}
use scc_blockchain.Prelude.Words.{u64_max, InI128}
use scc_blockchain.Prelude.Map.{bytes_eq}
use scc_blockchain.Prelude.Result.{ok}
use scc_blockchain.State.Treasury.{Treasury}
use scc_blockchain.State.Treasury.Codec.{
  Bytes, le_bytes, from_le_bytes, to_word, from_word, encode_tension, decode_tension, decode_epoch,
}

-- The limit of a word of so many bytes.
abbrev limit : ℕ → ℕ
limit zero = 1
limit (suc n) = 256 * limit n

from_le_bytes-le_bytes : (n v : ℕ) → v < limit n → from_le_bytes (le_bytes n v) ≡ v
from_le_bytes-le_bytes zero v h = omega arith
from_le_bytes-le_bytes (suc n) v h =
    let ih = from_le_bytes-le_bytes n (v / 256) (omega arith) in omega (arith, ih)

pub length-le_bytes : (n v : ℕ) → length (le_bytes n v) ≡ n
length-le_bytes zero v = refl
length-le_bytes (suc n) v = ap suc (length-le_bytes n (v / 256))

from_word-to_word : (z : ℤ) → InI128 z → from_word (to_word z) ≡ z
from_word-to_word (pos n) h = ground arith
from_word-to_word (negsuc n) h = ground arith

to_word-lt : (z : ℤ) → InI128 z → to_word z < limit 16
to_word-lt (pos n) h = omega arith
to_word-lt (negsuc n) h = omega arith

decode_tension-value :
    (key value : Bytes) (z : ℤ)
    → length value ≡ 16
    → from_word (from_le_bytes value) ≡ z
    → decode_tension key value ≡ ok z
unfolding decode_tension
decode_tension-value key value z l h = rw (l, h) refl

-- The word of an amount, read back from its bytes.
pub from_word-le_bytes :
    (z : ℤ) → InI128 z → from_word (from_le_bytes (le_bytes 16 (to_word z))) ≡ z
from_word-le_bytes z h =
    ap from_word (from_le_bytes-le_bytes 16 (to_word z) (to_word-lt z h)) ∙ from_word-to_word z h

pub decode_tension-encode_tension :
    (key : Bytes) (z : ℤ) → InI128 z → decode_tension key (encode_tension z) ≡ ok z
unfolding encode_tension
decode_tension-encode_tension key z h =
    decode_tension-value key (le_bytes 16 (to_word z)) z (length-le_bytes 16 (to_word z))
      (from_word-le_bytes z h)

decode_epoch-value :
    (key value : Bytes) (e : ℕ)
    → length value ≡ 8
    → from_le_bytes value ≡ e
    → decode_epoch key value ≡ ok e
unfolding decode_epoch
decode_epoch-value key value e l h = rw (l, h) refl

pub decode_epoch-le_bytes :
    (key : Bytes) (e : ℕ) → e ≤ u64_max → decode_epoch key (le_bytes 8 e) ≡ ok e
decode_epoch-le_bytes key e h =
    decode_epoch-value key (le_bytes 8 e) e (length-le_bytes 8 e)
      (from_le_bytes-le_bytes 8 e (omega arith))

-- The fields hold what their machine types hold.
abbrev pub InRange : Treasury → Type 0
InRange t =
    InI128 t.pending_fees
    × InI128 t.total_fees_collected
    × InI128 t.total_rewards_distributed
    × InI128 t.total_burned
    × (t.epoch ≤ u64_max)
    × InI128 t.epoch_fees
    × InI128 t.epoch_rewards
