-- ===== src/Tests/Keys.antt =====
-- Keys and signatures that can be checked: a signature starts with the key of its signer.
use scc_blockchain.Prelude.{ℕ, suc, zero, Bool, false, [], ◌∷◌, ◌==◌}
use scc_blockchain.Consensus.Protocol.{Bytes, PublicKey, VoteData}

abbrev pub no_bytes : VoteData → Bytes
no_bytes d = []

abbrev pub signed_by : PublicKey → Bytes → Bytes → Bool
signed_by key bytes [] = false
signed_by key bytes (x ∷ s) = x == key

abbrev pub zeros : ℕ → Bytes
zeros zero = []
zeros (suc n) = 0 ∷ zeros n

abbrev pub signature_of : PublicKey → Bytes
signature_of key = key ∷ zeros 63
