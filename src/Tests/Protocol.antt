-- ===== src/Tests/Protocol.antt =====
-- The theorems on the protocol at concrete inputs.
use distributed_server_clien.Prelude.Bytes.{Bytes}
use distributed_server_clien.Prelude.{[], ◌∷◌}

abbrev text : Bytes
text = 71 ∷ 69 ∷ 84 ∷ 0 ∷ 0 ∷ 0 ∷ 0 ∷ 0 ∷ 0 ∷ 0 ∷ []
