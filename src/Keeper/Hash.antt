-- ===== src/Keeper/Hash.antt =====
-- chain/x/agntcoin/keeper/hash.go
use ag3nt_coin.Base.{ℕ, String, Bool, true, List, [], ◌∷◌, ◌&&◌, ◌||◌, leb, ◌==◌, length}
use ag3nt_coin.Base.Text.{codes}

-- The loop's test, negated.
unfoldable pub is_hex : ℕ → Bool
is_hex c = (leb b'0' c && leb c b'9') || (leb b'a' c && leb c b'f') || (leb b'A' c && leb c b'F')

all_hex : List ℕ → Bool
all_hex [] = true
all_hex (c ∷ cs) = is_hex c && all_hex cs

-- Go counts bytes. A text of 64 bytes in `0-9a-fA-F` has 64 code points, and the other way round.
unfoldable pub is_hex_sha256 : String → Bool
unfolding is_hex all_hex
is_hex_sha256 s = (length (codes s) == 64) && all_hex (codes s)
