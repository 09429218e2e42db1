-- ===== src/Common/Digest.antt =====
-- Texts that name a digest: "sha256:" and 64 hexadecimal digits.
use Prim.Native.Nat.{ℕ, zero, suc}
use Prim.Native.Char.{Char, code}
use Prim.Native.String.{String}
use mathlib.Core.Bool.{Bool, true, ◌&&◌, ◌||◌}
use text.Mathlib.Text.{starts_with}
use defiant_agent_harness.Common.Tests.{leb, eqb}
use defiant_agent_harness.Common.Text.{len}

-- `s[n:]`
unfoldable pub from_char : ℕ → String → String
from_char zero s = s
from_char (suc n) String.[] = ""
from_char (suc n) (String.◌∷◌ c s) = from_char n s

abbrev pub is_hex : Char → Bool
is_hex c = (leb 48 (code c) && leb (code c) 57) || (leb 97 (code c) && leb (code c) 102)

-- `all(char in "0123456789abcdef" for char in s)`
unfoldable pub all_hex : String → Bool
all_hex String.[] = true
all_hex (String.◌∷◌ c s) = is_hex c && all_hex s

unfoldable pub is_sha256 : String → Bool
is_sha256 s = starts_with s "sha256:" && eqb (len (from_char 7 s)) 64 && all_hex (from_char 7 s)

abbrev pub genesis : String
genesis = "sha256:0000000000000000000000000000000000000000000000000000000000000000"
