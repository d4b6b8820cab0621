-- ===== src/Util/Hash.antt =====
-- pkg/util/hash.go
use ccb_operator.Base.{String, take}
use ccb_operator.Util.Formats.{Formats}

abbrev pub one_way_name_alphabet : String
one_way_name_alphabet = "bcdfghijklmnpqrstvwxyz0123456789"

-- InputHash of one input: the first ten bytes of the hash, encoded.
unfoldable pub input_hash : Formats → String → String
input_hash F input = F.encode_base32 one_way_name_alphabet (take 10 (F.sha256 input))
