-- ===== src/Converter/Tests.antt =====
-- Converter.h on an object of two bytes.
use tin_locus.Base.{◌≡◌, refl, [], ◌∷◌, ok}
use tin_locus.Converter.{to_bytes, from_bytes, object}

to_bytes_low_first : to_bytes 2 258 ≡ 2 ∷ 1 ∷ []
unfolding to_bytes
to_bytes_low_first = refl

-- Fewer bytes than the object has leave the rest of it as it was.
from_bytes_short : from_bytes 2 (7 ∷ []) 258 ≡ ok 263
unfolding from_bytes object to_bytes
from_bytes_short = refl
