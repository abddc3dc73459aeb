-- ===== src/Codec/Wire.antt =====
-- What the encoders of encode.rs append, as one concatenation.
use subduction.Codec.Encode.{array, arrays}
use subduction.Codec.Cursor.{concat}
use subduction.Prelude.{◌≡◌, sym, ◌∙◌, List, [], ◌∷◌, ◌++◌, append_assoc, append-nil, Bytes}

pub arrays-concat : (xs : List Bytes) (buf : Bytes) → arrays xs buf ≡ buf ++ concat xs
unfolding arrays array
arrays-concat [] buf = sym (append-nil buf)
arrays-concat (x ∷ xs) buf = arrays-concat xs (buf ++ x) ∙ append_assoc buf x (concat xs)
