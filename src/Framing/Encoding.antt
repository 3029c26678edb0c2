-- ===== src/Framing/Encoding.antt =====
-- The encoder of frames (crates/agentmesh-host/src/framing.rs).
use gareji_core.Base.{
  ℕ, zero, suc, ◌+◌, ◌/◌, ◌%◌, List, [], ◌∷◌, ◌++◌, Text, codes, ltb, if◌then◌else◌, length,
}

-- A number as it is printed. The number itself is enough fuel, since each digit divides it by ten.
unfoldable pub digits : ℕ → ℕ → Text
digits zero n = (b'0' + n % 10) ∷ []
digits (suc fuel) n =
    let more = digits fuel (n / 10) ++ ((b'0' + n % 10) ∷ []) in
    if ltb n 10 then (b'0' + n) ∷ [] else more

unfoldable pub show : ℕ → Text
unfolding digits
show n = digits n n

-- `FrameEncoder::encode`
unfoldable pub encode : List ℕ → List ℕ
unfolding show
encode body = codes "Content-Length: " ++ (show (length body) ++ (codes "\r\n\r\n" ++ body))
