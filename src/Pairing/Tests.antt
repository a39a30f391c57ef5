-- ===== src/Pairing/Tests.antt =====
-- The comparison of codes on a code and on a wrong one.
use clawpod.Base.{true, false, ◌≡◌, refl, ◌↔◌}
use clawpod.Base.Text
use clawpod.Samples.{sample_lib}
use clawpod.Pairing.{verify_code, as_bytes, looks_like_pairing_code}
use clawpod.Pairing.Compare.{verify_code_iff}

verify_code_iff_example :
    (verify_code sample_lib " ABC2 " "ABC2" ≡ true)
    ↔ (as_bytes (sample_lib.to_uppercase (Text.trim " ABC2 ")) ≡ as_bytes "ABC2")
verify_code_iff_example = verify_code_iff sample_lib " ABC2 " "ABC2"

accepted : verify_code sample_lib " ABC2 " "ABC2" ≡ true
unfolding verify_code
accepted = refl

refused : verify_code sample_lib "ABC3" "ABC2" ≡ false
unfolding verify_code
refused = refl

code_like : looks_like_pairing_code " abc2 " 4 ≡ true
unfolding looks_like_pairing_code
code_like = refl
